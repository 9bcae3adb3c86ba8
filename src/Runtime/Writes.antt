-- ===== src/Runtime/Writes.antt =====
-- backend/internal/runtime/service.go: runs of calls as series of writes, spelled out column by column.
use ctf_recruit.Base.{ℕ, Text, ◌≡◌, List, ℤ, pos, ◌<ℤ◌, arith}
use ctf_recruit.Runtime.{RuntimeConfigRecord, InstanceRecord, ServiceConfig, StartedContainer}
use ctf_recruit.Runtime.World.{Outside, World, Db}
use ctf_recruit.Runtime.Service.{extended}
use ctf_recruit.Runtime.History.{Step, Steps, Call, run, run-Steps}
use ctf_recruit.Runtime.Answers.{IsConfig, Inserts, insert_instance-Inserts}
use ctf_recruit.Runtime.Effects.{
  IsOf, Ends, Renews, IsExtended, select_active-IsOf, update_terminated-Ends, update_renewed-Renews,
  extended-IsExtended,
}

module _ (o : Outside) (cfg : ServiceConfig) where
  -- One write, with what was checked before it.
  pub data Write (db db' : Db) : Type 0 where
    inserts :
        (user : ℕ) (ref : Text) (found : RuntimeConfigRecord) (started : StartedContainer) (now : ℤ)
        → Inserts o cfg user ref found started now db db'
        → Write db db'
    renews :
        (user : ℕ) (ref : Text) (found : RuntimeConfigRecord) (old : InstanceRecord)
        (now expires : ℤ)
        → IsConfig o cfg ref db found
        → IsOf user found.challenge.id db old
        → pos old.inst.renew_count <ℤ found.challenge.max_renew_count
        → IsExtended old.inst.expires_at now found.challenge.ttl expires
        → Renews old.id expires db db'
        → Write db db'
    ends : (key : ℕ) (at : ℤ) → Ends key at db db' → Write db db'

  pub data Writes (last : Db) : Db → Type 0 where
    done : {db : Db} → last ≡ db → Writes last db
    next : {db mid : Db} → Write db mid → Writes last mid → Writes last db

  Step-Write : (db db' : Db) → Step o cfg db db' → Write db db'
  Step-Write db db' (Step.insert user ref found started now saved loaded room free written) =
      inserts user ref found started now (
        insert_instance-Inserts o cfg user ref found started now saved db db' loaded room free
          written)
  Step-Write db db' (Step.renew user ref found old updated now loaded at below written) =
      renews user ref found old now (extended o cfg old.inst now found.challenge.ttl) loaded
        (select_active-IsOf user found.challenge.id db old at) (ground arith)
        (extended-IsExtended o cfg old.inst now found.challenge.ttl)
        (update_renewed-Renews old.id _ db db' updated written)
  Step-Write db db' (Step.terminate key at written) =
      ends key at (update_terminated-Ends key at db db' written)

  -- Whatever the users call in whatever order, and whatever fails outside, the tables change by writes
  -- of three kinds only, one after the other. One row is new, running and never renewed, for a dynamic
  -- challenge with fewer running instances than its limit and none of this user, on a requested port
  -- that no running row has where there is a range. Or the running rows with the key of a user's
  -- running instance, renewed fewer times than the limit, count one renewal more and end at the later
  -- of its old end and a time, plus the lifetime. Or the rows with one key are terminated at a time.
  -- Every other row and column is as it was.
  pub run-Writes : (cs : List (Call o cfg)) (w : World o) → Writes (run o cfg cs w).db w.db
  run-Writes cs w = go (run-Steps o cfg cs w)
    where
      go : {last db : Db} → Steps o cfg last db → Writes last db
      go (Steps.done e) = done e
      go (Steps.next {db} {mid} s rest) = next (Step-Write db mid s) (go rest)
