-- ===== src/Runtime/Replies.antt =====
-- backend/internal/runtime/service.go: what StartInstance, RenewInstance and DeleteInstance write and
-- reply, spelled out column by column.
use ctf_recruit.Base.{
  ℕ, suc, Text, Bool, true, false, ◌≡◌, refl, ap, ◌∙◌, none, some, Memᴰ, arith, ℤ, pos, ◌+ℤ◌, ◌<ℤ◌,
  Result, ok, err, pair_eq, codes, nat_eq, text_eq,
}
use ctf_recruit.Runtime.{
  Error, Instance, RuntimeConfigRecord, InstanceRecord, ServiceConfig, StartedContainer,
}
use ctf_recruit.Runtime.World.{Outside, World, Db, manager_stop}
use ctf_recruit.Runtime.Service.{
  build_access_url, new_instance, extended, start_instance, renew_instance, delete_instance,
}
use ctf_recruit.Runtime.Rules.{Told}
use ctf_recruit.Runtime.Start.{Started, start_instance-Started}
use ctf_recruit.Runtime.Lifecycle.{
  Renewed, renew_instance-Renewed, Deleted, delete_instance-Deleted,
}
use ctf_recruit.Runtime.Tables.{insert_instance-Inserted}
use ctf_recruit.Runtime.Answers.{IsConfig, Inserts, insert_instance-Inserts}
use ctf_recruit.Runtime.Effects.{
  IsRunning, IsOf, Ends, Renews, IsExtended, select_active-IsOf, update_terminated-Ends,
  update_renewed-Renews, extended-IsExtended, update_renewed-there,
}

module _ (o : Outside) (cfg : ServiceConfig) where
  -- The specification of StartInstance.
  pub data StartAnswered (user : ℕ) (ref : Text) (db : Db) (r : Result Error (Instance × Bool))
      (db' : Db) : Type 0 where
    failed : (e : Error) → r ≡ err e → db' ≡ db → StartAnswered user ref db r db'
    there :
        (found : RuntimeConfigRecord) (old : InstanceRecord)
        → IsConfig o cfg ref db found
        → IsOf user found.challenge.id db old
        → r
          ≡ ok (
            record old.inst {
              access_url =
                  build_access_url o cfg found.challenge old.inst.host_ip old.inst.host_port;
            },
            false,
          )
        → db' ≡ db
        → StartAnswered user ref db r db'
    started :
        (found : RuntimeConfigRecord) (container : StartedContainer) (now : ℤ)
        → Told o now
        → Inserts o cfg user ref found container now db db'
        → r
          ≡ ok (
            record {
              challenge_id = found.challenge.id;
              user_id = user;
              status = codes "running";
              access_url =
                  build_access_url o cfg found.challenge container.host_ip container.host_port;
              host_port = container.host_port;
              renew_count = 0;
              started_at = now;
              expires_at = now +ℤ found.challenge.ttl;
              terminated_at = none;
              container_id = container.container_id;
              container_name = container.container_name;
              host_ip = container.host_ip;
            },
            true,
          )
        → StartAnswered user ref db r db'

  -- StartInstance, whatever fails, ends in one of three ways. It returns an error and the tables are as
  -- they were. Or they are as they were, and the reply is the user's running instance of the challenge,
  -- with its access URL and as not new. Or one row is new, for a dynamic challenge with fewer running
  -- instances than its limit, if it has one, and none of this user: a running instance from now until
  -- now plus the lifetime, never renewed, with the container that the daemon started and the port that
  -- the daemon reports; and the reply is this instance as new. Where a range of ports is configured, the
  -- daemon was asked for a port of the range that no running row has, and for port 0 otherwise.
  pub start_instance-Answered :
      (user : ℕ) (ref : Text) (w : World o)
      → StartAnswered user ref w.db
          (start_instance o cfg user ref w).0
          (start_instance o cfg user ref w).1.db
  unfolding new_instance
  start_instance-Answered user ref w = go _ _ (start_instance-Started o cfg user ref w)
    where
      go :
          (r : Result Error (Instance × Bool)) (db' : Db)
          → Started o cfg user ref w.db r db'
          → StartAnswered user ref w.db r db'
      go (err e) db' (Started.unchanged same shown) = failed e refl same
      go (ok x) db' (Started.unchanged same shown) =
          let (old, found, row, loaded, at, e) = shown x refl in
          there found row loaded (select_active-IsOf user found.challenge.id w.db row at)
            (ap ok (pair_eq e old)) same
      go r db' (Started.created found container now saved told loaded room free written reply) =
          let ins = insert_instance-Inserted found.id _ w.db db' saved written in
          started found container now told
            (insert_instance-Inserts o cfg user ref found container now saved w.db db' loaded room
              free written)
            (reply ∙ rw (ins.shown) refl)

  -- The specification of RenewInstance.
  pub data RenewAnswered (user : ℕ) (ref : Text) (db : Db) (r : Result Error Instance) (db' : Db)
      : Type 0 where
    failed : (e : Error) → r ≡ err e → db' ≡ db → RenewAnswered user ref db r db'
    renewed :
        (found : RuntimeConfigRecord) (old row : InstanceRecord) (now expires : ℤ)
        → IsConfig o cfg ref db found
        → IsOf user found.challenge.id db old
        → pos old.inst.renew_count <ℤ found.challenge.max_renew_count
        → Told o now
        → IsExtended old.inst.expires_at now found.challenge.ttl expires
        → Renews old.id expires db db'
        → Memᴰ row db.instances × (row.id ≡ old.id) × IsRunning row
        → r
          ≡ ok (record row.inst {
            renew_count = suc row.inst.renew_count;
            expires_at = db.stamp expires;
            access_url = build_access_url o cfg found.challenge row.inst.host_ip row.inst.host_port;
          })
        → RenewAnswered user ref db r db'

  -- RenewInstance, whatever fails, ends in one of two ways. It returns an error and the tables are as
  -- they were. Or the user has a running instance of the challenge that was renewed fewer times than
  -- the limit; the running rows with its key count one renewal more and end at the later of its old end
  -- and now plus the lifetime, as the column gives it back; nothing else in the tables is changed; and
  -- the reply is a row with this key as it is then, with its access URL.
  pub renew_instance-Answered :
      (user : ℕ) (ref : Text) (w : World o)
      → RenewAnswered user ref w.db
          (renew_instance o cfg user ref w).0
          (renew_instance o cfg user ref w).1.db
  renew_instance-Answered user ref w = go (renew_instance-Renewed o cfg user ref w)
    where
      go :
          {r : Result Error Instance} {db' : Db}
          → Renewed o cfg user ref w.db r db'
          → RenewAnswered user ref w.db r db'
      go (Renewed.unchanged same e reply) = failed e reply same
      go {db' = db'} (Renewed.renewed found old updated now told loaded at below written reply) =
          let expires = extended o cfg old.inst now found.challenge.ttl in
          let (row, kept, key, running, e) =
            update_renewed-there old.id expires w.db db' updated written in
          renewed found old row now expires loaded
            (select_active-IsOf user found.challenge.id w.db old at) (ground arith) told
            (extended-IsExtended o cfg old.inst now found.challenge.ttl)
            (update_renewed-Renews old.id expires w.db db' updated written) (kept, key, running)
            (reply ∙ rw e refl)

  -- The specification of DeleteInstance.
  pub data DeleteAnswered (user : ℕ) (ref : Text) (db : Db) (r : Result Error Instance) (db' : Db)
      : Type 0 where
    failed : (e : Error) → r ≡ err e → db' ≡ db → DeleteAnswered user ref db r db'
    deleted :
        (found : RuntimeConfigRecord) (old : InstanceRecord) (now : ℤ) (stopped : World o)
        → IsConfig o cfg ref db found
        → IsOf user found.challenge.id db old
        → (manager_stop o old.inst.container_id stopped).0 ≡ ok tt
        → Told o now
        → Ends old.id now db db'
        → r
          ≡ ok (record old.inst {
            status = codes "terminated";
            terminated_at = some now;
            access_url = build_access_url o cfg found.challenge old.inst.host_ip old.inst.host_port;
          })
        → DeleteAnswered user ref db r db'

  -- DeleteInstance, whatever fails, ends in one of two ways. It returns an error and the tables are as
  -- they were. Or the user has a running instance of the challenge whose container the daemon has
  -- stopped; the rows with its key are terminated at this time, as the column gives it back; nothing
  -- else in the tables is changed; and the reply is the instance as terminated at this time, with its
  -- access URL.
  pub delete_instance-Answered :
      (user : ℕ) (ref : Text) (w : World o)
      → DeleteAnswered user ref w.db
          (delete_instance o cfg user ref w).0
          (delete_instance o cfg user ref w).1.db
  delete_instance-Answered user ref w = go (delete_instance-Deleted o cfg user ref w)
    where
      go :
          {r : Result Error Instance} {db' : Db}
          → Deleted o cfg user ref w.db r db'
          → DeleteAnswered user ref w.db r db'
      go (Deleted.unchanged same e reply) = failed e reply same
      go {db' = db'} (Deleted.deleted found old now stopped told loaded at run written reply) =
          deleted found old now stopped loaded
            (select_active-IsOf user found.challenge.id w.db old at) run told
            (update_terminated-Ends old.id now w.db db' written) reply
