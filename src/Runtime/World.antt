-- ===== src/Runtime/World.antt =====
-- What the service works on: the tables of the database, and what lies outside of the program.
use ctf_recruit.Base.{ℕ, Text, Bool, Option, List, ℤ, Result, ok, err, if◌then◌else◌}
use ctf_recruit.Base.Exec.{Exec}
use ctf_recruit.Runtime.{
  Error, store_error, manager_error, InstanceRecord, StartRequest, StartedContainer,
  ManagedContainer,
}

-- A row of challenge_runtime_configs.
pub record RuntimeConfigRow : Type 0 where
  pub id : ℕ
  pub enabled : Bool
  pub image_name : Text
  pub exposed_protocol : Text
  pub container_port : ℤ
  pub default_ttl_seconds : ℤ
  pub max_renew_count : ℤ
  pub memory_limit_mb : ℤ
  pub cpu_limit_millicores : ℤ
  pub max_active_instances : ℤ
  pub user_cooldown_seconds : ℤ
  pub env : List (Text × Text)
  pub command : List Text

-- A row of challenges, with its category's slug and its row of runtime configuration, if any.
pub record ChallengeRow : Type 0 where
  pub id : ℕ
  pub slug : Text
  pub title : Text
  pub category : Text
  pub points : ℤ
  pub difficulty : Text
  pub status : Text
  pub dynamic_enabled : Bool
  pub config : Option RuntimeConfigRow

-- Challenges by ascending id; instances newest first, with `next_id` the sequence of their key.
-- `stamp` is what a column of type TIMESTAMPTZ gives back of an instant written to it.
pub record Db : Type 0 where
  pub challenges : List ChallengeRow
  pub instances : List InstanceRecord
  pub next_id : ℕ
  pub stamp : ℤ → ℤ

-- The clock, the database's failures, the container daemon, and the host name of a parsed URL
-- (empty if it does not parse). Each call may change the state outside.
pub record Outside : Type 1 where
  pub State : Type 0
  pub now : State → ℤ × State
  pub db_fault : State → Bool × State
  pub start : StartRequest → State → Result Text StartedContainer × State
  pub stop : Text → State → Result Text (Unit {0}) × State
  pub exists : Text → State → Result Text Bool × State
  pub list_managed : State → Result Text (List ManagedContainer) × State
  pub hostname : Text → Text

pub record World (o : Outside) : Type 0 where
  pub db : Db
  pub out : o.State

abbrev pub M : Outside → Type 0 → Type 0
M o A = Exec (World o) Error A

module _ (o : Outside) where
  -- `s.now().UTC()`
  unfoldable pub read_clock : M o ℤ
  read_clock w = (ok (o.now w.out).0, record w { out = (o.now w.out).1 })

  abbrev from_manager : {A : Type 0} → Result Text A → Result Error A
  from_manager (ok a) = ok a
  from_manager (err message) = err (manager_error message)

  unfoldable pub manager_start : StartRequest → M o StartedContainer
  manager_start req w =
      (from_manager (o.start req w.out).0, record w { out = (o.start req w.out).1 })

  unfoldable pub manager_stop : Text → M o (Unit {0})
  manager_stop id w = (from_manager (o.stop id w.out).0, record w { out = (o.stop id w.out).1 })

  unfoldable pub manager_exists : Text → M o Bool
  manager_exists id w =
      (from_manager (o.exists id w.out).0, record w { out = (o.exists id w.out).1 })

  unfoldable pub manager_list : M o (List ManagedContainer)
  manager_list w =
      (from_manager (o.list_managed w.out).0, record w { out = (o.list_managed w.out).1 })

  -- A statement of the database: it fails with no effect, or does what it says.
  unfoldable pub exec : {A : Type 0} → (Db → Result Error A × Db) → M o A
  exec f w =
      let s = (o.db_fault w.out).1 in
      if (o.db_fault w.out).0
      then (err store_error, record w { out = s })
      else ((f w.db).0, record w { db = (f w.db).1; out = s })

  unfoldable pub query : {A : Type 0} → (Db → Result Error A) → M o A
  unfolding exec
  query f = exec (λ db. (f db, db))
