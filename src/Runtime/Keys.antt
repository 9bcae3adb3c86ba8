-- ===== src/Runtime/Keys.antt =====
-- backend/internal/store/runtime_repository.go: the keys of the table of instances, how often an
-- instance is renewed, and that an ended one stays so.
use ctf_recruit.Base.{
  ℕ, ◌≤◌, ◌<◌, true, ◌≡◌, refl, ap, List, [], ◌∷◌, arith, count, All, ◌&&◌, ◌==◌, nat_eq,
  nat_beq_iff,
}
use ctf_recruit.Runtime.{InstanceRecord, ServiceConfig, is_active}
use ctf_recruit.Runtime.World.{Outside, World, Db}
use ctf_recruit.Runtime.History.{Step, Call, run, run_invariant}
use ctf_recruit.Runtime.Tables.{
  insert_instance-Inserted, update_row-All, update_renewed_tables, update_terminated_tables,
}
use ctf_recruit.Runtime.Limits.{Step-count, Keeps-terminated}

-- No two rows have one key, and the sequence is ahead of all keys.
pub record Keyed (db : Db) : Type 0 where
  pub single : (k : ℕ) → count (λ r. r.id == k) db.instances ≤ 1
  pub ahead : All (λ r. r.id < db.next_id) db.instances

pub All-map {ℓ κ} :
    {A : Type ℓ} {P Q : A → Type κ} (xs : List A) → ((x : A) → P x → Q x) → All P xs → All Q xs
All-map [] f all = tt
All-map (x ∷ xs) f all = (f x all.0, All-map xs f all.1)

pub All-Q {ℓ κ} : {A : Type ℓ} {Q : A → Type κ} (xs : List A) → ((x : A) → Q x) → All Q xs
All-Q [] f = tt
All-Q (x ∷ xs) f = (f x, All-Q xs f)

no_row :
    (k : ℕ) (rows : List InstanceRecord)
    → All (λ r. r.id < k) rows
    → count (λ r. r.id == k) rows ≡ 0
no_row k [] all = refl
no_row k (r ∷ rows) all = ground (arith, no_row k rows all.1, all.0)

module _ (o : Outside) (cfg : ServiceConfig) where
  pub Step-next : (db db' : Db) → Step o cfg db db' → db.next_id ≤ db'.next_id
  Step-next db db' (Step.insert user ref found started now saved l h f e) =
      omega (arith, (insert_instance-Inserted found.id _ db db' saved e).next)
  Step-next db db' (Step.renew user ref found old updated now l a b e) =
      omega (arith, ap (λ d. d.next_id) (update_renewed_tables old.id _ db db' updated e))
  Step-next db db' (Step.terminate key at e) =
      omega (arith, ap (λ d. d.next_id) (update_terminated_tables key at db db' e))

  pub Step-Keyed : (db db' : Db) → Step o cfg db db' → Keyed db → Keyed db'
  Step-Keyed db db' s keyed = record {
    single = λ k.
        Step-count o cfg (λ r. r.id == k) 1 db db' (λ expires r h. h) (λ at r h. h)
          (λ i counts.
            let same : db.next_id ≡ k = ground (arith, nat_beq_iff db.next_id k) in
            rw (← same) (omega (arith, no_row db.next_id db.instances keyed.ahead)))
          s (keyed.single k);
    ahead = still_ahead s;
  }
    where
      still_ahead : Step o cfg db db' → All (λ r. r.id < db'.next_id) db'.instances
      still_ahead (Step.insert user ref found started now saved l h f e) =
          let i = insert_instance-Inserted found.id _ db db' saved e in
          rw (i.rows, i.next) (omega arith, All-map db.instances (λ r h. omega arith) keyed.ahead)
      still_ahead (Step.renew user ref found old updated now l a b e) =
          rw (update_renewed_tables old.id _ db db' updated e) (
            update_row-All (λ r. r.id < db.next_id) old.id is_active _ db.instances
              (All-map db.instances (λ r h _ _. h) keyed.ahead) keyed.ahead)
      still_ahead (Step.terminate key at e) = rw (update_terminated_tables key at db db' e) (
          update_row-All (λ r. r.id < db.next_id) key (λ _. true) _ db.instances
            (All-map db.instances (λ r h _ _. h) keyed.ahead) keyed.ahead)

  -- The keys of the instances differ and the sequence is ahead of them, and so they are after any
  -- calls of the service and of the background loop, in any order.
  pub run-Keyed : (cs : List (Call o cfg)) (w : World o) → Keyed w.db → Keyed (run o cfg cs w).db
  run-Keyed cs w = run_invariant o cfg Keyed Step-Keyed cs w

  -- An instance that is not active does not become active again, whatever calls follow: its key is
  -- not given to a new instance, and neither renewing nor ending makes a row active.
  pub run_ended :
      (key : ℕ) (cs : List (Call o cfg)) (w : World o)
      → key < w.db.next_id
      → count (λ r. (r.id == key) && is_active r) w.db.instances ≡ 0
      → count (λ r. (r.id == key) && is_active r) (run o cfg cs w).db.instances ≡ 0
  unfolding is_active
  run_ended key cs w given ended = omega (
    arith,
    (run_invariant o cfg
        (λ db. (key < db.next_id) × (count (λ r. (r.id == key) && is_active r) db.instances ≤ 0))
        (λ db db' s (given, ended). (
          omega (arith, Step-next db db' s),
          Step-count o cfg (λ r. (r.id == key) && is_active r) 0 db db' (λ expires r h. h)
              (Keeps-terminated o cfg (λ r. r.id == key))
              (λ i counts. ground (arith, nat_beq_iff db.next_id key)) s ended,
        ))
        cs w (given, omega arith)).1,
  )
