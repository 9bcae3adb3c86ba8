-- ===== src/Runtime/Tables.antt =====
-- backend/internal/store/runtime_repository.go: how the three writes change the number of rows that
-- pass a test, and what every row satisfies.
use ctf_recruit.Base.{
  ℕ, suc, ◌≤◌, Bool, true, ◌≡◌, List, [], ◌∷◌, arith, ℤ, ltb, ok, count, All, ◌&&◌, Bool-cases, inl,
  inr, nat_beq,
}
use ctf_recruit.Runtime.{Instance, InstanceRecord, is_active}
use ctf_recruit.Runtime.World.{Db}
use ctf_recruit.Runtime.Repository.{
  insert_instance, update_row, renewed, update_renewed, terminated, update_terminated, stored,
  is_of,
}

-- The row that `insert_instance` puts into the table.
abbrev pub new_row : ℕ → Instance → Db → InstanceRecord
new_row config_id i db = record {
  id = db.next_id;
  runtime_config_id = config_id;
  inst = stored db.stamp i;
}

-- After an insertion the table has the new row in front; an active one was the only one of its user
-- and challenge.
pub record Inserted (config_id : ℕ) (i : Instance) (saved : InstanceRecord) (db db' : Db)
    : Type 0 where
  pub rows : db'.instances ≡ new_row config_id i db ∷ db.instances
  pub next : db'.next_id ≡ suc db.next_id
  pub challenges : db'.challenges ≡ db.challenges
  pub stamp : db'.stamp ≡ db.stamp
  pub shown : saved ≡ record { id = db.next_id; runtime_config_id = config_id; inst = i }
  pub alone :
      is_active (new_row config_id i db) ≡ true
      → count (λ r. is_of i.user_id i.challenge_id r && is_active r) db.instances ≡ 0

pub insert_instance-Inserted :
    (config_id : ℕ) (i : Instance) (db db' : Db) (saved : InstanceRecord)
    → insert_instance config_id i db ≡ (ok saved, db')
    → Inserted config_id i saved db db'
unfolding insert_instance
insert_instance-Inserted config_id i db db' saved h =
    elim (Bool-cases (
      is_active (new_row config_id i db)
      && ltb 0 (count (λ r. is_of i.user_id i.challenge_id r && is_active r) db.instances))) [
        | inl taken ↦ ground arith
        | inr free ↦ record {
          rows = ground arith;
          next = ground arith;
          challenges = ground arith;
          stamp = ground arith;
          shown = ground arith;
          alone = λ a. ground arith;
        }
      ]

-- A change that no row begins to pass the test by.
abbrev pub Keeps : (InstanceRecord → Bool) → (Instance → Instance) → Type 0
Keeps p change = (r : InstanceRecord) → p (record r { inst = change r.inst }) ≡ true → p r ≡ true

count-update_row :
    (p : InstanceRecord → Bool) (key : ℕ) (test : InstanceRecord → Bool)
    (change : Instance → Instance) (rows : List InstanceRecord)
    → Keeps p change
    → count p (update_row key test change rows) ≤ count p rows
unfolding update_row
count-update_row p key test change [] keeps = omega arith
count-update_row p key test change (r ∷ rows) keeps =
    ground (arith, count-update_row p key test change rows keeps, keeps r)

-- The writes that change rows: what they do to the tables.
pub update_renewed_tables :
    (key : ℕ) (expires : ℤ) (db db' : Db) (updated : InstanceRecord)
    → update_renewed key expires db ≡ (ok updated, db')
    → db'
      ≡ record db { instances = update_row key is_active (renewed (db.stamp expires)) db.instances }
unfolding update_renewed
update_renewed_tables key expires db db' updated h = ground arith

pub update_terminated_tables :
    (key : ℕ) (at : ℤ) (db db' : Db)
    → update_terminated key at db ≡ (ok tt, db')
    → db'
      ≡ record db { instances = update_row key (λ _. true) (terminated (db.stamp at)) db.instances }
unfolding update_terminated
update_terminated_tables key at db db' h = ground arith

pub count-update_renewed :
    (p : InstanceRecord → Bool) (key : ℕ) (expires : ℤ) (db db' : Db) (updated : InstanceRecord)
    → Keeps p (renewed (db.stamp expires))
    → update_renewed key expires db ≡ (ok updated, db')
    → count p db'.instances ≤ count p db.instances
count-update_renewed p key expires db db' updated keeps h =
    rw (update_renewed_tables key expires db db' updated h)
      (count-update_row p key is_active (renewed (db.stamp expires)) db.instances keeps)

pub count-update_terminated :
    (p : InstanceRecord → Bool) (key : ℕ) (at : ℤ) (db db' : Db)
    → Keeps p (terminated (db.stamp at))
    → update_terminated key at db ≡ (ok tt, db')
    → count p db'.instances ≤ count p db.instances
count-update_terminated p key at db db' keeps h =
    rw (update_terminated_tables key at db db' h)
      (count-update_row p key (λ _. true) (terminated (db.stamp at)) db.instances keeps)

-- What all rows satisfy and the change keeps.
pub update_row-All {ℓ} :
    (P : InstanceRecord → Type ℓ) (key : ℕ) (test : InstanceRecord → Bool)
    (change : Instance → Instance) (rows : List InstanceRecord)
    → All (λ r. r.id ≡ key → test r ≡ true → P (record r { inst = change r.inst })) rows
    → All P rows
    → All P (update_row key test change rows)
unfolding update_row
update_row-All P key test change [] step all = tt
update_row-All P key test change (r ∷ rows) step all =
    elim (Bool-cases (nat_beq r.id key && test r)) [
      | inl hit ↦
          rw hit (
            step.0 (ground arith) (ground arith),
            update_row-All P key test change rows step.1 all.1,
          )
      | inr miss ↦ rw miss (all.0, update_row-All P key test change rows step.1 all.1)
    ]
