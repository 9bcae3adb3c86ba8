-- ===== src/Runtime/Effects.antt =====
-- backend/internal/runtime/service.go, backend/internal/store/runtime_repository.go: what the writes do
-- to the table of instances, spelled out column by column.
use ctf_recruit.Base.{
  ℕ, suc, Text, Bool, true, false, ◌≡◌, refl, sym, ap, ◌∙◌, inl, inr, ◌⊎◌, Option, none, some, List,
  [], ◌∷◌, Memᴰ, ◌&&◌, ◌||◌, arith, ℤ, ◌+ℤ◌, ◌≤ℤ◌, ltb_ℤ, Result, ok, err, Bool-cases, Option-cases,
  codes, ◌==◌, nat_eq, text_eq, text_beq, text_beq_iff, nat_beq_iff, Changed,
}
use ctf_recruit.Runtime.{
  Error, Instance, InstanceRecord, ServiceConfig, is_active, repository_not_found,
}
use ctf_recruit.Runtime.World.{Outside, Db}
use ctf_recruit.Runtime.Repository.{
  first, is_of, select_active, update_row, renewed, update_renewed, terminated, update_terminated,
}
use ctf_recruit.Runtime.Service.{extended}
use ctf_recruit.Runtime.Rules.{ok_injective}
use ctf_recruit.Runtime.Tables.{update_renewed_tables, update_terminated_tables}

-- The status of an instance that has a container.
abbrev pub IsRunning : InstanceRecord → Type 0
IsRunning r = (r.inst.status ≡ codes "creating") ⊎ (r.inst.status ≡ codes "running")

abbrev pub runs : InstanceRecord → Bool
runs r = r.inst.status == codes "creating" || r.inst.status == codes "running"

-- A row of the user's running instance of the challenge.
pub record IsOf (user : ℕ) (challenge : Text) (db : Db) (r : InstanceRecord) : Type 0 where
  pub there : Memᴰ r db.instances
  pub owner : r.inst.user_id ≡ user
  pub subject : r.inst.challenge_id ≡ challenge
  pub running : IsRunning r

-- The rows with the key have ended at the time that the column gives back of `at`.
pub record Ends (key : ℕ) (at : ℤ) (db db' : Db) : Type 0 where
  pub rows : List InstanceRecord
  pub tables : db' ≡ record db { instances = rows }
  pub written :
      Changed
        (λ r. r.id ≡ key)
        (λ r r'. r' ≡ record r {
          inst = record r.inst { status = codes "terminated"; terminated_at = some (db.stamp at) };
        })
        db.instances
        rows

-- The running rows with the key are renewed once more, to the end that the column gives back.
pub record Renews (key : ℕ) (expires : ℤ) (db db' : Db) : Type 0 where
  pub rows : List InstanceRecord
  pub tables : db' ≡ record db { instances = rows }
  pub written :
      Changed
        (λ r. (r.id ≡ key) × IsRunning r)
        (λ r r'. r' ≡ record r {
          inst = record r.inst {
            renew_count = suc r.inst.renew_count;
            expires_at = db.stamp expires;
          };
        })
        db.instances
        rows

-- The later of the old end and now, plus the lifetime.
abbrev pub IsExtended : ℤ → ℤ → ℤ → ℤ → Type 0
IsExtended old now ttl expires =
    (base : ℤ) × (expires ≡ base +ℤ ttl)
    × (old ≤ℤ base)
    × (now ≤ℤ base)
    × ((base ≡ old) ⊎ (base ≡ now))

is_active_cases : (r : InstanceRecord) → is_active r ≡ true → IsRunning r
unfolding is_active
is_active_cases r h = elim (Bool-cases (r.inst.status == codes "creating")) [
  | inl creating ↦ inl ((text_beq_iff r.inst.status (codes "creating")).0 creating)
  | inr other ↦ inr ((text_beq_iff r.inst.status (codes "running")).0 (ground arith))
]

pub IsRunning-active : (r : InstanceRecord) → IsRunning r → is_active r ≡ true
unfolding is_active text_beq
IsRunning-active r (inl e) = rw e refl
IsRunning-active r (inr e) = rw e refl

first_cases :
    {A : Type 0} (p : A → Bool) (xs : List A) (a : A)
    → first p xs ≡ some a
    → Memᴰ a xs × (p a ≡ true)
unfolding first
first_cases p [] a h = absurd (cc)
first_cases p (x ∷ xs) a h = elim (Bool-cases (p x)) [
  | inl here ↦ let same : x ≡ a = at_head (rw here at h) in (Memᴰ.head (sym same), rw (← same) here)
  | inr not ↦ let (there, passes) = first_cases p xs a (rw not at h) in (Memᴰ.tail there, passes)
]
  where
    at_head : some x ≡ some a → x ≡ a
    at_head e = cc

pub select_active-IsOf :
    (user : ℕ) (challenge : Text) (db : Db) (r : InstanceRecord)
    → select_active user challenge db ≡ ok r
    → IsOf user challenge db r
unfolding select_active is_of
select_active-IsOf user challenge db r h =
    elim (Option-cases (first (λ r. is_of user challenge r && is_active r) db.instances)) [
      | inl gone ↦ absurd (missing gone)
      | inr (a, e) ↦
          let (there, passes) = first_cases _ db.instances r (e ∙ ap some (same a e)) in
          record {
            there = there;
            owner = (nat_beq_iff r.inst.user_id user).0 (ground arith);
            subject = (text_beq_iff r.inst.challenge_id challenge).0 (ground arith);
            running = is_active_cases r (ground arith);
          }
    ]
  where
    found : Option InstanceRecord
    found = first (λ r. is_of user challenge r && is_active r) db.instances

    missing : ¬ found ≡ none
    missing e = cc

    same : (a : InstanceRecord) → found ≡ some a → a ≡ r
    same a e = cc

-- UPDATE: which rows it changes, and how.
update_row-Changed :
    (key : ℕ) (test : InstanceRecord → Bool) (change : Instance → Instance)
    (P : InstanceRecord → Type 0) (rows : List InstanceRecord)
    → ((r : InstanceRecord) → r.id ≡ key → test r ≡ true → P r)
    → ((r : InstanceRecord) → P r → (r.id ≡ key) × (test r ≡ true))
    → Changed P
        (λ r r'. r' ≡ record r { inst = change r.inst })
        rows
        (update_row key test change rows)
unfolding update_row
update_row-Changed key test change P [] fits back = tt
update_row-Changed key test change P (r ∷ rows) fits back =
    elim (Bool-cases ((r.id == key) && test r)) [
      | inl hit ↦ rw hit (
        inl (fits r ((nat_beq_iff r.id key).0 (ground arith)) (ground arith), refl),
        update_row-Changed key test change P rows fits back,
      )
      | inr miss ↦ rw miss (
        inr ((λ p. missed r miss (back r p)), refl),
        update_row-Changed key test change P rows fits back,
      )
    ]
  where
    missed :
        (r : InstanceRecord)
        → ((r.id == key) && test r) ≡ false
        → ¬ ((r.id ≡ key) × (test r ≡ true))
    missed r miss (same, passes) =
        let e : (r.id == key) ≡ true = (nat_beq_iff r.id key).1 same in ground arith

pub update_terminated-Ends :
    (key : ℕ) (at : ℤ) (db db' : Db)
    → update_terminated key at db ≡ (ok tt, db')
    → Ends key at db db'
update_terminated-Ends key at db db' h = record {
  rows = update_row key (λ _. true) (terminated (db.stamp at)) db.instances;
  tables = update_terminated_tables key at db db' h;
  written =
      update_row-Changed key (λ _. true) (terminated (db.stamp at)) (λ r. r.id ≡ key) db.instances
        (λ r same _. same) (λ r same. (same, refl));
}

pub update_renewed-Renews :
    (key : ℕ) (expires : ℤ) (db db' : Db) (updated : InstanceRecord)
    → update_renewed key expires db ≡ (ok updated, db')
    → Renews key expires db db'
update_renewed-Renews key expires db db' updated h = record {
  rows = update_row key is_active (renewed (db.stamp expires)) db.instances;
  tables = update_renewed_tables key expires db db' updated h;
  written =
      update_row-Changed key is_active (renewed (db.stamp expires))
        (λ r. (r.id ≡ key) × IsRunning r) db.instances
        (λ r same active. (same, is_active_cases r active))
        (λ r (same, running). (same, IsRunning-active r running));
}

-- The row that is returned.
pub update_renewed-there :
    (key : ℕ) (expires : ℤ) (db db' : Db) (updated : InstanceRecord)
    → update_renewed key expires db ≡ (ok updated, db')
    → (row : InstanceRecord) × Memᴰ row db.instances
      × (row.id ≡ key)
      × IsRunning row
      × (updated ≡ record row { inst = renewed (db.stamp expires) row.inst })
unfolding update_renewed
update_renewed-there key expires db db' updated h =
    elim (Option-cases (first (λ r. (r.id == key) && is_active r) db.instances)) [
      | inl gone ↦ absurd (refused (ap (λ x. x.0) (rw gone at h)))
      | inr (row, e) ↦
          let (there, passes) = first_cases _ db.instances row e in
          (
            row,
            there,
            (nat_beq_iff row.id key).0 (ground arith),
            is_active_cases row (ground arith),
            sym (ok_injective (ap (λ x. x.0) (rw e at h))),
          )
    ]
  where
    refused : ¬ ◌≡◌ {A = Result Error InstanceRecord} (err repository_not_found) (ok updated)
    refused e = cc

pub extended-IsExtended :
    (o : Outside) (cfg : ServiceConfig) (i : Instance) (now ttl : ℤ)
    → IsExtended i.expires_at now ttl (extended o cfg i now ttl)
extended-IsExtended o cfg i now ttl = elim (Bool-cases (ltb_ℤ i.expires_at now)) [
  | inl over ↦ (now, rw over refl, ground arith, ground arith, inr refl)
  | inr live ↦ (i.expires_at, rw live refl, ground arith, ground arith, inl refl)
]
