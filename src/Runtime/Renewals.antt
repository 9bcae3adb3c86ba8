-- ===== src/Runtime/Renewals.antt =====
-- backend/internal/runtime/service.go: how often an instance is renewed.
use ctf_recruit.Base.{
  ℕ, suc, ◌≤◌, Text, Bool, true, false, ◌≡◌, ap, sym, ◌∙◌, subst, List, [], ◌∷◌, arith, pos, leb_ℤ,
  ok, count, All, ◌&&◌, Bool-cases, Option-cases, inl, inr, ◌==◌, nat_eq, some, nat_beq_iff,
  text_beq_iff,
}
use ctf_recruit.Runtime.{InstanceRecord, ServiceConfig, RuntimeConfigRecord, is_active}
use ctf_recruit.Runtime.World.{Outside, World, Db}
use ctf_recruit.Runtime.Repository.{first, is_of, select_active, to_config}
use ctf_recruit.Runtime.Service.{new_instance}
use ctf_recruit.Runtime.Checks.{Loaded}
use ctf_recruit.Runtime.History.{Step, Call, run, run_invariant}
use ctf_recruit.Runtime.Tables.{
  insert_instance-Inserted, update_row-All, update_renewed_tables, update_terminated_tables,
}
use ctf_recruit.Runtime.Limits.{Step-challenges, Configured, select_config-All}
use ctf_recruit.Runtime.Keys.{Keyed, Step-Keyed, All-map}

absent :
    (k : ℕ) (rows : List InstanceRecord)
    → count (λ r. r.id == k) rows ≡ 0
    → All (λ r. ¬ r.id ≡ k) rows
absent k [] h = tt
absent k (r ∷ rows) h = (ground (arith, nat_beq_iff r.id k), absent k rows (ground arith))

found_counts :
    (p : InstanceRecord → Bool) (rows : List InstanceRecord) (old : InstanceRecord)
    → first p rows ≡ some old
    → 1 ≤ count (λ r. r.id == old.id) rows
unfolding first
found_counts p [] old found = cc
found_counts p (r ∷ rows) old found = elim (Bool-cases (p r)) [
  | inl hit ↦
      let same : r ≡ old = ground arith in
      rw ((nat_beq_iff r.id old.id).1 (ap (λ x. x.id) same)) (omega arith)
  | inr miss ↦ ground (arith, found_counts p rows old (ground arith))
]

-- The row that a query finds is the only one with its key.
first_unique :
    (p : InstanceRecord → Bool) (rows : List InstanceRecord) (old : InstanceRecord)
    → first p rows ≡ some old
    → count (λ r. r.id == old.id) rows ≤ 1
    → All (λ r. r.id ≡ old.id → r ≡ old) rows
unfolding first
first_unique p [] old found one = tt
first_unique p (r ∷ rows) old found one = elim (Bool-cases (p r)) [
  | inl hit ↦
      let same : r ≡ old = ground arith in
      let none_left : count (λ x. x.id == old.id) rows ≡ 0 =
        ground (arith, same, nat_beq_iff old.id old.id, nat_beq_iff r.id old.id) in
      (λ _. same, All-map rows (λ x other e. absurd (other e)) (absent old.id rows none_left))
  | inr miss ↦
      let later : first p rows ≡ some old = ground arith in
      let fewer : count (λ x. x.id == old.id) rows ≤ 1 = ground arith in
      (
        λ e. ground (arith, found_counts p rows old later, nat_beq_iff r.id old.id),
        first_unique p rows old later fewer,
      )
]

-- What the query for the active instance returns: a row of the user and the challenge.
first-holds :
    (p : InstanceRecord → Bool) (rows : List InstanceRecord) (old : InstanceRecord)
    → first p rows ≡ some old
    → p old ≡ true
unfolding first
first-holds p [] old found = cc
first-holds p (r ∷ rows) old found = elim (Bool-cases (p r)) [
  | inl hit ↦ let same : r ≡ old = ground arith in rw (← same) hit
  | inr miss ↦ first-holds p rows old (ground arith)
]

-- The row that `select_active` finds, and that no other row has its key.
pub record Selected (user : ℕ) (c : Text) (db : Db) (old : InstanceRecord) : Type 0 where
  pub of : is_of user c old ≡ true
  pub active : is_active old ≡ true
  pub alone : All (λ r. r.id ≡ old.id → r ≡ old) db.instances

pub select_active-Selected :
    (user : ℕ) (c : Text) (db : Db) (old : InstanceRecord)
    → Keyed db
    → select_active user c db ≡ ok old
    → Selected user c db old
unfolding select_active
select_active-Selected user c db old keyed h =
    elim (Option-cases (first (λ r. is_of user c r && is_active r) db.instances)) [
      | inl nothing ↦ ground arith
      | inr (r, e) ↦
          let same : r ≡ old = ground arith in
          let at : first (λ r. is_of user c r && is_active r) db.instances ≡ some old =
            rw e (ap some same) in
          let both = first-holds (λ r. is_of user c r && is_active r) db.instances old at in
          record {
            of = ground arith;
            active = ground arith;
            alone = first_unique _ db.instances old at (keyed.single old.id);
          }
    ]

-- No row of the challenge is renewed more often than `limit`.
abbrev pub Within : Text → ℕ → InstanceRecord → Type 0
Within c limit r = r.inst.challenge_id ≡ c → r.inst.renew_count ≤ limit

module _ (o : Outside) (cfg : ServiceConfig) where
  abbrev Sound : Text → ℕ → Db → Type 0
  Sound c limit db =
      Keyed db
      × Configured o cfg c (λ conf. conf.max_renew_count ≡ pos limit) db
      × All (Within c limit) db.instances

  renewed_row-Within :
      (c : Text) (limit user : ℕ) (ref : Text) (found : RuntimeConfigRecord) (old : InstanceRecord)
      (db : Db)
      → Sound c limit db
      → Loaded o cfg ref db found
      → select_active user found.challenge.id db ≡ ok old
      → leb_ℤ found.challenge.max_renew_count (pos old.inst.renew_count) ≡ false
      → old.inst.challenge_id ≡ c
      → suc old.inst.renew_count ≤ limit
  unfolding is_of
  renewed_row-Within c limit user ref found old db (keyed, conf, within) loaded at below mine =
      let chosen = (select_active-Selected user found.challenge.id db old keyed at).of in
      let same : found.challenge.id ≡ c =
        ground (arith, text_beq_iff old.inst.challenge_id found.challenge.id) in
      let max : found.challenge.max_renew_count ≡ pos limit =
        select_config-All (λ f. f.challenge.id ≡ c → f.challenge.max_renew_count ≡ pos limit) ref db
          found conf loaded.0 same in
      ground arith

  Step-Within :
      (c : Text) (limit : ℕ) (db db' : Db)
      → Step o cfg db db'
      → Sound c limit db
      → All (Within c limit) db'.instances
  unfolding new_instance
  Step-Within c limit db db' (Step.insert user ref found started now saved l h f e)
        (keyed, conf, within) =
      rw ((insert_instance-Inserted found.id _ db db' saved e).rows) (λ _. omega arith, within)
  Step-Within c limit db db' (Step.renew user ref found old updated now l at below e)
        (keyed, conf, within) =
      let chosen = select_active-Selected user found.challenge.id db old keyed at in
      rw (update_renewed_tables old.id _ db db' updated e) (
        update_row-All (Within c limit) old.id is_active _ db.instances
          (All-map db.instances
            (λ r same id _ mine.
              let it : r ≡ old = same id in
              rw it (
                renewed_row-Within c limit user ref found old db (keyed, conf, within) l at below
                  (ap (λ x. x.inst.challenge_id) (sym it) ∙ mine)))
            chosen.alone)
          within)
  Step-Within c limit db db' (Step.terminate key at e) (keyed, conf, within) =
      rw (update_terminated_tables key at db db' e) (
        update_row-All (Within c limit) key (λ _. true) _ db.instances
          (All-map db.instances (λ r h _ _. h) within) within)

  -- Take a challenge whose configuration allows `limit` renewals. Where the keys of the instances
  -- differ and no instance of the challenge was renewed more often, none is after any calls of the
  -- service by any users and of the background loop, in any order.
  pub run_renewals :
      (c : Text) (limit : ℕ) (cs : List (Call o cfg)) (w : World o)
      → Keyed w.db
      → Configured o cfg c (λ conf. conf.max_renew_count ≡ pos limit) w.db
      → All (Within c limit) w.db.instances
      → All (Within c limit) (run o cfg cs w).db.instances
  run_renewals c limit cs w keyed conf within =
      (run_invariant o cfg (Sound c limit)
        (λ db db' s (keyed, conf, within). (
          Step-Keyed o cfg db db' s keyed,
          subst
              (λ chs.
                All
                  (λ ch.
                    (to_config ch).challenge.id ≡ c
                    → (to_config ch).challenge.max_renew_count ≡ pos limit)
                  chs)
              (sym (Step-challenges o cfg db db' s)) conf,
          Step-Within c limit db db' s (keyed, conf, within),
        ))
        cs w (keyed, conf, within)).2
