-- ===== src/Runtime/Limits.antt =====
-- backend/internal/runtime/service.go: the limits that hold at every moment, whatever the users call
-- in whatever order and whatever fails outside.
use ctf_recruit.Base.{
  ℕ, ◌≤◌, ◌<◌, Text, Bool, true, ◌≡◌, sym, ap, subst, List, [], ◌∷◌, arith, ℤ, pos, ◌<ℤ◌, ok, count,
  All, ◌&&◌, Bool-cases, inl, inr, ◌==◌, nat_eq, text_eq, text_beq_iff, nat_beq_iff, Option-cases,
  some, text_beq,
}
use ctf_recruit.Runtime.{
  InstanceRecord, RuntimeConfigRecord, ChallengeConfig, ServiceConfig, StartedContainer, is_active,
}
use ctf_recruit.Runtime.World.{Outside, World, Db}
use ctf_recruit.Runtime.Repository.{
  first, matches_ref, select_config, to_config, renewed, terminated, count_active, is_of,
}
use ctf_recruit.Runtime.Service.{new_instance}
use ctf_recruit.Runtime.Checks.{Loaded, HasRoom, FreePort}
use ctf_recruit.Runtime.History.{Step, Call, run, run_invariant}
use ctf_recruit.Runtime.Tables.{
  new_row, Inserted, insert_instance-Inserted, Keeps, count-update_renewed, count-update_terminated,
  update_renewed_tables, update_terminated_tables,
}

-- A configuration that is read belongs to one of the challenges.
first-All {ℓ κ} :
    {A : Type ℓ} (P : A → Type κ) (p : A → Bool) (xs : List A) {a : A}
    → All P xs
    → first p xs ≡ some a
    → P a
unfolding first
first-All P p [] all h = cc
first-All P p (x ∷ xs) all h = elim (Bool-cases (p x)) [
  | inl hit ↦ subst P (ground arith) all.0
  | inr miss ↦ first-All P p xs all.1 (ground arith)
]

pub select_config-All {κ} :
    (P : RuntimeConfigRecord → Type κ) (ref : Text) (db : Db) (found : RuntimeConfigRecord)
    → All (λ ch. P (to_config ch)) db.challenges
    → select_config ref db ≡ ok found
    → P found
unfolding select_config
select_config-All P ref db found all h =
    elim (Option-cases (first (matches_ref ref) db.challenges)) [
      | inl nothing ↦ ground arith
      | inr (ch, e) ↦
          subst P (ground arith)
            (first-All (λ ch. P (to_config ch)) (matches_ref ref) db.challenges all e)
    ]

module _ (o : Outside) (cfg : ServiceConfig) where
  -- What an insertion of the service says of the tables before and after it.
  pub record Insertion (db db' : Db) : Type 0 where
    pub user : ℕ
    pub ref : Text
    pub found : RuntimeConfigRecord
    pub started : StartedContainer
    pub now : ℤ
    pub saved : InstanceRecord
    pub loaded : Loaded o cfg ref db found
    pub room : HasRoom o cfg db found.challenge
    pub port : FreePort o cfg user found.challenge db started
    pub written :
        Inserted found.id (new_instance o cfg user found.challenge started now) saved db db'

  abbrev pub inserted_row : {db db' : Db} → Insertion db db' → InstanceRecord
  inserted_row {db} i =
      new_row i.found.id (new_instance o cfg i.user i.found.challenge i.started i.now) db

  -- A bound on the rows that pass a test: it is kept if every insertion of such a row finds fewer.
  pub Step-count :
      (p : InstanceRecord → Bool) (n : ℕ) (db db' : Db)
      → ((expires : ℤ) → Keeps p (renewed expires))
      → ((at : ℤ) → Keeps p (terminated at))
      → ((i : Insertion db db') → p (inserted_row i) ≡ true → count p db.instances < n)
      → Step o cfg db db'
      → count p db.instances ≤ n
      → count p db'.instances ≤ n
  Step-count p n db db' renews ends fits (Step.insert user ref found started now saved l h f e)
        bound =
      let i : Insertion db db' = record {
        user = user;
        ref = ref;
        found = found;
        started = started;
        now = now;
        saved = saved;
        loaded = l;
        room = h;
        port = f;
        written = insert_instance-Inserted found.id _ db db' saved e;
      } in
      elim (Bool-cases (p (inserted_row i))) [
        | inl counts ↦ rw (i.written.rows, counts) (fits i counts)
        | inr not ↦ rw (i.written.rows, not) bound
      ]
  Step-count p n db db' renews ends fits (Step.renew user ref found old updated now l a b e) bound =
      omega (arith, count-update_renewed p old.id _ db db' updated (renews _) e)
  Step-count p n db db' renews ends fits (Step.terminate key at e) bound =
      omega (arith, count-update_terminated p key at db db' (ends _) e)

  reduce : {n m : ℕ} → pos n <ℤ pos m → n < m
  reduce h = omega arith

  -- The challenges are never written here.
  pub Step-challenges : (db db' : Db) → Step o cfg db db' → db'.challenges ≡ db.challenges
  Step-challenges db db' (Step.insert user ref found started now saved l h f e) =
      (insert_instance-Inserted found.id _ db db' saved e).challenges
  Step-challenges db db' (Step.renew user ref found old updated now l a b e) =
      ap (λ d. d.challenges) (update_renewed_tables old.id _ db db' updated e)
  Step-challenges db db' (Step.terminate key at e) =
      ap (λ d. d.challenges) (update_terminated_tables key at db db' e)

  -- A test that asks for an active row is not met by a terminated one.
  pub Keeps-terminated :
      (q : InstanceRecord → Bool) (at : ℤ) → Keeps (λ r. q r && is_active r) (terminated at)
  unfolding is_active text_beq
  Keeps-terminated q at r h = ground arith

  -- Every configuration of the challenge with the id `c` satisfies `P`.
  abbrev pub Configured : Text → (ChallengeConfig → Type 0) → Db → Type 0
  Configured c P db =
      All (λ ch. (to_config ch).challenge.id ≡ c → P (to_config ch).challenge) db.challenges

  -- Take a challenge that has a positive limit of active instances in its configuration. If it has
  -- no more active instances than that, this stays so after any calls of the service by any users
  -- and of the background loop, in any order, whatever the database and the daemon answer.
  pub run_capacity :
      (c : Text) (limit : ℕ) (cs : List (Call o cfg)) (w : World o)
      → 0 < limit
      → Configured c (λ conf. conf.max_active_instances ≡ pos limit) w.db
      → count_active c w.db ≤ limit
      → count_active c (run o cfg cs w).db ≤ limit
  unfolding count_active new_instance is_active
  run_capacity c limit cs w some_room limited bound =
      (run_invariant o cfg
        (λ db.
          Configured c (λ conf. conf.max_active_instances ≡ pos limit) db
          × (count_active c db ≤ limit))
        (λ db db' s (limited, bound). (
          subst
              (λ chs.
                All
                  (λ ch.
                    (to_config ch).challenge.id ≡ c
                    → (to_config ch).challenge.max_active_instances ≡ pos limit)
                  chs)
              (sym (Step-challenges db db' s)) limited,
          Step-count (λ r. (r.inst.challenge_id == c) && is_active r) limit db db'
              (λ expires r h. h) (Keeps-terminated (λ r. r.inst.challenge_id == c))
              (λ i counts. below i limited counts) s bound,
        ))
        cs w (limited, bound)).1
    where
      below :
          {db db' : Db} (i : Insertion db db')
          → Configured c (λ conf. conf.max_active_instances ≡ pos limit) db
          → (inserted_row i).inst.challenge_id == c && is_active (inserted_row i) ≡ true
          → count (λ r. (r.inst.challenge_id == c) && is_active r) db.instances < limit
      below {db} i limited counts =
          let same : i.found.challenge.id ≡ c =
            ground (arith, text_beq_iff i.found.challenge.id c) in
          let at : i.found.challenge.max_active_instances ≡ pos limit =
            select_config-All
              (λ f. f.challenge.id ≡ c → f.challenge.max_active_instances ≡ pos limit) i.ref db
              i.found limited i.loaded.0 same in
          let room : pos (count_active i.found.challenge.id db)
              <ℤ i.found.challenge.max_active_instances =
            i.room (rw at (ground arith)) in
          subst (λ x. count_active x db < limit) same
            (reduce (subst (λ m. pos (count_active i.found.challenge.id db) <ℤ m) at room))

  -- A user never has two active instances of one challenge: if no user has, this stays so after any
  -- calls of the service by any users and of the background loop, in any order.
  pub run_unique :
      (user : ℕ) (c : Text) (cs : List (Call o cfg)) (w : World o)
      → count (λ r. is_of user c r && is_active r) w.db.instances ≤ 1
      → count (λ r. is_of user c r && is_active r) (run o cfg cs w).db.instances ≤ 1
  unfolding is_of new_instance is_active
  run_unique user c cs w =
      run_invariant o cfg (λ db. count (λ r. is_of user c r && is_active r) db.instances ≤ 1)
        (λ db db'.
          Step-count (λ r. is_of user c r && is_active r) 1 db db' (λ expires r h. h)
            (Keeps-terminated (is_of user c)) (λ i counts. alone i counts))
        cs w
    where
      alone :
          {db db' : Db} (i : Insertion db db')
          → is_of user c (inserted_row i) && is_active (inserted_row i) ≡ true
          → count (λ r. is_of user c r && is_active r) db.instances < 1
      alone {db} i counts =
          let nobody = i.written.alone (ground arith) in
          let same_user : i.user ≡ user = ground (arith, nat_beq_iff i.user user) in
          let same : i.found.challenge.id ≡ c =
            ground (arith, text_beq_iff i.found.challenge.id c) in
          rw (← same_user, ← same) (omega (arith, nobody))
