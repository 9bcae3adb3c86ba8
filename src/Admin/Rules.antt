-- ===== src/Admin/Rules.antt =====
-- Rules for reasoning about the calls of the administration.
use ctf_recruit.Base.{
  Bool, false, ◌≡◌, refl, ◌∙◌, sym, inl, inr, ◌⊎◌, none, List, [], ◌∷◌, ℤ, Result, ok, err,
  Result-cases, Bool-cases,
}
use ctf_recruit.Base.Exec.{Exec, ◌>>=◌}
use ctf_recruit.Runtime.Rules.{bind_elim}
use ctf_recruit.Admin.{Error, store_error}
use ctf_recruit.Admin.World.{Outside, World, M, Db, exec, query, finish, transaction, rolled_back}
use ctf_recruit.Admin.Store.{first}

module _ (o : Outside) where
  -- A statement fails with the tables as they were, or does what it says.
  pub exec_cases :
      {A : Type 0} (f : ℤ → Db → Result Error A × Db) (w : World o)
      → (((exec o f w).0 ≡ err store_error) × ((exec o f w).1.db ≡ w.db))
        ⊎ (((exec o f w).0 ≡ (f (o.db_now w.out) w.db).0)
            × ((exec o f w).1.db ≡ (f (o.db_now w.out) w.db).1))
  unfolding exec
  exec_cases f w = elim (Bool-cases (o.db_fault w.out).0) [
    | inl fault ↦ inl (rw fault refl, rw fault refl)
    | inr fine ↦ inr (rw fine refl, rw fine refl)
  ]

  pub query-db : {A : Type 0} (f : Db → Result Error A) (w : World o) → (query o f w).1.db ≡ w.db
  unfolding query
  query-db f w = elim (exec_cases (λ t db. (f db, db)) w) [ inl (_, s) ↦ s | inr (_, s) ↦ s ]

  -- What a query returns is what the tables hold.
  pub query-ok :
      {A : Type 0} (f : Db → Result Error A) (w : World o) (a : A)
      → (query o f w).0 ≡ ok a
      → f w.db ≡ ok a
  unfolding query
  query-ok f w a h = elim (exec_cases (λ t db. (f db, db)) w) [
    | inl (fault, _) ↦ absurd (cc)
    | inr (reply, _) ↦ sym reply ∙ h
  ]

  -- An error, and the tables as they were.
  abbrev pub IsRefusal : {A : Type 0} → Db → Result Error A × World o → Type 0
  IsRefusal db x = ((e : Error) × (x.0 ≡ err e)) × (x.1.db ≡ db)

  -- A refusal ends what would follow.
  pub bind-IsRefusal :
      {A B : Type 0} (db : Db) (m : M o A) (f : A → M o B) (w : World o)
      → IsRefusal db (m w)
      → IsRefusal db ((m >>= f) w)
  bind-IsRefusal db m f w ((e, failed), s) = rw failed ((e, refl), s)

  -- What follows a call that leaves the tables alone is refused, or the call itself is.
  pub then-IsRefusal :
      {A B : Type 0} (db : Db) (m : M o A) (f : A → M o B) (w : World o)
      → (m w).1.db ≡ db
      → ((a : A) → (m w).0 ≡ ok a → IsRefusal db (f a (m w).1))
      → IsRefusal db ((m >>= f) w)
  then-IsRefusal db m f w s next = bind_elim (IsRefusal db) m f w next (λ e h. ((e, refl), s))

  -- A query for what is not there.
  pub query-IsRefusal :
      {A : Type 0} (f : Db → Result Error A) (w : World o) (e : Error)
      → f w.db ≡ err e
      → IsRefusal w.db (query o f w)
  unfolding query
  query-IsRefusal f w e missing = elim (exec_cases (λ t db. (f db, db)) w) [
    | inl (fault, s) ↦ ((store_error, fault), s)
    | inr (reply, s) ↦ ((e, reply ∙ missing), s)
  ]

pub first-none :
    {A : Type 0} (p : A → Bool) (xs : List A) → ((x : A) → p x ≡ false) → first p xs ≡ none
unfolding first
first-none p [] h = refl
first-none p (x ∷ xs) h = rw (h x) (first-none p xs h)

module _ {W E A B : Type 0} where
  -- A chain that returns a value has passed through one of its first call.
  pub chain_inv :
      (m : Exec W E A) (f : A → Exec W E B) (w : W) (b : B)
      → ((m >>= f) w).0 ≡ ok b
      → (a : A) × ((m w).0 ≡ ok a) × ((m >>= f) w ≡ f a (m w).1)
  chain_inv m f w b h = elim (Result-cases (m w).0) [
    | inl (a, e) ↦ (a, e, rw e refl)
    | inr (x, e) ↦ absurd (failed x (rw e at h))
  ]
    where
      failed : (x : E) → ¬ ◌≡◌ {A = Result E B} (err x) (ok b)
      failed x h = cc

module _ (o : Outside) where
  -- A statement that returns a value has had its effect.
  pub exec-ok :
      {A : Type 0} (f : ℤ → Db → Result Error A × Db) (w : World o) (a : A)
      → (exec o f w).0 ≡ ok a
      → ((f (o.db_now w.out) w.db).0 ≡ ok a) × ((exec o f w).1.db ≡ (f (o.db_now w.out) w.db).1)
  exec-ok f w a h = elim (exec_cases o f w) [
    | inl (fault, _) ↦ absurd (cc)
    | inr (reply, done) ↦ (sym reply ∙ h, done)
  ]

  -- A transaction that returns a value was committed.
  pub transaction-ok :
      {A : Type 0} (body : ℤ → M o A) (w : World o) (a : A)
      → (transaction o body w).0 ≡ ok a
      → (w1 : World o) × (at : ℤ) × (w1.db ≡ w.db)
        × ((body at w1).0 ≡ ok a)
        × ((transaction o body w).1.db ≡ (body at w1).1.db)
  unfolding transaction finish
  transaction-ok {A} body w a h =
      let s = (o.db_fault w.out).1 in
      let w1 : World o = record w { out = s } in
      let at = o.db_now w.out in
      elim (Bool-cases (o.db_fault w.out).0) [
        | inl fault ↦ absurd (failed store_error (rw fault at h))
        | inr fine ↦ elim (Result-cases (body at w1).0) [
          | inr (x, e) ↦ absurd (failed x (rw (fine, e) at h))
          | inl (b, e) ↦ elim (Bool-cases (o.db_fault (body at w1).1.out).0) [
            | inl broken ↦ absurd (failed store_error (rw (fine, e, broken) at h))
            | inr committed ↦
                (w1, at, refl, e ∙ rw (fine, e, committed) at h, rw (fine, e, committed) refl)
          ]
        ]
      ]
    where
      failed : (x : Error) → ¬ ◌≡◌ {A = Result Error A} (err x) (ok a)
      failed x h = cc

  -- A transaction that returns an error restores the tables.
  pub transaction-err :
      {A : Type 0} (body : ℤ → M o A) (w : World o) (x : Error)
      → (transaction o body w).0 ≡ err x
      → (transaction o body w).1.db ≡ rolled_back w.db (transaction o body w).1.db
  unfolding transaction finish
  transaction-err {A} body w x h =
      let s = (o.db_fault w.out).1 in
      let w1 : World o = record w { out = s } in
      let at = o.db_now w.out in
      elim (Bool-cases (o.db_fault w.out).0) [
        | inl fault ↦ rw fault refl
        | inr fine ↦ elim (Result-cases (body at w1).0) [
          | inr (y, e) ↦ rw (fine, e) refl
          | inl (a, e) ↦ elim (Bool-cases (o.db_fault (body at w1).1.out).0) [
            | inl broken ↦ rw (fine, e, broken) refl
            | inr committed ↦ absurd (failed a (rw (fine, e, committed) at h))
          ]
        ]
      ]
    where
      failed : (a : A) → ¬ ◌≡◌ {A = Result Error A} (ok a) (err x)
      failed a h = cc
