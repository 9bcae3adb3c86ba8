-- ===== src/Runtime/Rules.antt =====
-- Rules for reasoning about the calls of the service: one for each way to combine calls, and which
-- calls leave the tables alone.
use ctf_recruit.Base.{
  ℤ, Text, Bool, true, false, ◌≡◌, refl, ◌∙◌, subst, Result, ok, err, Result-cases, Bool-cases, inl,
  inr, ◌⊎◌,
}
use ctf_recruit.Base.Exec.{Exec, ◌>>=◌, attempt, map_error, pure, throw, reject_if}
use ctf_recruit.Runtime.{Error, store_error, StartRequest}
use ctf_recruit.Runtime.World.{
  Outside, World, M, Db, read_clock, manager_start, manager_stop, manager_exists, manager_list,
  exec, query,
}

module _ {W E A B : Type 0} where
  -- To prove `G` of `m >>= f`: prove it of what follows a value, and of the error passed on.
  pub bind_elim :
      (G : Result E B × W → Type 0) (m : Exec W E A) (f : A → Exec W E B) (w : W)
      → ((a : A) → (m w).0 ≡ ok a → G (f a (m w).1))
      → ((e : E) → (m w).0 ≡ err e → G (err e, (m w).1))
      → G ((m >>= f) w)
  bind_elim G m f w on_ok on_err = elim (Result-cases (m w).0) [
    | inl (a, h) ↦ rw h (on_ok a h)
    | inr (e, h) ↦ rw h (on_err e h)
  ]

module _ {W E A : Type 0} where
  pub map_error_elim :
      (G : Result E A × W → Type 0) (g : E → E) (m : Exec W E A) (w : W)
      → ((a : A) → (m w).0 ≡ ok a → G (ok a, (m w).1))
      → ((e : E) → (m w).0 ≡ err e → G (err (g e), (m w).1))
      → G (map_error g m w)
  map_error_elim G g m w on_ok on_err = elim (Result-cases (m w).0) [
    | inl (a, h) ↦ rw h (on_ok a h)
    | inr (e, h) ↦ rw h (on_err e h)
  ]

pub ok_injective {ℓ κ} :
    {E : Type κ} {A : Type ℓ} {a b : A} → ◌≡◌ {A = Result E A} (ok a) (ok b) → a ≡ b
ok_injective e = cc

-- An instant that the clock has told.
abbrev pub Told : Outside → ℤ → Type 0
Told o now = (s : o.State) × ((o.now s).0 ≡ now)

-- A call that leaves the tables alone.
abbrev pub IsQuiet : {o : Outside} {A : Type 0} → M o A → Type 0
IsQuiet {o} m = (w : World o) → (m w).1.db ≡ w.db

module _ (o : Outside) where
  pub read_clock-IsQuiet : (w : World o) → (read_clock o w).1.db ≡ w.db
  unfolding read_clock
  read_clock-IsQuiet w = refl

  pub manager_start-IsQuiet :
      (req : StartRequest) (w : World o) → (manager_start o req w).1.db ≡ w.db
  unfolding manager_start
  manager_start-IsQuiet req w = refl

  pub manager_stop-IsQuiet : (id : Text) (w : World o) → (manager_stop o id w).1.db ≡ w.db
  unfolding manager_stop
  manager_stop-IsQuiet id w = refl

  pub manager_exists-IsQuiet : (id : Text) (w : World o) → (manager_exists o id w).1.db ≡ w.db
  unfolding manager_exists
  manager_exists-IsQuiet id w = refl

  pub manager_list-IsQuiet : (w : World o) → (manager_list o w).1.db ≡ w.db
  unfolding manager_list
  manager_list-IsQuiet w = refl

  -- A statement either fails with the tables as they were, or has its effect.
  pub exec_cases :
      {A : Type 0} (f : Db → Result Error A × Db) (w : World o)
      → (((exec o f w).0 ≡ err store_error) × ((exec o f w).1.db ≡ w.db))
        ⊎ (((exec o f w).0 ≡ (f w.db).0) × ((exec o f w).1.db ≡ (f w.db).1))
  unfolding exec
  exec_cases f w = elim (Bool-cases (o.db_fault w.out).0) [
    | inl fault ↦ inl (rw fault refl, rw fault refl)
    | inr fine ↦ inr (rw fine refl, rw fine refl)
  ]

  pub query-IsQuiet :
      {A : Type 0} (f : Db → Result Error A) (w : World o) → (query o f w).1.db ≡ w.db
  unfolding query
  query-IsQuiet f w = elim (exec_cases (λ db. (f db, db)) w) [ inl h ↦ h.1 | inr h ↦ h.1 ]

  pub query_cases :
      {A : Type 0} (f : Db → Result Error A) (w : World o)
      → ((query o f w).0 ≡ err store_error) ⊎ ((query o f w).0 ≡ f w.db)
  unfolding query
  query_cases f w = elim (exec_cases (λ db. (f db, db)) w) [ inl h ↦ inl h.0 | inr h ↦ inr h.0 ]

  -- What a query returns is what the tables hold.
  pub query-eq-ok :
      {A : Type 0} (f : Db → Result Error A) (w : World o) {a : A}
      → (query o f w).0 ≡ ok a
      → f w.db ≡ ok a
  query-eq-ok f w h = elim (query_cases f w) [ inl fault ↦ cc | inr fine ↦ cc ]

-- A call that only reads: from the tables `db` on it leaves them so, and its value has the property.
pub record Reads {o : Outside} {A : Type 0} (db : Db) (P : A → Type 0) (m : M o A) : Type 0 where
  pub same : (w : World o) → w.db ≡ db → (m w).1.db ≡ db
  pub value : (w : World o) → w.db ≡ db → (a : A) → (m w).0 ≡ ok a → P a

module _ {o : Outside} {db : Db} where
  pub Reads-pure : {A : Type 0} {P : A → Type 0} (a : A) → P a → Reads {o = o} db P (pure a)
  Reads-pure {P} a p = record { same = λ w s. s; value = λ w s b e. subst P (ok_injective e) p }

  pub Reads-throw : {A : Type 0} {P : A → Type 0} (e : Error) → Reads {o = o} db P (throw e)
  Reads-throw e = record { same = λ w s. s; value = λ w s b e. cc }

  pub Reads-mono :
      {A : Type 0} {P Q : A → Type 0} {m : M o A}
      → ((a : A) → P a → Q a)
      → Reads db P m
      → Reads db Q m
  Reads-mono f r = record { same = r.same; value = λ w s a h. f a (r.value w s a h) }

  pub Reads-bind :
      {A B : Type 0} {P : A → Type 0} {Q : B → Type 0} {m : M o A} {f : A → M o B}
      → Reads db P m
      → ((a : A) → P a → Reads db Q (f a))
      → Reads db Q (m >>= f)
  Reads-bind {Q} {m} {f} r k = record {
    same = λ w s.
        bind_elim (λ x. x.1.db ≡ db) m f w
          (λ a h. (k a (r.value w s a h)).same (m w).1 (r.same w s)) (λ e h. r.same w s);
    value = λ w s.
        bind_elim (λ x. (b : _) → x.0 ≡ ok b → Q b) m f w
          (λ a h. (k a (r.value w s a h)).value (m w).1 (r.same w s)) (λ e h b h'. cc);
  }

  pub Reads-map_error :
      {A : Type 0} {P : A → Type 0} (g : Error → Error) {m : M o A}
      → Reads db P m
      → Reads db P (map_error g m)
  Reads-map_error {P} g {m} r = record {
    same = λ w s. map_error_elim (λ x. x.1.db ≡ db) g m w (λ a h. r.same w s) (λ e h. r.same w s);
    value = λ w s.
        map_error_elim (λ x. (b : _) → x.0 ≡ ok b → P b) g m w
          (λ a h b h'. subst P (ok_injective h') (r.value w s a h)) (λ e h b h'. cc);
  }

  pub Reads-attempt :
      {A : Type 0} {P : A → Type 0} {m : M o A}
      → Reads db P m
      → Reads db (λ (r : Result Error A). (a : A) → r ≡ ok a → P a) (attempt m)
  Reads-attempt r = record {
    same = r.same;
    value = λ w s b e a h. r.value w s a (ok_injective e ∙ h);
  }

  pub Reads-reject_if :
      (test : Bool) (e : Error) → Reads {o = o} db (λ _. test ≡ false) (reject_if test e)
  Reads-reject_if true e = Reads-throw e
  Reads-reject_if false e = Reads-pure tt refl

  pub Reads-query :
      {A : Type 0} (f : Db → Result Error A) → Reads {o = o} db (λ a. f db ≡ ok a) (query o f)
  Reads-query f = record {
    same = λ w s. query-IsQuiet o f w ∙ s;
    value = λ w s a h. rw (← s) (query-eq-ok o f w h);
  }

  pub read_clock-Reads : Reads {o = o} db (λ now. Unit {0}) (read_clock o)
  read_clock-Reads = record { same = λ w s. read_clock-IsQuiet o w ∙ s; value = λ w s a h. tt }

  pub read_clock-Told : Reads db (Told o) (read_clock o)
  unfolding read_clock
  read_clock-Told = record { same = λ w s. s; value = λ w s b e. (w.out, ok_injective e) }

  pub manager_start-Reads :
      (req : StartRequest)
      → Reads {o = o} db
          (λ st. (w : World o) × ((manager_start o req w).0 ≡ ok st))
          (manager_start o req)
  manager_start-Reads req = record {
    same = λ w s. manager_start-IsQuiet o req w ∙ s;
    value = λ w s a h. (w, h);
  }

  pub manager_stop-Reads :
      (id : Text)
      → Reads {o = o} db
          (λ _. (w : World o) × ((manager_stop o id w).0 ≡ ok tt))
          (manager_stop o id)
  manager_stop-Reads id = record {
    same = λ w s. manager_stop-IsQuiet o id w ∙ s;
    value = λ w s a h. (w, h);
  }

  -- To prove `G` of a call that begins by reading: prove it of what follows, from the same tables,
  -- and of every error.
  pub reads_elim :
      {A B : Type 0} {P : A → Type 0} {m : M o A} (G : Result Error B × World o → Type 0)
      (f : A → M o B) (w : World o)
      → w.db ≡ db
      → Reads db P m
      → ((e : Error) (w' : World o) → w'.db ≡ db → G (err e, w'))
      → ((a : A) → P a → (w' : World o) → w'.db ≡ db → G (f a w'))
      → G ((m >>= f) w)
  reads_elim {m} G f w s r failed next =
      bind_elim G m f w (λ a h. next a (r.value w s a h) (m w).1 (r.same w s))
        (λ e h. failed e (m w).1 (r.same w s))
