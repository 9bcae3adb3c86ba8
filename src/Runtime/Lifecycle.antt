-- ===== src/Runtime/Lifecycle.antt =====
-- backend/internal/runtime/service.go: what RenewInstance, DeleteInstance and GetInstance do to the
-- tables, on all their branches.
use ctf_recruit.Base.{
  ℕ, Text, false, ◌≡◌, refl, sym, subst, ◌∙◌, inl, inr, arith, ℤ, pos, leb_ℤ, Result, ok, err, ◌⊎◌,
  Result-cases, pair_eq,
}
use ctf_recruit.Base.Exec.{◌>>=◌, map_error, pure}
use ctf_recruit.Runtime.{
  Error, store_error, instance_not_found, renew_limit_reached, Instance, RuntimeConfigRecord,
  InstanceRecord, ServiceConfig,
}
use ctf_recruit.Runtime.World.{Outside, World, Db, exec, manager_stop}
use ctf_recruit.Runtime.Repository.{
  get_active_instance, select_active, renew_row, update_renewed, terminate_row, update_terminated,
  terminated,
}
use ctf_recruit.Runtime.Service.{
  with_url, extended, active_or_missing, not_found_as, get_instance, renew_instance,
  delete_instance,
}
use ctf_recruit.Runtime.Rules.{
  reads_elim, exec_cases, Reads, Reads-pure, Reads-bind, Reads-map_error, Reads-query,
  Reads-reject_if, Told, read_clock-Told, manager_stop-Reads,
}
use ctf_recruit.Runtime.Checks.{Loaded, load_dynamic-Reads, load_runnable-Reads}

update_renewed_failed :
    (key : ℕ) (expires : ℤ) (db : Db) {e : Error}
    → (update_renewed key expires db).0 ≡ err e
    → (update_renewed key expires db).1 ≡ db
unfolding update_renewed
update_renewed_failed key expires db h = ground arith

pub update_terminated_failed :
    (key : ℕ) (at : ℤ) (db : Db) {e : Error}
    → (update_terminated key at db).0 ≡ err e
    → (update_terminated key at db).1 ≡ db
unfolding update_terminated
update_terminated_failed key at db h = ground arith

module _ (o : Outside) where
  -- A statement that leaves the tables alone when it fails: it fails so, or it is carried out.
  pub exec_outcome :
      {A : Type 0} (f : Db → Result Error A × Db)
      → ((db : Db) (e : Error) → (f db).0 ≡ err e → (f db).1 ≡ db)
      → (db : Db) (w : World o) → w.db ≡ db
      → ((e : Error) × ((exec o f w).0 ≡ err e) × ((exec o f w).1.db ≡ db))
        ⊎ ((a : A) × ((exec o f w).0 ≡ ok a) × (f db ≡ (ok a, (exec o f w).1.db)))
  exec_outcome f safe db w s = elim (exec_cases o f w) [
    | inl (fault, same) ↦ inl (store_error, fault, same ∙ s)
    | inr (reply, written) ↦ elim (Result-cases (f w.db).0) [
      | inl (a, done) ↦ inr (
        a,
        reply ∙ done,
        subst (λ d. f d ≡ (ok a, (exec o f w).1.db)) s (pair_eq done (sym written)),
      )
      | inr (e, failed) ↦ inl (e, reply ∙ failed, written ∙ safe w.db e failed ∙ s)
    ]
  ]

module _ (o : Outside) (cfg : ServiceConfig) where
  active_or_missing-Reads :
      (user : ℕ) (challenge : Text) (db : Db)
      → Reads db
          (λ r. select_active user challenge db ≡ ok r)
          (active_or_missing o cfg user challenge)
  unfolding get_active_instance
  active_or_missing-Reads user challenge db =
      Reads-map_error _ (Reads-query (select_active user challenge))

  -- `GetInstance` writes nothing, and returns the user's active instance of the challenge.
  pub get_instance-Reads :
      (user : ℕ) (ref : Text) (db : Db)
      → Reads db
          (λ i.
            (found : RuntimeConfigRecord) × (r : InstanceRecord) × Loaded o cfg ref db found
            × (select_active user found.challenge.id db ≡ ok r)
            × (i ≡ with_url o cfg found.challenge r.inst))
          (get_instance o cfg user ref)
  unfolding get_instance
  get_instance-Reads user ref db = Reads-bind (load_dynamic-Reads o cfg ref db) λ found loaded.
      Reads-bind (active_or_missing-Reads user found.challenge.id db)
        λ r at. Reads-pure _ (found, r, loaded, at, refl)

  -- The specification of `RenewInstance`: nothing is written and the reply is an error, or the
  -- user's active row, renewed fewer times than the limit, is renewed once more and shown.
  pub data Renewed (user : ℕ) (ref : Text) (db : Db) (r : Result Error Instance) (db' : Db)
      : Type 0 where
    unchanged : db' ≡ db → (e : Error) → r ≡ err e → Renewed user ref db r db'
    renewed :
        (found : RuntimeConfigRecord) (old updated : InstanceRecord) (now : ℤ)
        → Told o now
        → Loaded o cfg ref db found
        → select_active user found.challenge.id db ≡ ok old
        → leb_ℤ found.challenge.max_renew_count (pos old.inst.renew_count) ≡ false
        → update_renewed old.id (extended o cfg old.inst now found.challenge.ttl) db
          ≡ (ok updated, db')
        → r ≡ ok (with_url o cfg found.challenge updated.inst)
        → Renewed user ref db r db'

  write-Renewed :
      (user : ℕ) (ref : Text) (found : RuntimeConfigRecord) (old : InstanceRecord) (now : ℤ)
      (db : Db) (w : World o)
      → w.db ≡ db
      → Told o now
      → Loaded o cfg ref db found
      → select_active user found.challenge.id db ≡ ok old
      → leb_ℤ found.challenge.max_renew_count (pos old.inst.renew_count) ≡ false
      → let m =
          map_error
            (not_found_as instance_not_found)
            (renew_row o old.id (extended o cfg old.inst now found.challenge.ttl))
          >>= λ updated. pure (with_url o cfg found.challenge updated.inst) in
        Renewed user ref db (m w).0 (m w).1.db
  unfolding renew_row
  write-Renewed user ref found old now db w s told loaded at below =
      let expires = extended o cfg old.inst now found.challenge.ttl in
      elim (exec_outcome o (update_renewed old.id expires)
        (λ d e. update_renewed_failed old.id expires d) db w s) [
          | inl (e, failed, same) ↦ rw failed (unchanged same _ refl)
          | inr (updated, done, written) ↦
              rw done (renewed found old updated now told loaded at below written refl)
        ]

  -- `RenewInstance`, whatever fails, either leaves the tables as they were and returns an error, or
  -- renews the user's active row, which was renewed fewer times than the limit, once more, to the
  -- later of its old end and now plus the lifetime, and shows the row.
  pub renew_instance-Renewed :
      (user : ℕ) (ref : Text) (w : World o)
      → Renewed user ref w.db
          (renew_instance o cfg user ref w).0
          (renew_instance o cfg user ref w).1.db
  unfolding renew_instance
  renew_instance-Renewed user ref w =
      let G : Result Error Instance × World o → Type 0 = λ x. Renewed user ref w.db x.0 x.1.db in
      let failed : (e : Error) (w' : World o) → w'.db ≡ w.db → G (err e, w') =
        λ e w' s. unchanged s e refl in
      reads_elim G _ w refl (load_runnable-Reads o cfg ref w.db) failed λ found loaded w₁ s₁.
        reads_elim G _ w₁ s₁ (active_or_missing-Reads user found.challenge.id w.db) failed
          λ old at w₂ s₂.
            reads_elim G _ w₂ s₂ (Reads-reject_if _ renew_limit_reached) failed λ _ below w₃ s₃.
              reads_elim G _ w₃ s₃ read_clock-Told failed λ now told w₄ s₄.
                write-Renewed user ref found old now w.db w₄ s₄ told loaded at below

  -- The specification of `DeleteInstance`: nothing is written and the reply is an error, or the
  -- user's active row is terminated and shown, after its container was stopped.
  pub data Deleted (user : ℕ) (ref : Text) (db : Db) (r : Result Error Instance) (db' : Db)
      : Type 0 where
    unchanged : db' ≡ db → (e : Error) → r ≡ err e → Deleted user ref db r db'
    deleted :
        (found : RuntimeConfigRecord) (old : InstanceRecord) (now : ℤ) (stopped : World o)
        → Told o now
        → Loaded o cfg ref db found
        → select_active user found.challenge.id db ≡ ok old
        → (manager_stop o old.inst.container_id stopped).0 ≡ ok tt
        → update_terminated old.id now db ≡ (ok tt, db')
        → r ≡ ok (with_url o cfg found.challenge (terminated now old.inst))
        → Deleted user ref db r db'

  -- `DeleteInstance`, whatever fails, either leaves the tables as they were and returns an error, or
  -- ends the user's active row after its container was stopped, and shows it as ended.
  pub delete_instance-Deleted :
      (user : ℕ) (ref : Text) (w : World o)
      → Deleted user ref w.db
          (delete_instance o cfg user ref w).0
          (delete_instance o cfg user ref w).1.db
  unfolding delete_instance terminate_row
  delete_instance-Deleted user ref w =
      let G : Result Error Instance × World o → Type 0 = λ x. Deleted user ref w.db x.0 x.1.db in
      let failed : (e : Error) (w' : World o) → w'.db ≡ w.db → G (err e, w') =
        λ e w' s. unchanged s e refl in
      reads_elim G _ w refl (load_dynamic-Reads o cfg ref w.db) failed λ found loaded w₁ s₁.
        reads_elim G _ w₁ s₁ (active_or_missing-Reads user found.challenge.id w.db) failed
          λ old at w₂ s₂.
            reads_elim G _ w₂ s₂ (manager_stop-Reads old.inst.container_id) failed
              λ _ (stopped, run) w₃ s₃.
                reads_elim G _ w₃ s₃ read_clock-Told failed λ now told w₄ s₄.
                  elim (exec_outcome o (update_terminated old.id now)
                    (λ d e. update_terminated_failed old.id now d) w.db w₄ s₄) [
                      | inl (e, broken, same) ↦ rw broken (unchanged same e refl)
                      | inr (_, done, written) ↦
                          rw done (deleted found old now stopped told loaded at run written refl)
                    ]
