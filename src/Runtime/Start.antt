-- ===== src/Runtime/Start.antt =====
-- backend/internal/runtime/service.go: what StartInstance does to the tables, as one statement about
-- all its branches.
use ctf_recruit.Base.{
  ℕ, Text, Bool, true, false, ◌≡◌, refl, sym, subst, ◌∙◌, inl, inr, arith, ℤ, Result, ok, err,
  pair_eq, Result-cases,
}
use ctf_recruit.Base.Exec.{◌>>=◌, attempt}
use ctf_recruit.Runtime.{
  Error, store_error, repository_not_found, Instance, RuntimeConfigRecord, InstanceRecord,
  ServiceConfig, StartedContainer,
}
use ctf_recruit.Runtime.World.{Outside, World, M, Db, read_clock}
use ctf_recruit.Runtime.Repository.{
  get_active_instance, create_instance, insert_instance, select_active,
}
use ctf_recruit.Runtime.Service.{
  load_runnable, check_capacity, check_cooldown, start_container, new_instance, with_url,
  on_created, on_lookup, launch, on_existing, start_instance,
}
use ctf_recruit.Runtime.Rules.{
  bind_elim, exec_cases, Reads, Reads-pure, Reads-throw, Reads-bind, Reads-attempt, Reads-query,
  Told, read_clock-Told, manager_stop-Reads,
}
use ctf_recruit.Runtime.Checks.{
  Loaded, HasRoom, FreePort, load_runnable-Reads, check_capacity-Reads, check_cooldown-Reads,
  start_container-Reads,
}

-- A failed insertion leaves the tables as they were.
insert_instance_failed :
    (key : ℕ) (i : Instance) (db : Db) {e : Error}
    → (insert_instance key i db).0 ≡ err e
    → (insert_instance key i db).1 ≡ db
unfolding insert_instance
insert_instance_failed key i db h = ground arith

module _ (o : Outside) (cfg : ServiceConfig) where
  -- A reply that shows the user's active instance, and says that it was there before.
  abbrev pub Shown : ℕ → Text → Db → Instance × Bool → Type 0
  Shown user ref db x =
      (x.1 ≡ false)
      × (found : RuntimeConfigRecord) × (r : InstanceRecord) × Loaded o cfg ref db found
      × (select_active user found.challenge.id db ≡ ok r)
      × (x.0 ≡ with_url o cfg found.challenge r.inst)

  -- The specification of `StartInstance`, from the tables `db` to the reply `r` and the tables `db'`:
  -- either nothing is written and a reply without an error shows the instance that was there
  -- before, or one row is inserted, for a dynamic challenge with room, on a free port, and the
  -- reply shows it.
  pub data Started (user : ℕ) (ref : Text) (db : Db) (r : Result Error (Instance × Bool)) (db' : Db)
      : Type 0 where
    unchanged :
        db' ≡ db
        → ((x : Instance × Bool) → r ≡ ok x → Shown user ref db x)
        → Started user ref db r db'
    created :
        (found : RuntimeConfigRecord) (started : StartedContainer) (now : ℤ)
        (saved : InstanceRecord)
        → Told o now
        → Loaded o cfg ref db found
        → HasRoom o cfg db found.challenge
        → FreePort o cfg user found.challenge db started
        → insert_instance found.id (new_instance o cfg user found.challenge started now) db
          ≡ (ok saved, db')
        → r ≡ ok (with_url o cfg found.challenge saved.inst, true)
        → Started user ref db r db'

  from_Reads :
      {user : ℕ} {ref : Text} {db : Db} (m : M o (Instance × Bool)) (w : World o)
      → w.db ≡ db
      → Reads db (Shown user ref db) m
      → Started user ref db (m w).0 (m w).1.db
  from_Reads m w s r = unchanged (r.same w s) (r.value w s)

  -- After a failed insertion the reply is an error or an instance that was there before.
  on_created_failed-Reads :
      (user : ℕ) (ref : Text) (found : RuntimeConfigRecord) (container : Text) (e : Error) (db : Db)
      → Loaded o cfg ref db found
      → Reads db (Shown user ref db) (on_created o cfg user found.challenge container (err e))
  unfolding get_active_instance
  on_created_failed-Reads user ref found container e db loaded =
      Reads-bind (Reads-attempt (manager_stop-Reads container)) λ _ _.
        Reads-bind (Reads-attempt (Reads-query (select_active user found.challenge.id)))
          λ r at. on_lookup-Reads r at
    where
      on_lookup-Reads :
          (r : Result Error InstanceRecord)
          → ((a : InstanceRecord) → r ≡ ok a → select_active user found.challenge.id db ≡ ok a)
          → Reads db (Shown user ref db) (on_lookup o cfg found.challenge e r)
      on_lookup-Reads (ok existing) at =
          Reads-pure _ (refl, found, existing, loaded, at existing refl, refl)
      on_lookup-Reads (err e') at = Reads-throw e

  -- The insertion, and what follows it.
  save-Started :
      (user : ℕ) (ref : Text) (found : RuntimeConfigRecord) (started : StartedContainer) (now : ℤ)
      (db : Db) (w : World o)
      → w.db ≡ db
      → Told o now
      → Loaded o cfg ref db found
      → HasRoom o cfg db found.challenge
      → FreePort o cfg user found.challenge db started
      → let i = new_instance o cfg user found.challenge started now in
        let m =
          attempt (create_instance o found.id i)
          >>= on_created o cfg user found.challenge started.container_id in
        Started user ref db (m w).0 (m w).1.db
  unfolding create_instance
  save-Started user ref found started now db w s told loaded room free =
      let i : Instance = new_instance o cfg user found.challenge started now in
      let after = (create_instance o found.id i w).1 in
      let failed =
        λ (e : Error). on_created_failed-Reads user ref found started.container_id e db loaded in
      elim (exec_cases o (insert_instance found.id i) w) [
        | inl (fault, same) ↦ rw fault (from_Reads _ after (same ∙ s) (failed store_error))
        | inr (reply, written) ↦ elim (Result-cases (insert_instance found.id i w.db).0) [
          | inl (saved, made) ↦ rw (reply ∙ made) (
              created found started now saved told loaded room free
                (subst (λ d. insert_instance found.id i d ≡ (ok saved, after.db)) s
                  (pair_eq made (sym written)))
                refl)
          | inr (e, refused) ↦ rw (reply ∙ refused) (
              from_Reads _ after (written ∙ insert_instance_failed found.id i w.db refused ∙ s)
                (failed e))
        ]
      ]

  launch-Started :
      (user : ℕ) (ref : Text) (found : RuntimeConfigRecord) (db : Db) (w : World o)
      → w.db ≡ db
      → Loaded o cfg ref db found
      → HasRoom o cfg db found.challenge
      → Started user ref db (launch o cfg user found w).0 (launch o cfg user found w).1.db
  unfolding launch
  launch-Started user ref found db w s loaded room =
      let G : Result Error (Instance × Bool) × World o → Type 0 =
        λ x. Started user ref db x.0 x.1.db in
      let run = start_container-Reads o cfg user found.challenge db in
      let clock : Reads db (Told o) (read_clock o) = read_clock-Told in
      bind_elim G (start_container o cfg user found.challenge) _ w
        (λ started h.
          let w₁ = (start_container o cfg user found.challenge w).1 in
          bind_elim G (read_clock o) _ w₁
            (λ now h'.
              save-Started user ref found started now db (read_clock o w₁).1
                (clock.same w₁ (run.same w s)) (clock.value w₁ (run.same w s) now h') loaded room
                (run.value w s started h))
            (λ e h'. unchanged (clock.same w₁ (run.same w s)) (λ x p. cc)))
        (λ e h. unchanged (run.same w s) (λ x p. cc))

  on_existing-Started :
      (user : ℕ) (ref : Text) (found : RuntimeConfigRecord) (db : Db) (w : World o)
      (r : Result Error InstanceRecord)
      → w.db ≡ db
      → Loaded o cfg ref db found
      → ((a : InstanceRecord) → r ≡ ok a → select_active user found.challenge.id db ≡ ok a)
      → Started user ref db
          (on_existing o cfg user found r w).0
          (on_existing o cfg user found r w).1.db
  on_existing-Started user ref found db w (ok existing) s loaded at =
      from_Reads (on_existing o cfg user found (ok existing)) w s
        (Reads-pure _ (refl, found, existing, loaded, at existing refl, refl))
  on_existing-Started user ref found db w (err repository_not_found) s loaded at =
      let G : Result Error (Instance × Bool) × World o → Type 0 =
        λ x. Started user ref db x.0 x.1.db in
      let capacity = check_capacity-Reads o cfg found.challenge db in
      let cooldown = check_cooldown-Reads o cfg user found.challenge db in
      let w₁ = (check_capacity o cfg found.challenge w).1 in
      bind_elim G (check_capacity o cfg found.challenge) _ w
        (λ a h.
          bind_elim G (check_cooldown o cfg user found.challenge) _ w₁
            (λ b h'.
              launch-Started user ref found db (check_cooldown o cfg user found.challenge w₁).1
                (cooldown.same w₁ (capacity.same w s)) loaded (capacity.value w s a h))
            (λ e h'. unchanged (cooldown.same w₁ (capacity.same w s)) (λ x p. cc)))
        (λ e h. unchanged (capacity.same w s) (λ x p. cc))
  on_existing-Started user ref found db w (err e) s loaded at = unchanged s (λ x p. cc)

  -- `StartInstance`, whatever fails, does one of two things to the tables. Either they are as they
  -- were, and a reply without an error shows the user's active instance and says that it was there
  -- before; or one row is inserted, for a dynamic challenge with room under its limit, with a
  -- container on a port of the range that no active row uses, and the reply shows this row as new.
  pub start_instance-Started :
      (user : ℕ) (ref : Text) (w : World o)
      → Started user ref w.db
          (start_instance o cfg user ref w).0
          (start_instance o cfg user ref w).1.db
  unfolding start_instance get_active_instance
  start_instance-Started user ref w =
      let G : Result Error (Instance × Bool) × World o → Type 0 =
        λ x. Started user ref w.db x.0 x.1.db in
      let load = load_runnable-Reads o cfg ref w.db in
      let w₁ = (load_runnable o cfg ref w).1 in
      bind_elim G (load_runnable o cfg ref) _ w
        (λ found h.
          let active = Reads-query {o = o} {db = w.db} (select_active user found.challenge.id) in
          on_existing-Started user ref found w.db
            (get_active_instance o user found.challenge.id w₁).1
            (get_active_instance o user found.challenge.id w₁).0 (active.same w₁ (load.same w refl))
            (load.value w refl found h) (active.value w₁ (load.same w refl)))
        (λ e h. unchanged (load.same w refl) (λ x p. cc))
