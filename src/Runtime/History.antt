-- ===== src/Runtime/History.antt =====
-- backend/internal/runtime/service.go: every call of the service as a series of single writes, and
-- runs of calls by any users in any order.
use ctf_recruit.Base.{
  ℕ, suc, Text, Bool, true, false, ◌≡◌, refl, sym, subst, inl, inr, List, [], ◌∷◌, Option, none,
  some, ℤ, pos, leb_ℤ, Result, ok, err,
}
use ctf_recruit.Runtime.{
  Error, RuntimeConfigRecord, InstanceRecord, ServiceConfig, StartedContainer, ReconcileReport,
}
use ctf_recruit.Runtime.World.{
  Outside, World, Db, manager_exists, manager_stop, manager_list, read_clock, query,
}
use ctf_recruit.Runtime.Repository.{
  insert_instance, update_renewed, update_terminated, terminate_row, select_active, select_expired,
  select_all_active, list_expired_instances, list_active_instances,
}
use ctf_recruit.Runtime.Service.{
  new_instance, extended, start_instance, get_instance, renew_instance, delete_instance,
}
use ctf_recruit.Runtime.Background.{
  Managed, stop_and_terminate, sweep_items, sweep_expired, settle_row, on_exists, settle_rows,
  remove_containers, remove_rest, reconcile, go_on,
}
use ctf_recruit.Runtime.Rules.{
  bind_elim, reads_elim, Reads, read_clock-Reads, manager_stop-Reads, query-IsQuiet,
  manager_exists-IsQuiet, manager_stop-IsQuiet, manager_list-IsQuiet,
}
use ctf_recruit.Runtime.Checks.{Loaded, HasRoom, FreePort}
use ctf_recruit.Runtime.Start.{Started, start_instance-Started}
use ctf_recruit.Runtime.Lifecycle.{
  Renewed, renew_instance-Renewed, Deleted, delete_instance-Deleted, get_instance-Reads,
  exec_outcome, update_terminated_failed,
}

module _ (o : Outside) (cfg : ServiceConfig) where
  -- One write of the service, with what the code has checked before it.
  pub data Step (db db' : Db) : Type 0 where
    insert :
        (user : ℕ) (ref : Text) (found : RuntimeConfigRecord) (started : StartedContainer) (now : ℤ)
        (saved : InstanceRecord)
        → Loaded o cfg ref db found
        → HasRoom o cfg db found.challenge
        → FreePort o cfg user found.challenge db started
        → insert_instance found.id (new_instance o cfg user found.challenge started now) db
          ≡ (ok saved, db')
        → Step db db'
    renew :
        (user : ℕ) (ref : Text) (found : RuntimeConfigRecord) (old updated : InstanceRecord)
        (now : ℤ)
        → Loaded o cfg ref db found
        → select_active user found.challenge.id db ≡ ok old
        → leb_ℤ found.challenge.max_renew_count (pos old.inst.renew_count) ≡ false
        → update_renewed old.id (extended o cfg old.inst now found.challenge.ttl) db
          ≡ (ok updated, db')
        → Step db db'
    terminate : (key : ℕ) (at : ℤ) → update_terminated key at db ≡ (ok tt, db') → Step db db'

  pub data Steps (last : Db) : Db → Type 0 where
    done : {db : Db} → last ≡ db → Steps last db
    next : {db mid : Db} → Step db mid → Steps last mid → Steps last db

  Steps-append : {b c a : Db} → Steps b a → Steps c b → Steps c a
  Steps-append {c} (done e) t = subst (Steps c) e t
  Steps-append (next s r) t = next s (Steps-append r t)

  start_instance-Steps :
      (user : ℕ) (ref : Text) (w : World o) → Steps (start_instance o cfg user ref w).1.db w.db
  start_instance-Steps user ref w = go (start_instance-Started o cfg user ref w)
    where
      go :
          Started o cfg user ref w.db
            (start_instance o cfg user ref w).0
            (start_instance o cfg user ref w).1.db
          → Steps (start_instance o cfg user ref w).1.db w.db
      go (Started.unchanged e _) = done e
      go (Started.created found started now saved _ l h f e _) =
          next (insert user ref found started now saved l h f e) (done refl)

  renew_instance-Steps :
      (user : ℕ) (ref : Text) (w : World o) → Steps (renew_instance o cfg user ref w).1.db w.db
  renew_instance-Steps user ref w = go (renew_instance-Renewed o cfg user ref w)
    where
      go :
          Renewed o cfg user ref w.db
            (renew_instance o cfg user ref w).0
            (renew_instance o cfg user ref w).1.db
          → Steps (renew_instance o cfg user ref w).1.db w.db
      go (Renewed.unchanged e _ _) = done e
      go (Renewed.renewed found old updated now _ l a b e _) =
          next (renew user ref found old updated now l a b e) (done refl)

  delete_instance-Steps :
      (user : ℕ) (ref : Text) (w : World o) → Steps (delete_instance o cfg user ref w).1.db w.db
  delete_instance-Steps user ref w = go (delete_instance-Deleted o cfg user ref w)
    where
      go :
          Deleted o cfg user ref w.db
            (delete_instance o cfg user ref w).0
            (delete_instance o cfg user ref w).1.db
          → Steps (delete_instance o cfg user ref w).1.db w.db
      go (Deleted.unchanged e _ _) = done e
      go (Deleted.deleted found old now _ _ l a _ e _) = next (terminate old.id now e) (done refl)

  terminate_row-Steps :
      (key : ℕ) (at : ℤ) (w : World o) → Steps (terminate_row o key at w).1.db w.db
  unfolding terminate_row
  terminate_row-Steps key at w =
      elim (exec_outcome o (update_terminated key at) (λ d e. update_terminated_failed key at d)
        w.db w refl) [
          | inl (_, _, same) ↦ done same
          | inr (_, _, written) ↦ next (terminate key at written) (done refl)
        ]

  -- One round of the sweep: the row of the item is terminated, or nothing is written.
  stop_and_terminate-Steps :
      (item : InstanceRecord) (w : World o) → Steps (stop_and_terminate o item w).1.db w.db
  unfolding stop_and_terminate
  stop_and_terminate-Steps item w =
      reads_elim (λ x. Steps x.1.db w.db) _ w refl (manager_stop-Reads item.inst.container_id)
        (λ e w' s. done s)
        λ _ _ w₁ s₁.
          reads_elim (λ x. Steps x.1.db w.db) _ w₁ s₁ read_clock-Reads (λ e w' s. done s)
            λ now _ w₂ s₂. subst (Steps _) s₂ (terminate_row-Steps item.id now w₂)

  go_on-Steps :
      {A B : Type 0} {db : Db} (b : B) (r : Result Error A) (w : World o)
      (f : A → World o → (B × Option Error) × World o)
      → Steps w.db db
      → ((a : A) (w' : World o) → Steps (f a w').1.db w'.db)
      → Steps (go_on o b r w f).1.db db
  go_on-Steps b (ok a) w f s k = Steps-append s (k a w)
  go_on-Steps b (err e) w f s k = s

  sweep_items-Steps :
      (items : List InstanceRecord) (n : ℕ) (w : World o)
      → Steps (sweep_items o items n w).1.db w.db
  unfolding sweep_items
  sweep_items-Steps [] n w = done refl
  sweep_items-Steps (item ∷ items) n w =
      go_on-Steps n (stop_and_terminate o item w).0 (stop_and_terminate o item w).1
        (λ _. sweep_items o items (suc n)) (stop_and_terminate-Steps item w)
        (λ _ w'. sweep_items-Steps items (suc n) w')

  sweep_expired-Steps : (w : World o) → Steps (sweep_expired o w).1.db w.db
  unfolding sweep_expired list_expired_instances
  sweep_expired-Steps w =
      let clock : Reads w.db (λ _. Unit {0}) (read_clock o) = read_clock-Reads in
      let w₁ = (read_clock o w).1 in
      go_on-Steps 0 (read_clock o w).0 w₁ _ (done (clock.same w refl)) λ now w₂.
        let f : Db → Result Error (List InstanceRecord) = λ db. ok (select_expired now db) in
        go_on-Steps 0 (query o f w₂).0 (query o f w₂).1 _ (done (query-IsQuiet o f w₂))
          (λ items w₃. sweep_items-Steps items 0 w₃)

  settle_row-Steps :
      (now : ℤ) (item : InstanceRecord) (w : World o) → Steps (settle_row o now item w).1.db w.db
  unfolding settle_row
  settle_row-Steps now item w =
      let quiet = manager_exists-IsQuiet o item.inst.container_id w in
      let w₁ = (manager_exists o item.inst.container_id w).1 in
      bind_elim (λ x. Steps x.1.db w.db) (manager_exists o item.inst.container_id) _ w
        (λ there _. on_exists-Steps there w₁ (done quiet)) (λ e _. done quiet)
    where
      on_exists-Steps :
          (there : Bool) (w₁ : World o)
          → Steps w₁.db w.db
          → Steps (on_exists o now item there w₁).1.db w.db
      on_exists-Steps true w₁ s = s
      on_exists-Steps false w₁ s =
          bind_elim (λ x. Steps x.1.db w.db) (terminate_row o item.id now) _ w₁
            (λ _ _. Steps-append s (terminate_row-Steps item.id now w₁))
            (λ _ _. Steps-append s (terminate_row-Steps item.id now w₁))

  settle_rows-Steps :
      (now : ℤ) (items : List InstanceRecord) (managed : Managed o) (report : ReconcileReport)
      (w : World o)
      → Steps (settle_rows o now items managed report w).1.db w.db
  unfolding settle_rows
  settle_rows-Steps now [] managed report w = done refl
  settle_rows-Steps now (item ∷ items) managed report w =
      go_on-Steps _ (settle_row o now item w).0 (settle_row o now item w).1 _
        (settle_row-Steps now item w) (λ there w'. settle_rows-Steps now items _ _ w')

  remove_containers-Steps :
      (managed : Managed o) (report : ReconcileReport) (w : World o)
      → Steps (remove_containers o managed report w).1.db w.db
  unfolding remove_containers
  remove_containers-Steps [] report w = done refl
  remove_containers-Steps ((key, c) ∷ rest) report w =
      go_on-Steps report (manager_stop o c.container_id w).0 (manager_stop o c.container_id w).1 _
        (done (manager_stop-IsQuiet o c.container_id w)) (λ _ w'. remove_containers-Steps rest _ w')

  remove_rest-Steps :
      (order : Managed o → Managed o) (x : ((ReconcileReport × Managed o) × Option Error) × World o)
      {db : Db}
      → Steps x.1.db db
      → Steps (remove_rest o order x).1.db db
  remove_rest-Steps order (((report, managed), none), w) s =
      Steps-append s (remove_containers-Steps (order managed) report w)
  remove_rest-Steps order (((report, managed), some e), w) s = s

  reconcile-Steps :
      (order : Managed o → Managed o) (w : World o) → Steps (reconcile o order w).1.db w.db
  unfolding reconcile list_active_instances
  reconcile-Steps order w =
      let f : Db → Result Error (List InstanceRecord) = λ db. ok (select_all_active db) in
      go_on-Steps _ (query o f w).0 (query o f w).1 _ (done (query-IsQuiet o f w)) λ active w₁.
        let clock : Reads w₁.db (λ _. Unit {0}) (read_clock o) = read_clock-Reads in
        go_on-Steps _ (read_clock o w₁).0 (read_clock o w₁).1 _ (done (clock.same w₁ refl))
          λ now w₂.
            go_on-Steps _ (manager_list o w₂).0 (manager_list o w₂).1 _
              (done (manager_list-IsQuiet o w₂))
              λ containers w₃.
                remove_rest-Steps order (settle_rows o now active _ _ w₃)
                  (settle_rows-Steps now active _ _ w₃)

  -- The calls of the HTTP handlers and of the background loop.
  pub data Call : Type 0 where
    starts gets renews deletes : ℕ → Text → Call
    sweeps : Call
    reconciles : (Managed o → Managed o) → Call

  unfoldable pub call : Call → World o → World o
  call (starts user ref) w = (start_instance o cfg user ref w).1
  call (gets user ref) w = (get_instance o cfg user ref w).1
  call (renews user ref) w = (renew_instance o cfg user ref w).1
  call (deletes user ref) w = (delete_instance o cfg user ref w).1
  call sweeps w = (sweep_expired o w).1
  call (reconciles order) w = (reconcile o order w).1

  unfoldable pub run : List Call → World o → World o
  unfolding call
  run [] w = w
  run (c ∷ cs) w = run cs (call c w)

  call-Steps : (c : Call) (w : World o) → Steps (call c w).db w.db
  unfolding call
  call-Steps (starts user ref) w = start_instance-Steps user ref w
  call-Steps (gets user ref) w = done ((get_instance-Reads o cfg user ref w.db).same w refl)
  call-Steps (renews user ref) w = renew_instance-Steps user ref w
  call-Steps (deletes user ref) w = delete_instance-Steps user ref w
  call-Steps sweeps w = sweep_expired-Steps w
  call-Steps (reconciles order) w = reconcile-Steps order w

  -- Whatever the users call in whatever order, and whatever fails outside, the tables change by
  -- single writes only: an insertion after the checks of capacity and port, a renewal of an active
  -- row below its limit, or the end of a row.
  pub run-Steps : (cs : List Call) (w : World o) → Steps (run cs w).db w.db
  unfolding run
  run-Steps [] w = done refl
  run-Steps (c ∷ cs) w = Steps-append (call-Steps c w) (run-Steps cs (call c w))

  -- What every write keeps holds after every run.
  pub run_invariant :
      (I : Db → Type 0)
      → ((db db' : Db) → Step db db' → I db → I db')
      → (cs : List Call) (w : World o) → I w.db
      → I (run cs w).db
  run_invariant I keep cs w h = go (run-Steps cs w) h
    where
      go : {last db : Db} → Steps last db → I db → I last
      go (done e) h = subst I (sym e) h
      go (next {db} {mid} s r) h = go r (keep db mid s h)
