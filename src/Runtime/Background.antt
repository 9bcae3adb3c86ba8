-- ===== src/Runtime/Background.antt =====
-- backend/internal/runtime/service.go: SweepExpired and Reconcile, which the background loop of
-- backend/internal/app/server.go calls. Both return what they have done together with the error.
use ctf_recruit.Base.{
  ℕ, suc, Text, Bool, true, false, Option, none, some, List, [], ◌∷◌, ℤ, Result, ok, err, text_eq,
  if◌then◌else◌,
}
use ctf_recruit.Base.Dict
use ctf_recruit.Base.Dict.{Dict}
use ctf_recruit.Base.Exec.{◌>>=◌, ◌>>◌, pure}
use ctf_recruit.Runtime.{Error, InstanceRecord, ManagedContainer, ReconcileReport}
use ctf_recruit.Runtime.World.{
  Outside, World, M, read_clock, manager_stop, manager_exists, manager_list,
}
use ctf_recruit.Runtime.Repository.{terminate_row, list_expired_instances, list_active_instances}
use ctf_recruit.Runtime.Service.{managed_container_key}

module _ (o : Outside) where
  -- A call that returns a value together with an error, as Go functions do.
  abbrev pub Partial : Type 0 → Type 0
  Partial A = World o → (A × Option Error) × World o

  -- `if err := m; err != nil { return done, err }`, and what follows otherwise.
  abbrev pub go_on :
      {A B : Type 0} → B → Result Error A → World o → (A → Partial B) → (B × Option Error) × World o
  go_on done (ok a) w f = f a w
  go_on done (err e) w f = ((done, some e), w)

  abbrev pub or_stop : {A B : Type 0} → B → M o A → (A → Partial B) → Partial B
  or_stop done m f w = go_on done (m w).0 (m w).1 f

  -- One round of the loop of `SweepExpired`.
  unfoldable pub stop_and_terminate : InstanceRecord → M o (Unit {0})
  stop_and_terminate item = do
    manager_stop o item.inst.container_id
    now ← read_clock o
    terminate_row o item.id now

  -- The loop, with the count so far.
  unfoldable pub sweep_items : List InstanceRecord → ℕ → Partial ℕ
  sweep_items [] done w = ((done, none), w)
  sweep_items (item ∷ items) done w =
      let rest = sweep_items items (suc done) in
      or_stop done (stop_and_terminate item) (λ _. rest) w

  unfoldable pub sweep_expired : Partial ℕ
  unfolding sweep_items stop_and_terminate
  sweep_expired =
      or_stop 0 (read_clock o)
        λ now. or_stop 0 (list_expired_instances o now) λ expired. sweep_items expired 0

  -- `managedByKey`: a later container under the same key replaces an earlier one.
  unfoldable pub managed_by_key :
      List ManagedContainer → Dict Text ManagedContainer → Dict Text ManagedContainer
  managed_by_key [] d = d
  managed_by_key (c ∷ cs) d =
      managed_by_key cs (Dict.insert (managed_container_key c.challenge_id c.user_id) c d)

  abbrev pub Managed : Type 0
  Managed = Dict Text ManagedContainer

  abbrev pub row_key : InstanceRecord → Text
  row_key r = managed_container_key r.inst.challenge_id r.inst.user_id

  abbrev counted_record : ReconcileReport → ReconcileReport
  counted_record report = record report { terminated_records = suc report.terminated_records }

  abbrev counted_container : ReconcileReport → ReconcileReport
  counted_container report = record report { removed_containers = suc report.removed_containers }

  -- The loop over the containers that no active row accounts for.
  unfoldable pub remove_containers : Managed → ReconcileReport → Partial ReconcileReport
  remove_containers [] report w = ((report, none), w)
  remove_containers ((key, c) ∷ rest) report w =
      let others = remove_containers rest (counted_container report) in
      or_stop report (manager_stop o c.container_id) (λ _. others) w

  -- One round of the loop over the active rows: a row whose container is gone is terminated. The
  -- value tells whether the container is there.
  abbrev pub on_exists : ℤ → InstanceRecord → Bool → M o Bool
  on_exists now item true = pure true
  on_exists now item false = terminate_row o item.id now >>= λ _. pure false

  unfoldable pub settle_row : ℤ → InstanceRecord → M o Bool
  settle_row now item = manager_exists o item.inst.container_id >>= on_exists now item

  -- The loop, with the containers that no row has claimed yet.
  unfoldable pub settle_rows :
      ℤ → List InstanceRecord → Managed → ReconcileReport → Partial (ReconcileReport × Managed)
  settle_rows now [] managed report w = (((report, managed), none), w)
  settle_rows now (item ∷ items) managed report w =
      let claimed = Dict.erase (row_key item) managed in
      let next = settle_rows now items claimed in
      or_stop (report, claimed) (settle_row now item)
        (λ there. next (if there then report else counted_record report)) w

  abbrev pub blank_report : ReconcileReport
  blank_report = record { terminated_records = 0; removed_containers = 0 }

  abbrev pub remove_rest :
      (Managed → Managed)
      → ((ReconcileReport × Managed) × Option Error) × World o
      → (ReconcileReport × Option Error) × World o
  remove_rest order (((report, managed), none), w) = remove_containers (order managed) report w
  remove_rest order (((report, managed), some e), w) = ((report, some e), w)

  abbrev pub settle_all :
      (Managed → Managed)
      → ℤ
      → List InstanceRecord
      → List ManagedContainer
      → Partial ReconcileReport
  settle_all order now active containers w =
      remove_rest order (settle_rows now active (managed_by_key containers []) blank_report w)

  -- `range managedByKey` runs in an order that Go leaves open: it is an argument.
  unfoldable pub reconcile : (Managed → Managed) → Partial ReconcileReport
  unfolding settle_rows remove_containers managed_by_key settle_row
  reconcile order = or_stop blank_report (list_active_instances o) λ active.
      or_stop blank_report (read_clock o) λ now.
        or_stop blank_report (manager_list o) λ containers. settle_all order now active containers
