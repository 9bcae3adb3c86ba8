-- ===== src/Runtime/Swept.antt =====
-- backend/internal/runtime/service.go: what a sweep that returns no error has done.
use ctf_recruit.Base.{
  ℕ, suc, ◌+◌, ◌≤◌, true, ◌≡◌, refl, ap, none, List, [], ◌∷◌, arith, ℤ, Result, ok, err, count,
  length, contains, Result-cases, inl, inr,
}
use ctf_recruit.Runtime.{Error, InstanceRecord, is_active}
use ctf_recruit.Runtime.World.{Outside, World, Db, query, read_clock}
use ctf_recruit.Runtime.Repository.{
  is_expired, select_expired, update_row, terminated, update_terminated, terminate_row,
  list_expired_instances,
}
use ctf_recruit.Runtime.Background.{stop_and_terminate, sweep_items, sweep_expired}
use ctf_recruit.Runtime.Rules.{
  reads_elim, manager_stop-Reads, read_clock-Reads, query-IsQuiet, query-eq-ok, ok_injective,
}
use ctf_recruit.Runtime.Lifecycle.{exec_outcome, update_terminated_failed}
use ctf_recruit.Runtime.Tables.{update_terminated_tables}
use ctf_recruit.Runtime.Sweep.{
  is_left, select_expired-covers, count-ended, length-select_expired, count-is_left,
}

module _ (o : Outside) where
  -- What a round of the sweep that succeeds does to the tables.
  abbrev Ended : InstanceRecord → Db → Db → Type 0
  Ended item db db' =
      (at : ℤ) × (db'
        ≡ record db { instances = update_row item.id (λ _. true) (terminated at) db.instances })

  stop_and_terminate-Ended :
      (item : InstanceRecord) (w : World o)
      → (stop_and_terminate o item w).0 ≡ ok tt
      → Ended item w.db (stop_and_terminate o item w).1.db
  unfolding stop_and_terminate terminate_row
  stop_and_terminate-Ended item w =
      let G : Result Error (Unit {0}) × World o → Type 0 =
        λ x. x.0 ≡ ok tt → Ended item w.db x.1.db in
      let failed : (e : Error) (w' : World o) → w'.db ≡ w.db → G (err e, w') = λ e w' s h. cc in
      reads_elim G _ w refl (manager_stop-Reads item.inst.container_id) failed λ _ _ w₁ s₁.
        reads_elim G _ w₁ s₁ read_clock-Reads failed λ now _ w₂ s₂ h.
          elim (exec_outcome o (update_terminated item.id now)
            (λ d e. update_terminated_failed item.id now d) w.db w₂ s₂) [
              | inl (e, broken, _) ↦ cc
              | inr (_, _, written) ↦
                  (w.db.stamp now, update_terminated_tables item.id now w.db _ written)
            ]

  -- The loop over the items, where it comes to its end: its count, and no row is left.
  sweep_items_lem :
      (now : ℤ) (items : List InstanceRecord) (n : ℕ) (w : World o)
      → (sweep_items o items n w).0.1 ≡ none
      → ((sweep_items o items n w).0.0 ≡ n + length items)
        × (count (is_left now []) (sweep_items o items n w).1.db.instances
            ≤ count (is_left now items) w.db.instances)
  unfolding sweep_items
  sweep_items_lem now [] n w = λ fine. (omega arith, omega arith)
  sweep_items_lem now (item ∷ items) n w = elim (Result-cases (stop_and_terminate o item w).0) [
    | inr (e, failed) ↦ rw failed (λ fine. cc)
    | inl (_, done) ↦
        let w₁ = (stop_and_terminate o item w).1 in
        let (at, written) = stop_and_terminate-Ended item w done in
        rw done λ fine.
          let (counted, left) = sweep_items_lem now items (suc n) w₁ fine in
          (
            omega (arith, counted),
            omega (
              arith,
              left,
              count-ended now at item items w.db.instances,
              ap (λ d. count (is_left now items) d.instances) written,
            ),
          )
  ]

  -- A sweep that returns no error has ended every instance that was active and over at the moment
  -- it read the clock: none of these is left, and the count it returns is how many there were.
  pub sweep_expired_lem :
      (w : World o)
      → (sweep_expired o w).0.1 ≡ none
      → let now = (o.now w.out).0 in
        ((sweep_expired o w).0.0 ≡ count (is_expired now) w.db.instances)
        × (count (is_expired now) (sweep_expired o w).1.db.instances ≡ 0)
  unfolding sweep_expired list_expired_instances read_clock contains is_active
  sweep_expired_lem w =
      let now = (o.now w.out).0 in
      let w₁ = (read_clock o w).1 in
      let f : Db → Result Error (List InstanceRecord) = λ db. ok (select_expired now db) in
      elim (Result-cases (query o f w₁).0) [
        | inr (e, failed) ↦ rw failed (λ fine. cc)
        | inl (items, read) ↦
            let w₂ = (query o f w₁).1 in
            let same : w₂.db ≡ w.db = query-IsQuiet o f w₁ in
            let which : select_expired now w.db ≡ items = ok_injective (query-eq-ok o f w₁ read) in
            rw read λ fine.
              let (counted, left) = sweep_items_lem now items 0 w₂ fine in
              let before = ap (λ d. count (is_left now items) d.instances) same in
              let covers = ap (λ is. count (is_left now is) w.db.instances) which in
              (
                omega (arith, counted, ap length which, length-select_expired now w.db),
                omega (
                  arith,
                  left,
                  before,
                  covers,
                  select_expired-covers now w.db,
                  count-is_left now (sweep_items o items 0 w₂).1.db.instances,
                ),
              )
      ]
