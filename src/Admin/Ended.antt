-- ===== src/Admin/Ended.antt =====
-- backend/internal/admin/service.go: TerminateInstance.
use ctf_recruit.Base.{
  ℕ, Text, Bool, true, false, not, ◌&&◌, ◌≡◌, refl, ◌∙◌, ap, inl, inr, ◌⊎◌, Option, none, some,
  List, [], ◌∷◌, map, Changed, nat_beq_iff, ℤ, Result, ok, err, Result-cases, Bool-cases, codes,
  ◌==◌, nat_eq, text_eq, text_beq_iff, arith,
}
use ctf_recruit.Base.Exec.{◌>>=◌, ◌>>◌, pure}
use ctf_recruit.Base.Decimal.{decimal}
use ctf_recruit.Runtime.Rules.{bind_elim}
use ctf_recruit.Game.Store
use ctf_recruit.Admin.{Error, InstanceRecord}
use ctf_recruit.Admin.World.{Outside, World, M, Db, AuditRow, InstanceRow, exec, query, read_clock}
use ctf_recruit.Admin.Records.{
  select_instance, ended_at, update_terminated, get_instance, terminate_instance,
}
use ctf_recruit.Admin.Rules.{exec_cases, query-db, query-ok}
use ctf_recruit.Admin.Replaced.{audited}
use ctf_recruit.Admin.Service.{audit, stop_container, service_terminate_instance}

ended_at-Changed :
    (id : ℕ) (at : ℤ) (rows : List InstanceRow)
    → Changed
        (λ i. i.id ≡ id)
        (λ i i'. i' ≡ record i { status = codes "terminated"; terminated_at = some at })
        rows
        (map (ended_at id at) rows)
ended_at-Changed id at [] = tt
ended_at-Changed id at (i ∷ rows) = elim (Bool-cases (i.id == id)) [
  | inl hit ↦ (inl ((nat_beq_iff i.id id).0 hit, rw hit refl), ended_at-Changed id at rows)
  | inr miss ↦ (inr (other miss, rw miss refl), ended_at-Changed id at rows)
]
  where
    other : (i.id == id) ≡ false → ¬ i.id ≡ id
    other miss same = let e : (i.id == id) ≡ true = (nat_beq_iff i.id id).1 same in cc

module _ (o : Outside) where
  -- Where there is a manager, the instance's container has been stopped, if it has one that may run.
  abbrev pub WasStopped : Option (Text → o.State → Bool × o.State) → ℕ → Db → Type 0
  WasStopped none id db = Unit
  WasStopped (some stop) id db =
      (current : InstanceRecord) × (select_instance id db ≡ ok current)
      × ((current.container_id ≡ [])
          ⊎ ((current.status ≡ codes "terminated")
              ⊎ ((s : o.State) × ((stop current.container_id s).0 ≡ true))))

  -- An instance that was ended at a time.
  pub record IsEnded (id : ℕ) (db db' : Db) (item : InstanceRecord) : Type 0 where
    pub before : WasStopped o.stop id db
    pub at : ℤ
    pub logs : List AuditRow
    pub row : InstanceRecord
    pub found : select_instance id db ≡ ok row
    pub shown : item ≡ record row { status = codes "terminated"; terminated_at = some at }
    pub rows : List InstanceRow
    pub tables : db' ≡ record db { instances = rows; audit_logs = logs }
    pub written :
        Changed
          (λ i. i.id ≡ id)
          (λ i i'. i' ≡ record i { status = codes "terminated"; terminated_at = some at })
          db.instances
          rows

  -- The specification of TerminateInstance: an error with the tables as they were, or the end.
  pub data Terminated (id : ℕ) (db : Db) (r : Result Error InstanceRecord) (db' : Db) : Type 0 where
    failed : (e : Error) → r ≡ err e → db' ≡ db → Terminated id db r db'
    terminated :
        (item : InstanceRecord) → r ≡ ok item → IsEnded id db db' item → Terminated id db r db'

  abbrev StopGoal :
      Option (Text → o.State → Bool × o.State) → ℕ → Db → Result Error (Unit {0}) × World o → Type 0
  StopGoal stop id db x = (x.1.db ≡ db) × (x.0 ≡ ok tt → WasStopped stop id db)

  stop_container_lem :
      (g : Store.Outside) (stop : Option (Text → o.State → Bool × o.State)) (id : ℕ) (w : World o)
      → StopGoal stop id w.db (stop_container o g stop id w)
  unfolding stop_container get_instance
  stop_container_lem g none id w = (refl, λ h. tt)
  stop_container_lem g (some stop) id w =
      let asked = query o (select_instance id) in
      let s = query-db o (select_instance id) w in
      bind_elim (StopGoal (some stop) id w.db) asked _ w
        (λ current h.
          let found = query-ok o (select_instance id) w current h in
          elim (Bool-cases
            (not (current.container_id == []) && not (current.status == codes "terminated"))) [
              | inr idle ↦ rw idle (s, λ k. (current, found, idle_cases current idle))
              | inl live ↦
                  let reply = stop current.container_id (asked w).1.out in
                  elim (Bool-cases reply.0) [
                    | inl done ↦
                        rw (live, done)
                          (s, λ k. (current, found, inr (inr ((asked w).1.out, done))))
                    | inr broken ↦ rw (live, broken) (s, λ k. absurd (cc))
                  ]
            ])
        (λ e h. (s, λ k. absurd (cc)))
    where
      idle_cases :
          (current : InstanceRecord)
          → (not (current.container_id == []) && not (current.status == codes "terminated")) ≡ false
          → (current.container_id ≡ [])
            ⊎ ((current.status ≡ codes "terminated")
                ⊎ ((s : o.State) × ((stop current.container_id s).0 ≡ true)))
      idle_cases current idle = elim (Bool-cases (current.container_id == [])) [
        | inl no_container ↦ inl ((text_beq_iff current.container_id []).0 no_container)
        | inr has ↦ inr (
            inl (
              (text_beq_iff current.status (codes "terminated")).0
                (let known : (current.container_id == []) ≡ false = has in ground arith)))
      ]

  -- What follows the container, from the tables `db`.
  abbrev after_stop : Store.Outside → ℕ → ℕ → M o InstanceRecord
  after_stop g actor id = read_clock o >>= λ at. terminate_instance o id at >>= λ i.
      audit o g actor (codes "instance.terminate") (codes "instance") (decimal id) >> pure i

  after_stop-Terminated :
      (g : Store.Outside) (actor id : ℕ) (db : Db) (w : World o)
      → w.db ≡ db
      → WasStopped o.stop id db
      → Terminated id db (after_stop g actor id w).0 (after_stop g actor id w).1.db
  unfolding read_clock terminate_instance update_terminated
  after_stop-Terminated g actor id db w s before =
      let at = (o.now w.out).0 in
      let w1 : World o = record w { out = (o.now w.out).1 } in
      let f = λ (t : ℤ). update_terminated id at in
      elim (exec_cases o f w1) [
        | inl (fault, same) ↦ rw fault (failed _ refl (same ∙ s))
        | inr (reply, done) ↦ elim (Result-cases (select_instance id db)) [
          | inr (e, missing) ↦
              let nothing : update_terminated id at w.db ≡ (err e, db) =
                ap (update_terminated id at) s ∙ rw missing refl in
              rw (reply ∙ ap (λ x. x.0) nothing) (failed e refl (done ∙ ap (λ x. x.1) nothing))
          | inl (row, found) ↦
              let item : InstanceRecord = record row {
                status = codes "terminated";
                terminated_at = some at;
              } in
              let after : Db = record db { instances = map (ended_at id at) db.instances } in
              let written : update_terminated id at w.db ≡ (ok item, after) =
                ap (update_terminated id at) s ∙ rw found refl in
              let (noted, (logs, last)) =
                audited o g actor (codes "instance.terminate") (codes "instance") (decimal id) item
                  (exec o f w1).1 in
              let final =
                last
                ∙ ap (λ (d : Db). record d { audit_logs = logs }) (done ∙ ap (λ x. x.1) written) in
              rw (reply ∙ ap (λ x. x.0) written) (
                terminated item noted (record {
                  before = before;
                  at = at;
                  logs = logs;
                  row = row;
                  found = found;
                  shown = refl;
                  rows = map (ended_at id at) db.instances;
                  tables = final;
                  written = ended_at-Changed id at db.instances;
                }))
        ]
      ]

  -- TerminateInstance, whatever the database and the manager answer: it ends in an error with all
  -- tables as they were, or the instance is there and is then terminated at the time that the reply
  -- shows, every other row and table is as it was but for the audit log, and before that, where
  -- there is a manager, the instance's container was stopped, unless it had none or was over.
  pub service_terminate_instance-Terminated :
      (g : Store.Outside) (actor id : ℕ) (w : World o)
      → Terminated id w.db
          (service_terminate_instance o g actor id w).0
          (service_terminate_instance o g actor id w).1.db
  unfolding service_terminate_instance read_clock
  service_terminate_instance-Terminated g actor id w =
      let (same, stops) = stop_container_lem g o.stop id w in
      elim (Result-cases (stop_container o g o.stop id w).0) [
        | inr (e, broken) ↦ rw broken (failed e refl same)
        | inl (_, done) ↦ rw done (
            after_stop-Terminated g actor id w.db (stop_container o g o.stop id w).1 same
              (stops done))
      ]
