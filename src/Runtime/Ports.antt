-- ===== src/Runtime/Ports.antt =====
-- backend/internal/runtime/service.go: the host ports of the active instances, where the service has
-- a range of ports.
use ctf_recruit.Base.{
  ℕ, ◌≤◌, ◌<◌, Bool, true, false, ◌≡◌, refl, List, [], ◌∷◌, arith, pos_part, ltb, ok, count, ◌&&◌,
  ◌||◌, Result-cases, inl, inr, ◌==◌, nat_eq, nat_beq_iff, keep, contains,
}
use ctf_recruit.Runtime.{InstanceRecord, ServiceConfig, StartRequest, StartedContainer, is_active}
use ctf_recruit.Runtime.World.{Outside, World, Db, manager_start}
use ctf_recruit.Runtime.Repository.{active_ports}
use ctf_recruit.Runtime.Service.{has_no_range, new_instance, start_request}
use ctf_recruit.Runtime.History.{Call, run, run_invariant}
use ctf_recruit.Runtime.Limits.{Insertion, inserted_row, Step-count, Keeps-terminated}

-- The daemon publishes a container on the host port that it is asked for.
abbrev pub HoldsPort : Outside → Type 0
HoldsPort o =
    (req : StartRequest) (s : o.State) (started : StartedContainer)
    → (o.start req s).0 ≡ ok started
    → 0 < req.host_port
    → started.host_port ≡ req.host_port

abbrev pub uses_port : ℕ → InstanceRecord → Bool
uses_port port r = (r.inst.host_port == port) && is_active r

-- A port that is not in the list of the used ones is not the port of an active row.
pub unused :
    (port : ℕ) (rows : List InstanceRecord)
    → 0 < port
    → contains (keep (λ p. ltb 0 p) (active_ports rows)) port ≡ false
    → count (uses_port port) rows ≡ 0
unfolding active_ports contains
unused port [] positive free = refl
unused port (r ∷ rows) positive free = ground (
  arith,
  unused port rows positive,
  nat_beq_iff port r.inst.host_port,
  nat_beq_iff r.inst.host_port port,
)

module _ (o : Outside) (cfg : ServiceConfig) where
  -- What a container of the range says of its port.
  abbrev Chosen : ℕ → Db → Type 0
  Chosen port db =
      (pos_part cfg.port_min ≤ port)
      × (port ≤ pos_part cfg.port_max)
      × (0 < port)
      × (count (uses_port port) db.instances ≡ 0)

  started_port :
      (req : StartRequest) (w : World o) (started : StartedContainer)
      → HoldsPort o
      → 0 < req.host_port
      → (manager_start o req w).0 ≡ ok started
      → started.host_port ≡ req.host_port
  unfolding manager_start
  started_port req w started holds positive h = elim (Result-cases (o.start req w.out).0) [
    | inl (st, e) ↦ holds req w.out started (ground arith) positive
    | inr (message, e) ↦ ground arith
  ]

  chosen :
      {db db' : Db} (i : Insertion o cfg db db')
      → HoldsPort o
      → has_no_range o cfg ≡ false
      → Chosen i.started.host_port db
  unfolding start_request
  chosen {db} i holds range =
      let (p, w, above, below, free, run) = i.port.0 range in
      let positive : 0 < p = ground arith in
      let same : i.started.host_port ≡ p = started_port _ w i.started holds positive run in
      rw same (above, omega arith, positive, unused p db.instances positive free)

  -- With a range of ports, and a daemon that publishes a container on the port it is asked for, no
  -- two active instances have the same port: if at most one active row has the port,
  -- this stays so after any calls of the service and of the background loop, in any order.
  pub run_ports_distinct :
      (port : ℕ) (cs : List (Call o cfg)) (w : World o)
      → HoldsPort o
      → has_no_range o cfg ≡ false
      → count (uses_port port) w.db.instances ≤ 1
      → count (uses_port port) (run o cfg cs w).db.instances ≤ 1
  unfolding new_instance is_active
  run_ports_distinct port cs w holds range =
      run_invariant o cfg (λ db. count (uses_port port) db.instances ≤ 1)
        (λ db db'.
          Step-count o cfg (uses_port port) 1 db db' (λ expires r h. h)
            (Keeps-terminated o cfg (λ r. r.inst.host_port == port)) (λ i counts. alone i counts))
        cs w
    where
      alone :
          {db db' : Db} (i : Insertion o cfg db db')
          → uses_port port (inserted_row o cfg i) ≡ true
          → count (uses_port port) db.instances < 1
      alone {db} i counts =
          let (_, _, _, nobody) = chosen i holds range in
          let same : i.started.host_port ≡ port =
            ground (arith, nat_beq_iff i.started.host_port port) in
          rw (← same) (omega (arith, nobody))

  abbrev pub is_outside : InstanceRecord → Bool
  is_outside r =
      ltb r.inst.host_port (pos_part cfg.port_min) || ltb (pos_part cfg.port_max) r.inst.host_port

  -- With a range of ports, and a daemon that publishes a container on the port it is asked for, the
  -- port of every active instance lies in the range: if no active row has a port outside of it,
  -- none has after any calls of the service and of the background loop, in any order.
  pub run_ports_in_range :
      (cs : List (Call o cfg)) (w : World o)
      → HoldsPort o
      → has_no_range o cfg ≡ false
      → count (λ r. is_outside r && is_active r) w.db.instances ≤ 0
      → count (λ r. is_outside r && is_active r) (run o cfg cs w).db.instances ≤ 0
  unfolding new_instance is_active
  run_ports_in_range cs w holds range =
      run_invariant o cfg (λ db. count (λ r. is_outside r && is_active r) db.instances ≤ 0)
        (λ db db'.
          Step-count o cfg (λ r. is_outside r && is_active r) 0 db db' (λ expires r h. h)
            (Keeps-terminated o cfg is_outside)
            (λ i counts. let (above, below, _, _) = chosen i holds range in ground arith))
        cs w
