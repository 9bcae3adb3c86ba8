-- ===== src/Runtime/Checks.antt =====
-- backend/internal/runtime/service.go: what the calls before the insertion of StartInstance read.
use ctf_recruit.Base.{
  ℕ, zero, suc, ◌+◌, ◌-◌, ◌≤◌, ◌<◌, Text, true, false, ◌≡◌, refl, sym, subst, inl, inr, List, ◌∷◌,
  arith, pos, pos_part, ◌<ℤ◌, ltb_ℤ, leb_ℤ, Result, ok, err, Bool-cases, contains, keep, ltb,
  nat_eq, text_eq, int_eq,
}
use ctf_recruit.Runtime.{
  Error, repository_not_found, RuntimeConfigRecord, InstanceRecord, ChallengeConfig, ServiceConfig,
  StartedContainer,
}
use ctf_recruit.Runtime.World.{Outside, World, M, Db, manager_start}
use ctf_recruit.Runtime.Repository.{
  get_challenge_config, select_config, count_active_instances, count_active, get_latest_instance,
  list_active_host_ports, active_ports,
}
use ctf_recruit.Runtime.Service.{
  load_dynamic, load_runnable, check_capacity, check_cooldown, on_latest, start_request, on_started,
  is_port_bind_error, try_ports, start_container, has_no_range,
}
use ctf_recruit.Runtime.Rules.{
  Reads, Reads-pure, Reads-throw, Reads-bind, Reads-map_error, Reads-attempt, Reads-reject_if,
  Reads-query, Reads-mono, ok_injective, read_clock-Reads, manager_start-Reads,
}

module _ (o : Outside) (cfg : ServiceConfig) where
  -- What a configuration read for `ref` satisfies.
  abbrev pub Loaded : Text → Db → RuntimeConfigRecord → Type 0
  Loaded ref db found = (select_config ref db ≡ ok found) × (found.challenge.dynamic ≡ true)

  pub load_dynamic-Reads :
      (ref : Text) (db : Db) → Reads db (Loaded ref db) (load_dynamic o cfg ref)
  unfolding load_dynamic get_challenge_config
  load_dynamic-Reads ref db =
      Reads-bind (Reads-map_error _ (Reads-query (select_config ref)))
        λ found at. Reads-bind (Reads-reject_if _ _) λ _ d. Reads-pure found (at, ground arith)

  pub load_runnable-Reads :
      (ref : Text) (db : Db) → Reads db (Loaded ref db) (load_runnable o cfg ref)
  unfolding load_runnable
  load_runnable-Reads ref db =
      Reads-bind (load_dynamic-Reads ref db)
        λ found l. Reads-bind (Reads-reject_if _ _) λ _ _. Reads-pure found l

  -- The limit on active instances leaves room for one more.
  abbrev pub HasRoom : Db → ChallengeConfig → Type 0
  HasRoom db c =
      ltb_ℤ (pos 0) c.max_active_instances ≡ true
      → pos (count_active c.id db) <ℤ c.max_active_instances

  below :
      (c : ChallengeConfig) (active : ℕ)
      → leb_ℤ c.max_active_instances (pos active) ≡ false
      → pos active <ℤ c.max_active_instances
  below c active h = ground arith

  pub check_capacity-Reads :
      (c : ChallengeConfig) (db : Db) → Reads db (λ _. HasRoom db c) (check_capacity o cfg c)
  unfolding check_capacity count_active_instances
  check_capacity-Reads c db = elim (Bool-cases (ltb_ℤ (pos 0) c.max_active_instances)) [
    | inl limited ↦ rw limited (
        Reads-bind (Reads-query (λ d. ok (count_active c.id d))) λ active e.
          Reads-mono
            (λ _ h _.
              subst (λ n. pos n <ℤ c.max_active_instances) (sym (ok_injective e))
                (below c active h))
            (Reads-reject_if _ _))
    | inr unlimited ↦ rw unlimited (Reads-pure tt (λ h. cc))
  ]

  on_latest-Reads :
      (c : ChallengeConfig) (db : Db) (r : Result Error InstanceRecord)
      → Reads db (λ _. Unit {0}) (on_latest o cfg c r)
  on_latest-Reads c db (ok latest) =
      Reads-bind read_clock-Reads λ now _. Reads-mono (λ _ _. tt) (Reads-reject_if _ _)
  on_latest-Reads c db (err repository_not_found) = Reads-pure tt tt
  on_latest-Reads c db (err e) = Reads-throw _

  pub check_cooldown-Reads :
      (user : ℕ) (c : ChallengeConfig) (db : Db)
      → Reads db (λ _. Unit {0}) (check_cooldown o cfg user c)
  unfolding check_cooldown get_latest_instance
  check_cooldown-Reads user c db = elim (Bool-cases (ltb_ℤ (pos 0) c.user_cooldown)) [
    | inl on ↦ rw on (Reads-bind (Reads-attempt (Reads-query _)) λ r _. on_latest-Reads c db r)
    | inr off ↦ rw off (Reads-pure tt tt)
  ]

  -- The container was started on a port from `lo` on and below `hi` that is not in `used`.
  abbrev pub StartedOn : ℕ → ChallengeConfig → ℕ → ℕ → List ℕ → StartedContainer → Type 0
  StartedOn user c lo hi used started =
      (p : ℕ) × (w : World o) × (lo ≤ p)
      × (p < hi)
      × (contains used p ≡ false)
      × ((manager_start o (start_request o cfg user c p) w).0 ≡ ok started)

  -- A started container is returned; after an error of the port's binding the loop goes on.
  on_started-Reads :
      (user hi : ℕ) (c : ChallengeConfig) (port : ℕ) (used : List ℕ) (db : Db)
      (next : List ℕ → M o StartedContainer) (r : Result Error StartedContainer)
      → contains used port ≡ false
      → port < hi
      → ((st : StartedContainer)
          → r ≡ ok st
          → (w : World o) × ((manager_start o (start_request o cfg user c port) w).0 ≡ ok st))
      → Reads db (StartedOn user c (suc port) hi (port ∷ used)) (next (port ∷ used))
      → Reads db (StartedOn user c port hi used) (on_started o cfg port next used r)
  unfolding contains
  on_started-Reads user hi c port used db next (ok st) free lt run rest =
      Reads-pure st (let (w, s) = run st refl in (port, w, omega arith, lt, free, s))
  on_started-Reads user hi c port used db next (err e) free lt run rest =
      elim (Bool-cases (is_port_bind_error e)) [
        | inl busy ↦
            rw busy
              (Reads-mono (λ st (p, w, a, b, f, s). (p, w, omega arith, b, ground arith, s)) rest)
        | inr other ↦ rw other (Reads-throw e)
      ]

  try_ports-Reads :
      (user left : ℕ) (c : ChallengeConfig) (port : ℕ) (used : List ℕ) (db : Db)
      → Reads db (StartedOn user c port (port + left) used) (try_ports o cfg user left c port used)
  unfolding try_ports contains
  try_ports-Reads user zero c port used db = Reads-throw _
  try_ports-Reads user (suc left) c port used db = elim (Bool-cases (contains used port)) [
    | inl taken ↦ rw taken (
        Reads-mono (λ st (p, w, a, b, f, s). (p, w, omega arith, omega arith, f, s))
          (try_ports-Reads user left c (suc port) used db))
    | inr free ↦ rw free (
        Reads-bind {f = on_started o cfg port (try_ports o cfg user left c (suc port)) used}
          (Reads-attempt (manager_start-Reads (start_request o cfg user c port)))
          λ r run.
            on_started-Reads user (port + suc left) c port used db
              (try_ports o cfg user left c (suc port)) r free (omega arith) run
              (Reads-mono (λ st (p, w, a, b, f, s). (p, w, a, omega arith, f, s))
                (try_ports-Reads user left c (suc port) (port ∷ used) db)))
  ]

  -- With a range of ports, the container runs on one of them that no active row uses; without one,
  -- the port is left to the daemon.
  abbrev pub FreePort : ℕ → ChallengeConfig → Db → StartedContainer → Type 0
  FreePort user c db started =
      (has_no_range o cfg ≡ false
        → StartedOn user c (pos_part cfg.port_min) (suc (pos_part cfg.port_max))
            (keep (λ port. ltb 0 port) (active_ports db.instances)) started)
      × (has_no_range o cfg ≡ true
          → (w : World o) × ((manager_start o (start_request o cfg user c 0) w).0 ≡ ok started))

  range_end :
      has_no_range o cfg ≡ false
      → pos_part cfg.port_min + (suc (pos_part cfg.port_max) - pos_part cfg.port_min)
        ≡ suc (pos_part cfg.port_max)
  range_end h = ground arith

  pub start_container-Reads :
      (user : ℕ) (c : ChallengeConfig) (db : Db)
      → Reads db (FreePort user c db) (start_container o cfg user c)
  unfolding start_container list_active_host_ports
  start_container-Reads user c db = elim (Bool-cases (has_no_range o cfg)) [
    | inl off ↦ rw off (Reads-mono (λ _ run. ((λ h. cc), (λ h. run))) (manager_start-Reads _))
    | inr on ↦ rw on (
        Reads-bind (Reads-query (λ d. ok (active_ports d.instances))) λ ports e.
          Reads-mono
            (λ st run. (
              (λ _.
                  subst
                    (λ ps.
                      StartedOn user c (pos_part cfg.port_min) (suc (pos_part cfg.port_max))
                        (keep (λ port. ltb 0 port) ps) st)
                    (sym (ok_injective e))
                    (subst
                      (λ hi.
                        StartedOn user c (pos_part cfg.port_min) hi
                          (keep (λ port. ltb 0 port) ports) st)
                      (range_end on) run)),
              (λ h. cc),
            ))
            (try_ports-Reads user _ c _ _ db))
  ]
