-- ===== src/Runtime/Service.antt =====
-- backend/internal/runtime/service.go: the service, over the repository and the container manager.
-- Its mutex makes each of these calls one step.
use ctf_recruit.Base.{
  ℕ, zero, suc, ◌-◌, Text, Bool, true, false, not, ◌&&◌, ◌||◌, none, List, [], ◌∷◌, ◌++◌, ℤ, pos,
  ◌+ℤ◌, pos_part, ltb_ℤ, leb_ℤ, Result, ok, err, codes, trim_space, to_lower, contains,
  contains_text, replace_all, ◌==◌, nat_eq, text_eq, int_eq, keep, ltb, if◌then◌else◌,
}
use ctf_recruit.Base.Decimal.{decimal}
use ctf_recruit.Base.Exec.{pure, throw, ◌>>=◌, ◌>>◌, attempt, reject_if, map_error}
use ctf_recruit.Runtime.{
  Error, challenge_not_found, challenge_not_dynamic, runtime_config_missing, instance_not_found,
  renew_limit_reached, capacity_reached, cooldown_active, port_exhausted, repository_not_found,
  manager_error, ServiceConfig, ChallengeConfig, ChallengeSummary, Instance, RuntimeConfigRecord,
  InstanceRecord, StartRequest, StartedContainer, status_running,
}
use ctf_recruit.Runtime.World.{Outside, M, read_clock, manager_start, manager_stop}
use ctf_recruit.Runtime.Repository.{
  list_challenges, get_challenge_config, get_active_instance, create_instance, renew_row,
  terminate_row, list_active_host_ports, count_active_instances, get_latest_instance, terminated,
}

-- The normalization of `NewService`.
abbrev trimmed_or : Text → Text → Text
trimmed_or value fallback = if trim_space value == [] then fallback else trim_space value

abbrev not_negative : ℤ → ℤ
not_negative p = if ltb_ℤ p (pos 0) then pos 0 else p

drop_empty_range : ServiceConfig → ServiceConfig
drop_empty_range cfg =
    if ltb_ℤ (pos 0) cfg.port_min && ltb_ℤ (pos 0) cfg.port_max && ltb_ℤ cfg.port_max cfg.port_min
    then record cfg { port_min = pos 0; port_max = pos 0 }
    else cfg

unfoldable pub new_service : ServiceConfig → ServiceConfig
unfolding drop_empty_range
new_service cfg =
    let base = trimmed_or cfg.public_base_url (codes "http://localhost:8080") in
    drop_empty_range (record {
      public_base_url = base;
      runtime_base_url = trimmed_or cfg.runtime_base_url base;
      bind_addr = trimmed_or cfg.bind_addr (codes "127.0.0.1");
      port_min = not_negative cfg.port_min;
      port_max = not_negative cfg.port_max;
    })

abbrev pub not_found_as : Error → Error → Error
not_found_as e repository_not_found = e
not_found_as e other = other

unfoldable pub is_port_bind_error : Error → Bool
is_port_bind_error (manager_error message) =
    contains_text (to_lower message) (codes "port is already allocated")
    || contains_text (to_lower message) (codes "address already in use")
is_port_bind_error other = false

unfoldable pub managed_container_key : Text → ℕ → Text
managed_container_key challenge user = challenge ++ codes ":" ++ decimal user

module _ (o : Outside) (cfg : ServiceConfig) where
  -- The function `buildAccessURL` of the package.
  abbrev format_url : Text → Text → ℕ → Text
  format_url protocol base port =
      (if protocol == [] then codes "http" else protocol)
      ++ (codes "://"
          ++ ((if o.hostname base == [] then codes "localhost" else o.hostname base)
              ++ (codes ":" ++ decimal port)))

  -- The method `buildAccessURL` of the service.
  unfoldable pub build_access_url : ChallengeConfig → Text → ℕ → Text
  build_access_url c host_ip port =
      let base =
        if not (trim_space host_ip == []) && contains_text cfg.runtime_base_url (codes "localhost")
        then replace_all cfg.runtime_base_url (codes "localhost") host_ip
        else cfg.runtime_base_url in
      format_url c.exposed_protocol base port

  -- `x.AccessURL = s.buildAccessURL(cfg, x.HostIP, x.HostPort)`
  abbrev pub with_url : ChallengeConfig → Instance → Instance
  with_url c i = record i { access_url = build_access_url c i.host_ip i.host_port }

  unfoldable pub challenges : M o (List ChallengeSummary)
  challenges = list_challenges o

  -- The configuration of a dynamic challenge.
  unfoldable pub load_dynamic : Text → M o RuntimeConfigRecord
  load_dynamic ref = do
    found ← map_error (not_found_as challenge_not_found) (get_challenge_config o ref)
    reject_if (not found.challenge.dynamic) challenge_not_dynamic
    pure found

  -- The same where the runtime configuration has to be complete.
  unfoldable pub load_runnable : Text → M o RuntimeConfigRecord
  unfolding load_dynamic
  load_runnable ref = do
    found ← load_dynamic ref
    reject_if
        ((found.id == 0)
          || (found.challenge.image_name == [])
          || (found.challenge.container_port == pos 0))
        runtime_config_missing
    pure found

  unfoldable pub start_request : ℕ → ChallengeConfig → ℕ → StartRequest
  start_request user c port = record {
    challenge_id = c.id;
    user_id = user;
    bind_addr = cfg.bind_addr;
    host_port = port;
    config = c;
  }

  -- The body of the loop over the ports, on what `Start` returned for `port`.
  abbrev pub on_started :
      ℕ
      → (List ℕ → M o StartedContainer)
      → List ℕ
      → Result Error StartedContainer
      → M o StartedContainer
  on_started port next used (ok started) = pure started
  on_started port next used (err e) = if is_port_bind_error e then next (port ∷ used) else throw e

  -- `for port := …; port <= PortMax; port++`, with the number of ports that are left.
  unfoldable pub try_ports : ℕ → ℕ → ChallengeConfig → ℕ → List ℕ → M o StartedContainer
  unfolding start_request
  try_ports user zero c port used = throw port_exhausted
  try_ports user (suc left) c port used =
      let next = try_ports user left c (suc port) in
      if contains used port
      then next used
      else attempt (manager_start o (start_request user c port)) >>= on_started port next used

  abbrev pub has_no_range : Bool
  has_no_range =
      leb_ℤ cfg.port_min (pos 0) || leb_ℤ cfg.port_max (pos 0) || ltb_ℤ cfg.port_max cfg.port_min

  -- A port is at least 1 in a range, so its integer is a natural number.
  unfoldable pub start_container : ℕ → ChallengeConfig → M o StartedContainer
  unfolding try_ports
  start_container user c =
      if has_no_range
      then manager_start o (start_request user c 0)
      else list_active_host_ports o >>= λ ports.
          try_ports user (suc (pos_part cfg.port_max) - pos_part cfg.port_min) c
            (pos_part cfg.port_min) (keep (λ port. ltb 0 port) ports)

  unfoldable pub check_capacity : ChallengeConfig → M o (Unit {0})
  check_capacity c =
      if ltb_ℤ (pos 0) c.max_active_instances
      then (count_active_instances o c.id >>= λ active.
          reject_if (leb_ℤ c.max_active_instances (pos active)) capacity_reached)
      else pure tt

  abbrev pub on_latest : ChallengeConfig → Result Error InstanceRecord → M o (Unit {0})
  on_latest c (ok latest) = do
    now ← read_clock o
    reject_if (ltb_ℤ now (latest.inst.started_at +ℤ c.user_cooldown)) cooldown_active
  on_latest c (err repository_not_found) = pure tt
  on_latest c (err e) = throw e

  unfoldable pub check_cooldown : ℕ → ChallengeConfig → M o (Unit {0})
  check_cooldown user c =
      if ltb_ℤ (pos 0) c.user_cooldown
      then attempt (get_latest_instance o user c.id) >>= on_latest c
      else pure tt

  unfoldable pub new_instance : ℕ → ChallengeConfig → StartedContainer → ℤ → Instance
  new_instance user c started now = record {
    challenge_id = c.id;
    user_id = user;
    status = status_running;
    access_url = build_access_url c started.host_ip started.host_port;
    host_port = started.host_port;
    renew_count = 0;
    started_at = now;
    expires_at = now +ℤ c.ttl;
    terminated_at = none;
    container_id = started.container_id;
    container_name = started.container_name;
    host_ip = started.host_ip;
  }

  -- After `CreateInstance` failed with `e`: the lookup of an instance that is there by now.
  abbrev pub on_lookup :
      ChallengeConfig → Error → Result Error InstanceRecord → M o (Instance × Bool)
  on_lookup c e (ok existing) = pure (with_url c existing.inst, false)
  on_lookup c e (err _) = throw e

  -- What follows `CreateInstance`: the container is stopped if the row was not made.
  abbrev pub on_created :
      ℕ → ChallengeConfig → Text → Result Error InstanceRecord → M o (Instance × Bool)
  on_created user c container (ok saved) = pure (with_url c saved.inst, true)
  on_created user c container (err e) = do
    _ ← attempt (manager_stop o container)
    attempt (get_active_instance o user c.id) >>= on_lookup c e

  -- The part of `StartInstance` after the checks.
  unfoldable pub launch : ℕ → RuntimeConfigRecord → M o (Instance × Bool)
  unfolding start_container new_instance
  launch user found = do
    started ← start_container user found.challenge
    now ← read_clock o
    attempt (create_instance o found.id (new_instance user found.challenge started now))
        >>= on_created user found.challenge started.container_id

  -- What follows the lookup of the user's active instance.
  abbrev pub on_existing :
      ℕ → RuntimeConfigRecord → Result Error InstanceRecord → M o (Instance × Bool)
  on_existing user found (ok existing) = pure (with_url found.challenge existing.inst, false)
  on_existing user found (err repository_not_found) = do
    check_capacity found.challenge
    check_cooldown user found.challenge
    launch user found
  on_existing user found (err e) = throw e

  unfoldable pub start_instance : ℕ → Text → M o (Instance × Bool)
  unfolding load_runnable check_capacity check_cooldown launch
  start_instance user ref = do
    found ← load_runnable ref
    attempt (get_active_instance o user found.challenge.id) >>= on_existing user found

  abbrev pub active_or_missing : ℕ → Text → M o InstanceRecord
  active_or_missing user challenge =
      map_error (not_found_as instance_not_found) (get_active_instance o user challenge)

  unfoldable pub get_instance : ℕ → Text → M o Instance
  unfolding load_dynamic
  get_instance user ref = do
    found ← load_dynamic ref
    r ← active_or_missing user found.challenge.id
    pure (with_url found.challenge r.inst)

  -- The later of the old end and now, plus the lifetime.
  abbrev pub extended : Instance → ℤ → ℤ → ℤ
  extended i now ttl = (if ltb_ℤ i.expires_at now then now else i.expires_at) +ℤ ttl

  unfoldable pub renew_instance : ℕ → Text → M o Instance
  unfolding load_runnable
  renew_instance user ref = do
    found ← load_runnable ref
    r ← active_or_missing user found.challenge.id
    reject_if (leb_ℤ found.challenge.max_renew_count (pos r.inst.renew_count)) renew_limit_reached
    now ← read_clock o
    updated ←
        map_error (not_found_as instance_not_found)
          (renew_row o r.id (extended r.inst now found.challenge.ttl))
    pure (with_url found.challenge updated.inst)

  unfoldable pub delete_instance : ℕ → Text → M o Instance
  unfolding load_dynamic
  delete_instance user ref = do
    found ← load_dynamic ref
    r ← active_or_missing user found.challenge.id
    manager_stop o r.inst.container_id
    now ← read_clock o
    terminate_row o r.id now
    pure (with_url found.challenge (terminated now r.inst))
