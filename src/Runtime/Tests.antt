-- ===== src/Runtime/Tests.antt =====
-- Examples for backend/internal/runtime: one challenge with one instance at a time, on three ports.
use ctf_recruit.Base.{
  ℕ, suc, ◌≤◌, ◌≡◌, refl, true, false, none, some, List, [], ◌∷◌, pos, ok, arith, codes, All, count,
  ◌&&◌, ◌==◌, nat_eq, text_eq, text_beq, trim_space, all_codes, to_lower, scale, contains, ◌+ℤ◌,
  contains_text, has_prefix, digits_value,
}
use ctf_recruit.Base.Decimal.{decimal}
use ctf_recruit.Runtime.{ServiceConfig, Instance, InstanceRecord, status_running, is_active}
use ctf_recruit.Runtime.World.{
  Outside, World, ChallengeRow, read_clock, query, manager_start, manager_stop,
}
use ctf_recruit.Runtime.Repository.{
  first, to_config, count_active, is_of, is_expired, list_expired_instances, select_expired,
  terminate_row, update_terminated, get_challenge_config, select_config, get_active_instance,
  select_active, count_active_instances, list_active_host_ports, active_ports, create_instance,
  insert_instance,
}
use ctf_recruit.Runtime.Service.{
  check_capacity, check_cooldown, new_instance, build_access_url, start_instance, get_instance,
  renew_instance, delete_instance,
}
use ctf_recruit.Runtime.Background.{sweep_expired}
use ctf_recruit.Runtime.Replies.{
  StartAnswered, start_instance-Answered, RenewAnswered, renew_instance-Answered, DeleteAnswered,
  delete_instance-Answered,
}
use ctf_recruit.Runtime.Writes.{Writes, run-Writes}
use ctf_recruit.Runtime.History.{Call, run}
use ctf_recruit.Runtime.Limits.{run_capacity, run_unique}
use ctf_recruit.Runtime.Ports.{uses_port, is_outside, run_ports_distinct, run_ports_in_range}
use ctf_recruit.Runtime.Keys.{Keyed, run_ended}
use ctf_recruit.Runtime.Renewals.{Within, run_renewals}
use ctf_recruit.Runtime.Found.{get_started}
use ctf_recruit.Runtime.Live.{calls_succeed}
use ctf_recruit.Runtime.Swept.{sweep_expired_lem}

-- The clock counts the readings, and the daemon does what it is asked for.
abbrev outside : Outside
outside = record {
  State = ℕ;
  now = λ s. (pos s, suc s);
  db_fault = λ s. (false, s);
  start = λ req s. (
    ok (record {
      container_id = codes "c1";
      container_name = codes "web";
      host_ip = req.bind_addr;
      host_port = req.host_port;
    }),
    s,
  );
  stop = λ id s. (ok tt, s);
  exists = λ id s. (ok true, s);
  list_managed = λ s. (ok [], s);
  hostname = λ base. codes "ctf.example";
}

abbrev service : ServiceConfig
service = record {
  public_base_url = codes "http://ctf.example";
  runtime_base_url = codes "http://ctf.example";
  bind_addr = codes "127.0.0.1";
  port_min = pos 20000;
  port_max = pos 20002;
}

abbrev web : ChallengeRow
web = record {
  id = 1;
  slug = codes "web";
  title = codes "Web";
  category = codes "web";
  points = pos 100;
  difficulty = codes "easy";
  status = codes "published";
  dynamic_enabled = true;
  config = some (record {
    id = 3;
    enabled = true;
    image_name = codes "img";
    exposed_protocol = codes "http";
    container_port = pos 80;
    default_ttl_seconds = pos 60;
    max_renew_count = pos 1;
    memory_limit_mb = pos 64;
    cpu_limit_millicores = pos 100;
    max_active_instances = pos 1;
    user_cooldown_seconds = pos 0;
    env = [];
    command = [];
  });
}

-- An active instance of user 9 that ends at once.
abbrev old_row : InstanceRecord
old_row = record {
  id = 4;
  runtime_config_id = 3;
  inst = record {
    challenge_id = codes "1";
    user_id = 9;
    status = status_running;
    access_url = [];
    host_port = 20001;
    renew_count = 0;
    started_at = pos 0;
    expires_at = pos 2;
    terminated_at = none;
    container_id = codes "c0";
    container_name = codes "web";
    host_ip = codes "127.0.0.1";
  };
}

abbrev world : World outside
world = record {
  db = record { challenges = web ∷ []; instances = old_row ∷ []; next_id = 5; stamp = λ t. t };
  out = 10;
}

abbrev fresh : World outside
fresh = record {
  db = record { challenges = web ∷ []; instances = []; next_id = 1; stamp = λ t. t };
  out = 10;
}

abbrev calls : List (Call outside service)
calls =
    Call.starts 7 (codes "web")
    ∷ Call.sweeps
    ∷ Call.starts 7 (codes "web")
    ∷ Call.renews 7 (codes "1")
    ∷ Call.deletes 7 (codes "web")
    ∷ []

run_capacity_example : count_active (codes "1") (run outside service calls world).db ≤ 1
unfolding to_config count_active is_active text_beq
run_capacity_example =
    run_capacity outside service (codes "1") 1 calls world (omega arith) (λ _. refl, tt)
      (omega arith)

run_unique_example :
    count (λ r. is_of 9 (codes "1") r && is_active r) (run outside service calls world).db.instances
    ≤ 1
unfolding is_of is_active text_beq
run_unique_example = run_unique outside service 9 (codes "1") calls world (omega arith)

run_ports_distinct_example :
    count (uses_port 20001) (run outside service calls world).db.instances ≤ 1
unfolding is_active text_beq
run_ports_distinct_example =
    run_ports_distinct outside service 20001 calls world (λ req s started e positive. cc) refl
      (omega arith)

run_ports_in_range_example :
    count
      (λ r. is_outside outside service r && is_active r)
      (run outside service calls world).db.instances
    ≤ 0
unfolding is_active text_beq
run_ports_in_range_example =
    run_ports_in_range outside service calls world (λ req s started e positive. cc) refl
      (omega arith)

world-Keyed : Keyed world.db
world-Keyed = record { single = λ k. ground arith; ahead = (omega arith, tt) }

run_ended_example :
    count (λ r. (r.id == 2) && is_active r) (run outside service calls world).db.instances ≡ 0
run_ended_example = run_ended outside service 2 calls world (omega arith) refl

run_renewals_example : All (Within (codes "1") 1) (run outside service calls world).db.instances
unfolding to_config
run_renewals_example =
    run_renewals outside service (codes "1") 1 calls world world-Keyed (λ _. refl, tt)
      (λ _. omega arith, tt)

start_instance-Answered_example :
    StartAnswered outside service 7
      (codes "web")
      fresh.db
      (start_instance outside service 7 (codes "web") fresh).0
      (start_instance outside service 7 (codes "web") fresh).1.db
start_instance-Answered_example = start_instance-Answered outside service 7 (codes "web") fresh

renew_instance-Answered_example :
    RenewAnswered outside service 9
      (codes "web")
      world.db
      (renew_instance outside service 9 (codes "web") world).0
      (renew_instance outside service 9 (codes "web") world).1.db
renew_instance-Answered_example = renew_instance-Answered outside service 9 (codes "web") world

delete_instance-Answered_example :
    DeleteAnswered outside service 9
      (codes "1")
      world.db
      (delete_instance outside service 9 (codes "1") world).0
      (delete_instance outside service 9 (codes "1") world).1.db
delete_instance-Answered_example = delete_instance-Answered outside service 9 (codes "1") world

run-Writes_example : Writes outside service (run outside service calls world).db world.db
run-Writes_example = run-Writes outside service calls world

sweep_expired_lem_example :
    ((sweep_expired outside world).0.0 ≡ count (is_expired (pos 10)) world.db.instances)
    × (count (is_expired (pos 10)) (sweep_expired outside world).1.db.instances ≡ 0)
unfolding sweep_expired is_active text_beq read_clock list_expired_instances query select_expired
    manager_stop terminate_row update_terminated
sweep_expired_lem_example = sweep_expired_lem outside world refl

-- What a start in `fresh` returns.
abbrev first_instance : Instance
first_instance = record {
  challenge_id = codes "1";
  user_id = 7;
  status = status_running;
  access_url = codes "http://ctf.example:20000";
  host_port = 20000;
  renew_count = 0;
  started_at = pos 10;
  expires_at = pos 60000000010;
  terminated_at = none;
  container_id = codes "c1";
  container_name = codes "web";
  host_ip = codes "127.0.0.1";
}

get_started_example :
    (get_instance outside service 7
      (codes "web")
      (start_instance outside service 7 (codes "web") fresh).1).0
    ≡ ok first_instance
unfolding start_instance get_challenge_config query select_config text_beq trim_space all_codes
    to_lower to_config get_active_instance select_active count_active_instances count_active scale
    list_active_host_ports contains active_ports manager_start decimal ◌+ℤ◌ contains_text has_prefix
    create_instance insert_instance read_clock build_access_url is_active check_capacity
    check_cooldown is_of new_instance
get_started_example =
    get_started outside service 7 (codes "web") fresh first_instance true (λ s. refl) refl

calls_succeed_example :
    ((i : Instance) × ((get_instance outside service 9 (codes "1") world).0 ≡ ok i))
    × ((i : Instance) × ((delete_instance outside service 9 (codes "1") world).0 ≡ ok i))
    × ((i : Instance) × ((renew_instance outside service 9 (codes "1") world).0 ≡ ok i))
unfolding select_config text_beq trim_space all_codes to_lower to_config select_active scale
    is_active is_of decimal contains_text has_prefix contains first digits_value
calls_succeed_example =
    calls_succeed outside service 9 (codes "1") (to_config web) old_row world (λ s. refl)
      (λ id s. refl) refl refl refl ((λ e. cc), (λ e. cc), (λ e. cc)) (omega arith)
