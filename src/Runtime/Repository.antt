-- ===== src/Runtime/Repository.antt =====
-- backend/internal/store/runtime_repository.go: each statement as a function on the tables, with the
-- unique index of backend/migrations/0001_initial_schema.sql. `query` and `exec` add the failures.
use ctf_recruit.Base.{
  ℕ, suc, Text, Bool, true, not, ◌&&◌, ◌||◌, Option, none, some, List, [], ◌∷◌, map, ℤ, scale,
  second, ltb, leb_ℤ, ltb_ℤ, Result, ok, err, keep, count, codes, trim_space, to_lower, all_codes,
  is_digit, digits_value, ◌==◌, nat_eq, text_eq, int_eq, if◌then◌else◌,
}
use ctf_recruit.Base.Decimal.{decimal}
use ctf_recruit.Runtime.{
  Error, repository_not_found, store_error, ChallengeConfig, ChallengeSummary, Instance,
  RuntimeConfigRecord, InstanceRecord, is_active, status_terminated,
}
use ctf_recruit.Runtime.World.{Outside, M, Db, ChallengeRow, RuntimeConfigRow, exec, query}
use mathlib.Core.List.{reverse}

-- `LIMIT 1` over the rows that pass a test; no row is ErrRepositoryNotFound.
unfoldable pub first {ℓ} : {A : Type ℓ} → (A → Bool) → List A → Option A
first p [] = none
first p (x ∷ xs) = if p x then some x else first p xs

abbrev pub or_not_found : {A : Type 0} → Option A → Result Error A
or_not_found none = err repository_not_found
or_not_found (some a) = ok a

abbrev pub is_published : ChallengeRow → Bool
is_published c = c.status == codes "published"

summary : ChallengeRow → ChallengeSummary
summary c = record {
  id = decimal c.id;
  slug = c.slug;
  title = c.title;
  category = c.category;
  points = c.points;
  difficulty = c.difficulty;
  dynamic = c.dynamic_enabled;
}

unfoldable pub select_challenges : Db → List ChallengeSummary
unfolding summary
select_challenges db = map summary (keep is_published db.challenges)

-- Which challenge a reference names: by id if it is a number of type int64, else by slug.
unfoldable pub matches_ref : Text → ChallengeRow → Bool
matches_ref ref c =
    if not (trim_space ref == codes "")
      && all_codes is_digit ref
      && ltb (digits_value 0 ref) 9223372036854775808
    then is_published c && c.id == digits_value 0 ref
    else is_published c && to_lower c.slug == to_lower ref

-- LEFT JOIN … ON … rc.enabled = TRUE
abbrev enabled_config : Option RuntimeConfigRow → Option RuntimeConfigRow
enabled_config none = none
enabled_config (some rc) = if rc.enabled then some rc else none

-- The configuration of a challenge without a runtime row: the columns are NULL.
abbrev plain_config : ChallengeRow → ChallengeConfig
plain_config c = record {
  id = decimal c.id;
  slug = c.slug;
  title = c.title;
  category = c.category;
  points = c.points;
  dynamic = c.dynamic_enabled;
  image_name = [];
  exposed_protocol = [];
  container_port = ℤ.pos 0;
  ttl = ℤ.pos 0;
  max_renew_count = ℤ.pos 0;
  memory_limit_mb = ℤ.pos 0;
  cpu_milli = ℤ.pos 0;
  max_active_instances = ℤ.pos 0;
  user_cooldown = ℤ.pos 0;
  env = [];
  command = [];
}

abbrev config_record : ChallengeRow → Option RuntimeConfigRow → RuntimeConfigRecord
config_record c none = record { id = 0; challenge = plain_config c }
config_record c (some rc) = record {
  id = rc.id;
  challenge = record (plain_config c) {
    image_name = rc.image_name;
    exposed_protocol = rc.exposed_protocol;
    container_port = rc.container_port;
    ttl = scale second rc.default_ttl_seconds;
    max_renew_count = rc.max_renew_count;
    memory_limit_mb = rc.memory_limit_mb;
    cpu_milli = rc.cpu_limit_millicores;
    max_active_instances = rc.max_active_instances;
    user_cooldown = scale second rc.user_cooldown_seconds;
    env = rc.env;
    command = rc.command;
  };
}

unfoldable pub to_config : ChallengeRow → RuntimeConfigRecord
to_config c = config_record c (enabled_config c.config)

abbrev config_found : Option ChallengeRow → Result Error RuntimeConfigRecord
config_found none = err repository_not_found
config_found (some c) = ok (to_config c)

unfoldable pub select_config : Text → Db → Result Error RuntimeConfigRecord
unfolding first matches_ref
select_config ref db = config_found (first (matches_ref ref) db.challenges)

-- The rows of a user's instances of a challenge.
unfoldable pub is_of : ℕ → Text → InstanceRecord → Bool
is_of user challenge r = (r.inst.user_id == user) && (r.inst.challenge_id == challenge)

unfoldable pub select_active : ℕ → Text → Db → Result Error InstanceRecord
select_active user challenge db =
    or_not_found (first (λ r. is_of user challenge r && is_active r) db.instances)

-- What is read back of an inserted instance: the table has no access URL, and its instants are those
-- of the columns.
abbrev pub stored : (ℤ → ℤ) → Instance → Instance
stored stamp i = record i {
  access_url = [];
  started_at = stamp i.started_at;
  expires_at = stamp i.expires_at;
  terminated_at = none;
}

unfoldable pub insert_instance : ℕ → Instance → Db → Result Error InstanceRecord × Db
unfolding is_of
insert_instance config_id i db =
    let saved : InstanceRecord = record {
      id = db.next_id;
      runtime_config_id = config_id;
      inst = i;
    } in
    let row : InstanceRecord = record {
      id = db.next_id;
      runtime_config_id = config_id;
      inst = stored db.stamp i;
    } in
    let taken = λ (r : InstanceRecord). is_of i.user_id i.challenge_id r && is_active r in
    if is_active row && ltb 0 (count taken db.instances)
    then (err store_error, db)
    else (ok saved, record db { instances = row ∷ db.instances; next_id = suc db.next_id })

-- UPDATE … WHERE id = key AND test
unfoldable pub update_row :
    ℕ → (InstanceRecord → Bool) → (Instance → Instance) → List InstanceRecord → List InstanceRecord
update_row key test change [] = []
update_row key test change (r ∷ rs) =
    if r.id == key && test r
    then record r { inst = change r.inst } ∷ update_row key test change rs
    else r ∷ update_row key test change rs

abbrev pub renewed : ℤ → Instance → Instance
renewed expires i = record i { renew_count = suc i.renew_count; expires_at = expires }

abbrev renewed_row : ℕ → ℤ → Db → Option InstanceRecord → Result Error InstanceRecord × Db
renewed_row key expires db none = (err repository_not_found, db)
renewed_row key expires db (some r) = (
  ok (record r { inst = renewed (db.stamp expires) r.inst }),
  record db { instances = update_row key is_active (renewed (db.stamp expires)) db.instances },
)

unfoldable pub update_renewed : ℕ → ℤ → Db → Result Error InstanceRecord × Db
unfolding first update_row
update_renewed key expires db =
    renewed_row key expires db (first (λ r. (r.id == key) && is_active r) db.instances)

abbrev pub terminated : ℤ → Instance → Instance
terminated at i = record i { status = status_terminated; terminated_at = some at }

unfoldable pub update_terminated : ℕ → ℤ → Db → Result Error (Unit {0}) × Db
unfolding update_row
update_terminated key at db =
    if ltb 0 (count (λ r. r.id == key) db.instances)
    then (
      ok tt,
      record db { instances = update_row key (λ _. true) (terminated (db.stamp at)) db.instances },
    )
    else (err repository_not_found, db)

unfoldable pub count_active : Text → Db → ℕ
count_active challenge db =
    count (λ r. (r.inst.challenge_id == challenge) && is_active r) db.instances

-- The later start comes first, and the later id where two starts are equal.
abbrev is_newer : InstanceRecord → InstanceRecord → Bool
is_newer a b =
    ltb_ℤ b.inst.started_at a.inst.started_at
    || ((a.inst.started_at == b.inst.started_at) && ltb b.id a.id)

abbrev newer : InstanceRecord → Option InstanceRecord → Option InstanceRecord
newer r none = some r
newer r (some best) = if is_newer best r then some best else some r

unfoldable pub latest : List InstanceRecord → Option InstanceRecord
latest [] = none
latest (r ∷ rs) = newer r (latest rs)

unfoldable pub select_latest : ℕ → Text → Db → Result Error InstanceRecord
unfolding is_of latest
select_latest user challenge db = or_not_found (latest (keep (is_of user challenge) db.instances))

-- ORDER BY id ASC: the rows are kept newest first.
unfoldable pub select_all_active : Db → List InstanceRecord
select_all_active db = reverse (keep is_active db.instances)

-- The ports in table order; the one caller makes a set of them.
unfoldable pub active_ports : List InstanceRecord → List ℕ
active_ports rows =
    map (λ r. r.inst.host_port) (keep (λ r. is_active r && ltb 0 r.inst.host_port) rows)

-- ORDER BY expires_at ASC
unfoldable pub insert_by_expiry : InstanceRecord → List InstanceRecord → List InstanceRecord
insert_by_expiry r [] = r ∷ []
insert_by_expiry r (x ∷ xs) =
    if leb_ℤ r.inst.expires_at x.inst.expires_at then r ∷ x ∷ xs else x ∷ insert_by_expiry r xs

unfoldable pub sort_by_expiry : List InstanceRecord → List InstanceRecord
unfolding insert_by_expiry
sort_by_expiry [] = []
sort_by_expiry (r ∷ rs) = insert_by_expiry r (sort_by_expiry rs)

abbrev pub is_expired : ℤ → InstanceRecord → Bool
is_expired now r = is_active r && leb_ℤ r.inst.expires_at now

unfoldable pub select_expired : ℤ → Db → List InstanceRecord
unfolding sort_by_expiry
select_expired now db = sort_by_expiry (keep (is_expired now) db.instances)

-- The methods of RuntimeRepository.
module _ (o : Outside) where
  unfoldable pub list_challenges : M o (List ChallengeSummary)
  list_challenges = query o (λ db. ok (select_challenges db))

  unfoldable pub get_challenge_config : Text → M o RuntimeConfigRecord
  get_challenge_config ref = query o (select_config ref)

  unfoldable pub get_active_instance : ℕ → Text → M o InstanceRecord
  get_active_instance user challenge = query o (select_active user challenge)

  unfoldable pub create_instance : ℕ → Instance → M o InstanceRecord
  create_instance config_id i = exec o (insert_instance config_id i)

  unfoldable pub renew_row : ℕ → ℤ → M o InstanceRecord
  renew_row key expires = exec o (update_renewed key expires)

  unfoldable pub terminate_row : ℕ → ℤ → M o (Unit {0})
  terminate_row key at = exec o (update_terminated key at)

  unfoldable pub list_expired_instances : ℤ → M o (List InstanceRecord)
  list_expired_instances now = query o (λ db. ok (select_expired now db))

  unfoldable pub list_active_instances : M o (List InstanceRecord)
  list_active_instances = query o (λ db. ok (select_all_active db))

  unfoldable pub list_active_host_ports : M o (List ℕ)
  list_active_host_ports = query o (λ db. ok (active_ports db.instances))

  unfoldable pub count_active_instances : Text → M o ℕ
  count_active_instances challenge = query o (λ db. ok (count_active challenge db))

  unfoldable pub get_latest_instance : ℕ → Text → M o InstanceRecord
  get_latest_instance user challenge = query o (select_latest user challenge)
