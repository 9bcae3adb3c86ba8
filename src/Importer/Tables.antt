-- ===== src/Importer/Tables.antt =====
-- backend/internal/challengeimport/importer.go: upsertChallenge, upsertRuntimeConfig and the authors
-- of a specification, on the tables of the administration.
use ctf_recruit.Base.{
  ℕ, suc, ◌-◌, ◌/◌, Text, not, ◌&&◌, ◌||◌, Option, none, some, List, [], ◌∷◌, ◌++◌, map, ℤ, pos,
  negsuc, Result, ok, err, keep, second, trim_space, ◌==◌, nat_eq, text_eq, if◌then◌else◌, contains,
}
use ctf_recruit.Base.Dict
use ctf_recruit.Admin
use ctf_recruit.Admin.{Error, store_error, RuntimeConfig}
use ctf_recruit.Admin.World.{Db, ChallengeRow}
use ctf_recruit.Admin.Store.{first, exists_challenge}
use ctf_recruit.Importer.{ChallengeRuntime, ChallengeSpec}

-- The row that a specification describes.
abbrev pub row_of_spec : ChallengeSpec → ℕ → ChallengeRow
row_of_spec s id = record {
  id = id;
  slug = s.metadata.slug;
  title = s.metadata.title;
  category = s.metadata.category;
  description = s.content.description;
  points = s.metadata.points;
  difficulty = s.metadata.difficulty;
  flag_type = s.flag.flag_type;
  flag_value = s.flag.value;
  dynamic_enabled = s.metadata.dynamic;
  status = s.metadata.status;
  visible = s.metadata.visible;
  sort_order = s.metadata.sort_order;
}

abbrev pub overwritten : ChallengeSpec → ChallengeRow → ChallengeRow
overwritten s c = if c.slug == s.metadata.slug then row_of_spec s c.id else c

-- The row is inserted, or the row with its slug is overwritten; a key is drawn in either case.
abbrev pub on_conflict : ChallengeSpec → Db → Option ChallengeRow → Result Error ℕ × Db
on_conflict s db none = (
  ok db.next_challenge,
  record db {
    challenges = db.challenges ++ (row_of_spec s db.next_challenge ∷ []);
    next_challenge = suc db.next_challenge;
  },
)
on_conflict s db (some c) = (
  ok c.id,
  record db {
    challenges = map (overwritten s) db.challenges;
    next_challenge = suc db.next_challenge;
  },
)

-- upsertChallenge: no contest or no category is no row, and an error.
unfoldable pub upsert_challenge : Text → ChallengeSpec → Db → Result Error ℕ × Db
unfolding first
upsert_challenge contest s db =
    if contains db.contests contest && contains db.categories s.metadata.category
    then on_conflict s db (first (λ c. c.slug == s.metadata.slug) db.challenges)
    else (err store_error, db)

-- int(d / time.Second), which rounds towards zero.
unfoldable pub whole_seconds : ℤ → ℤ
whole_seconds (pos n) = pos (n / second)
whole_seconds (negsuc n) = let k = suc n / second in if k == 0 then pos 0 else negsuc (k - 1)

abbrev or_nothing : {A : Type 0} → Option (List A) → List A
or_nothing none = []
or_nothing (some xs) = xs

abbrev pub config_of_runtime : ChallengeRuntime → RuntimeConfig
config_of_runtime r = record {
  enabled = r.enabled;
  image_name = r.image_name;
  exposed_protocol = r.exposed_protocol;
  container_port = r.container_port;
  default_ttl = whole_seconds r.ttl;
  max_renew_count = r.max_renew_count;
  memory_limit_mb = r.memory_limit_mb;
  cpu_milli = r.cpu_milli;
  max_active_instances = r.max_active_instances;
  user_cooldown = whole_seconds r.user_cooldown;
  env = or_nothing r.env;
  command = or_nothing r.command;
}

-- upsertRuntimeConfig
unfoldable pub upsert_config : ℕ → ChallengeRuntime → Db → Result Error (Unit {0}) × Db
unfolding whole_seconds
upsert_config challenge r db =
    if exists_challenge challenge db
    then (
      ok tt,
      record db {
        runtime_configs = Dict.insert challenge (config_of_runtime r) db.runtime_configs;
      },
    )
    else (err store_error, db)

-- normalizedOwnerRefs
unfoldable pub normalized_owner_refs : ChallengeSpec → List Text
normalized_owner_refs s =
    let owner = trim_space s.ownership.author in
    let author = trim_space s.content.author in
    (if owner == [] then [] else owner ∷ [])
    ++ (if author == [] || author == owner then [] else author ∷ [])

abbrev user_id_of : Option Admin.UserRecord → Option ℕ
user_id_of none = none
user_id_of (some u) = some u.id

-- ResolveUserIDByAuthorRef: the first user, by key, with this name or this address.
unfoldable pub resolve_user_id : Text → Db → Option ℕ
unfolding first
resolve_user_id ref db =
    let value = trim_space ref in
    if value == []
    then none
    else user_id_of (first (λ u. u.username == value || u.email == value) db.users)

-- A file of the challenge in the storage directory.
unfoldable pub insert_file : ℕ → Text → Text → Text → ℕ → Db → Result Error (Unit {0}) × Db
insert_file challenge filename path content_type size db =
    if exists_challenge challenge db
    then (
      ok tt,
      record db {
        attachments =
            db.attachments
            ++ (record {
              id = db.next_attachment;
              challenge_id = challenge;
              filename = filename;
              storage_path = path;
              content_type = content_type;
              size_bytes = size;
            }
                ∷ []);
        next_attachment = suc db.next_attachment;
      },
    )
    else (err store_error, db)

unfoldable pub delete_files : ℕ → Db → Result Error (Unit {0}) × Db
delete_files challenge db = (
  ok tt,
  record db { attachments = keep (λ a. not (a.challenge_id == challenge)) db.attachments },
)
