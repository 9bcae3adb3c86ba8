-- ===== src/Admin/Store.antt =====
-- backend/internal/store/admin_repository.go: challenges, their authors and their attachments.
use ctf_recruit.Base.{
  ℕ, suc, Text, Bool, not, ◌&&◌, ◌||◌, Option, none, some, List, [], ◌∷◌, ◌++◌, map, ℤ, Result, ok,
  err, ltb, ltb_ℤ, keep, count, codes, ◌==◌, nat_eq, text_eq, int_eq, if◌then◌else◌, contains,
}
use ctf_recruit.Base.Dict
use ctf_recruit.ChallengeStatus.{normalize_status, is_published}
use ctf_recruit.Game.Store.{AttachmentRow}
use ctf_recruit.Game.Scoreboard.{sort}
use ctf_recruit.Admin.{
  Error, resource_not_found, store_error, not_a_candidate, Actor, restrict_to_owned_challenges,
  RuntimeConfig, no_config, Attachment, ChallengeAuthor, ChallengeSummary, ChallengeDetail,
  UpsertChallengeInput, UserRecord,
}
use ctf_recruit.Admin.World.{Db, ChallengeRow, AuthorRow}

-- LIMIT 1 on a key.
unfoldable pub first {ℓ} : {A : Type ℓ} → (A → Bool) → List A → Option A
first p [] = none
first p (x ∷ xs) = if p x then some x else first p xs

abbrev pub found : {A : Type 0} → Option A → Result Error A
found none = err resource_not_found
found (some a) = ok a

abbrev pub is_author : ℕ → ℕ → AuthorRow → Bool
is_author challenge user a = a.challenge_id == challenge && a.user_id == user

-- The query of challengeOwnedByUser.
unfoldable pub owns : ℕ → ℕ → Db → Bool
owns challenge user db = ltb 0 (count (is_author challenge user) db.authors)

abbrev pub exists_challenge : ℕ → Db → Bool
exists_challenge challenge db = ltb 0 (count (λ c. c.id == challenge) db.challenges)

-- The row of the challenge that an actor may see: an author joins its own row of
-- challenge_authors.
abbrev pub is_shown : Actor → ℕ → Db → ChallengeRow → Bool
is_shown actor challenge db c =
    c.id == challenge
    && (not (restrict_to_owned_challenges actor) || owns challenge actor.user_id db)

-- The query of GetChallenge.
unfoldable pub select_challenge : Actor → ℕ → Db → Result Error ChallengeRow
unfolding first owns
select_challenge actor challenge db = found (first (is_shown actor challenge db) db.challenges)

abbrev pub author_of : Option UserRecord → List ChallengeAuthor
author_of none = []
author_of (some u) =
    record {
      user_id = u.id;
      username = u.username;
      email = u.email;
      display_name = u.display_name;
      role = u.role;
    }
    ∷ []

abbrev earlier : AuthorRow → AuthorRow → Bool
earlier a b =
    ltb_ℤ a.created_at b.created_at || (a.created_at == b.created_at && ltb a.user_id b.user_id)

joined_authors : List UserRecord → List AuthorRow → List ChallengeAuthor
unfolding first
joined_authors users [] = []
joined_authors users (a ∷ rows) =
    author_of (first (λ u. u.id == a.user_id) users) ++ joined_authors users rows

unfoldable pub select_authors : ℕ → Db → List ChallengeAuthor
unfolding joined_authors
select_authors challenge db =
    joined_authors db.users (sort earlier (keep (λ a. a.challenge_id == challenge) db.authors))

abbrev pub attachment_of : AttachmentRow → Attachment
attachment_of a = record {
  id = a.id;
  filename = a.filename;
  content_type = a.content_type;
  size_bytes = a.size_bytes;
}

unfoldable pub select_attachments : ℕ → Db → List Attachment
select_attachments challenge db =
    map attachment_of (keep (λ a. a.challenge_id == challenge) db.attachments)

abbrev config_or_none : Option RuntimeConfig → RuntimeConfig
config_or_none none = no_config
config_or_none (some c) = c

unfoldable pub select_runtime_config : ℕ → Db → RuntimeConfig
select_runtime_config challenge db = config_or_none (Dict.lookup challenge db.runtime_configs)

abbrev pub detail_of :
    ChallengeRow → List ChallengeAuthor → List Attachment → RuntimeConfig → ChallengeDetail
detail_of c authors attachments config = record {
  id = c.id;
  slug = c.slug;
  title = c.title;
  category = c.category;
  description = c.description;
  points = c.points;
  difficulty = c.difficulty;
  flag_type = c.flag_type;
  flag_value = c.flag_value;
  status = normalize_status c.status;
  visible = is_published (normalize_status c.status);
  dynamic_enabled = c.dynamic_enabled;
  sort_order = c.sort_order;
  authors = authors;
  attachments = attachments;
  runtime_config = config;
}

abbrev pub summary_of : UpsertChallengeInput → ℕ → ChallengeSummary
summary_of input id = record {
  id = id;
  slug = input.slug;
  title = input.title;
  category = input.category_slug;
  points = input.points;
  status = input.status;
  visible = input.visible;
  dynamic_enabled = input.dynamic_enabled;
}

abbrev pub row_of : UpsertChallengeInput → ℕ → ChallengeRow
row_of input id = record {
  id = id;
  slug = input.slug;
  title = input.title;
  category = input.category_slug;
  description = input.description;
  points = input.points;
  difficulty = input.difficulty;
  flag_type = input.flag_type;
  flag_value = input.flag_value;
  dynamic_enabled = input.dynamic_enabled;
  status = input.status;
  visible = input.visible;
  sort_order = input.sort_order;
}

abbrev pub slug_taken : Text → List ChallengeRow → Bool
slug_taken slug rows = ltb 0 (count (λ c. c.slug == slug) rows)

-- INSERT ... SELECT FROM contests, categories; no contest or no category is no row, and an error.
unfoldable pub insert_challenge : UpsertChallengeInput → Db → Result Error ℕ × Db
insert_challenge input db =
    if not
      (contains db.contests (codes "recruit-2025") && contains db.categories input.category_slug)
    then (err store_error, db)
    else if slug_taken input.slug db.challenges
    then (err store_error, record db { next_challenge = suc db.next_challenge })
    else (
      ok db.next_challenge,
      record db {
        challenges = db.challenges ++ (row_of input db.next_challenge ∷ []);
        next_challenge = suc db.next_challenge;
      },
    )

-- bindChallengeAuthor, with the foreign keys of the table.
unfoldable pub bind_author : ℕ → ℕ → ℤ → Db → Result Error (Unit {0}) × Db
unfolding owns
bind_author challenge user now db =
    if not (exists_challenge challenge db && ltb 0 (count (λ u. u.id == user) db.users))
    then (err store_error, db)
    else if owns challenge user db
    then (ok tt, db)
    else (
      ok tt,
      record db {
        authors =
            db.authors
            ++ (record { challenge_id = challenge; user_id = user; created_at = now } ∷ []);
      },
    )

-- upsertChallengeRuntimeConfig
unfoldable pub upsert_runtime_config : ℕ → Option RuntimeConfig → Db → Result Error (Unit {0}) × Db
upsert_runtime_config challenge none db = (ok tt, db)
upsert_runtime_config challenge (some config) db =
    if exists_challenge challenge db
    then (ok tt, record db { runtime_configs = Dict.insert challenge config db.runtime_configs })
    else (err store_error, db)

abbrev pub rewrite_row : UpsertChallengeInput → ℕ → ChallengeRow → ChallengeRow
rewrite_row input id c = if c.id == id then row_of input id else c

-- UPDATE challenges ... FROM categories, for an author only where it is an author of the challenge.
unfoldable pub update_challenge_row : Actor → ℕ → UpsertChallengeInput → Db → Result Error ℕ × Db
unfolding owns
update_challenge_row actor challenge input db =
    if not (
      exists_challenge challenge db
      && contains db.categories input.category_slug
      && (not (restrict_to_owned_challenges actor) || owns challenge actor.user_id db))
    then (err resource_not_found, db)
    else if slug_taken input.slug (keep (λ c. not (c.id == challenge)) db.challenges)
    then (err store_error, db)
    else (ok challenge, record db { challenges = map (rewrite_row input challenge) db.challenges })

-- ensureChallengeAuthorCandidate
abbrev candidate_role : ℕ → Option UserRecord → Result Error (Unit {0})
candidate_role user none = err resource_not_found
candidate_role user (some u) =
    if not (u.role == codes "author") && not (u.role == codes "admin")
    then err (not_a_candidate user)
    else ok tt

unfoldable pub select_candidate : ℕ → Db → Result Error (Unit {0})
unfolding first
select_candidate user db = candidate_role user (first (λ u. u.id == user) db.users)

unfoldable pub clear_authors : ℕ → Db → Result Error (Unit {0}) × Db
clear_authors challenge db =
    (ok tt, record db { authors = keep (λ a. not (a.challenge_id == challenge)) db.authors })
