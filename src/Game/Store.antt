-- ===== src/Game/Store.antt =====
-- backend/internal/store/game_repository.go: the tables of the game and the statements on them, with
-- the constraints of backend/migrations/0001_initial_schema.sql.
use ctf_recruit.Base.{
  ℕ, suc, Text, Bool, not, ◌&&◌, Option, none, some, List, [], ◌∷◌, map, ℤ, Result, ok, err, ltb,
  keep, count, codes, trim_space, to_lower, all_codes, is_digit, digits_value, ◌==◌, nat_eq,
  text_eq, if◌then◌else◌,
}
use ctf_recruit.Base.Exec.{Exec, ◌>>=◌, pure}
use ctf_recruit.Game.{
  Error, challenge_not_found, attachment_not_found, store_error, Attachment, Challenge,
}

-- A row of challenge_attachments.
pub record AttachmentRow : Type 0 where
  pub id : ℕ
  pub challenge_id : ℕ
  pub filename : Text
  pub storage_path : Text
  pub content_type : Text
  pub size_bytes : ℕ

-- A row of challenges, with its category's slug.
pub record ChallengeRow : Type 0 where
  pub id : ℕ
  pub slug : Text
  pub title : Text
  pub category : Text
  pub points : ℤ
  pub difficulty : Text
  pub description : Text
  pub flag_type : Text
  pub flag_value : Text
  pub dynamic_enabled : Bool
  pub status : Text

-- A row of users, with its role's name.
pub record UserRow : Type 0 where
  pub id : ℕ
  pub role : Text
  pub username : Text
  pub display_name : Text
  pub status : Text

pub record SubmissionRow : Type 0 where
  pub id : ℕ
  pub challenge_id : ℕ
  pub user_id : ℕ
  pub submitted_flag : Text
  pub is_correct : Bool
  pub submitted_at : ℤ
  pub source_ip : Text

pub record SolveRow : Type 0 where
  pub id : ℕ
  pub challenge_id : ℕ
  pub user_id : ℕ
  pub submission_id : ℕ
  pub awarded_points : ℤ
  pub solved_at : ℤ

-- Attachments by ascending id, submissions and solves newest first, with the sequences of their keys.
pub record Db : Type 0 where
  pub challenges : List ChallengeRow
  pub attachments : List AttachmentRow
  pub users : List UserRow
  pub submissions : List SubmissionRow
  pub solves : List SolveRow
  pub next_submission : ℕ
  pub next_solve : ℕ

-- The database's clock and failures, and `others`: what other requests write between two statements
-- of this one. `Regexp` is a compiled pattern of package regexp; `fold` is Unicode's table of simple
-- case folding, one code point for all that are equal under folding.
pub record Outside : Type 1 where
  pub State : Type 0
  pub now : State → ℤ × State
  pub db_fault : State → Bool × State
  pub others : State → Db → Db
  pub Regexp : Type 0
  pub compile : Text → Option Regexp
  pub match_string : Regexp → Text → Bool
  pub fold : ℕ → ℕ

pub record World (o : Outside) : Type 0 where
  pub db : Db
  pub out : o.State

abbrev pub M : Outside → Type 0 → Type 0
M o A = Exec (World o) Error A

-- `LIMIT 1` over the rows that pass a test.
unfoldable pub first : {A : Type 0} → (A → Bool) → List A → Option A
first p [] = none
first p (x ∷ xs) = if p x then some x else first p xs

abbrev is_published : ChallengeRow → Bool
is_published c = c.status == codes "published"

-- Which challenge a reference names: by id if it is a number of type int64, else by slug.
unfoldable pub matches_ref : Text → ChallengeRow → Bool
matches_ref ref c =
    if not (trim_space ref == codes "")
      && all_codes is_digit ref
      && ltb (digits_value 0 ref) 9223372036854775808
    then is_published c && c.id == digits_value 0 ref
    else is_published c && to_lower c.slug == to_lower ref

abbrev attachment : AttachmentRow → Attachment
attachment a = record {
  id = a.id;
  filename = a.filename;
  content_type = a.content_type;
  size_bytes = a.size_bytes;
}

unfoldable pub select_attachments : ℕ → Db → List Attachment
select_attachments challenge db =
    map attachment (keep (λ a. a.challenge_id == challenge) db.attachments)

abbrev challenge_found : Option ChallengeRow → Result Error ChallengeRow
challenge_found none = err challenge_not_found
challenge_found (some c) = ok c

unfoldable pub select_challenge : Text → Db → Result Error ChallengeRow
unfolding first matches_ref
select_challenge ref db = challenge_found (first (matches_ref ref) db.challenges)

abbrev pub challenge_of : ChallengeRow → List Attachment → Challenge
challenge_of c attachments = record {
  id = c.id;
  slug = c.slug;
  title = c.title;
  category = c.category;
  points = c.points;
  difficulty = c.difficulty;
  description = c.description;
  flag_type = c.flag_type;
  dynamic = c.dynamic_enabled;
  attachments = attachments;
}

abbrev attachment_found : Option AttachmentRow → Result Error (Attachment × Text)
attachment_found none = err attachment_not_found
attachment_found (some a) = ok (attachment a, a.storage_path)

unfoldable pub select_attachment : ℕ → ℕ → Db → Result Error (Attachment × Text)
unfolding first
select_attachment challenge key db =
    attachment_found (first (λ a. (a.challenge_id == challenge) && (a.id == key)) db.attachments)

unfoldable pub insert_submission : ℕ → ℕ → Text → Bool → Text → ℤ → Db → Result Error (ℕ × ℤ) × Db
insert_submission challenge user flag correct ip now db = (
  ok (db.next_submission, now),
  record db {
    submissions =
        record {
          id = db.next_submission;
          challenge_id = challenge;
          user_id = user;
          submitted_flag = flag;
          is_correct = correct;
          submitted_at = now;
          source_ip = ip;
        }
        ∷ db.submissions;
    next_submission = suc db.next_submission;
  },
)

unfoldable pub is_solve : ℕ → ℕ → SolveRow → Bool
is_solve challenge user s = (s.challenge_id == challenge) && (s.user_id == user)

unfoldable pub select_solved : ℕ → ℕ → Db → Bool
select_solved challenge user db = ltb 0 (count (is_solve challenge user) db.solves)

-- The instant that Go's `time.Time{}` stands for: the first of January of year 1, in nanoseconds.
abbrev pub zero_time : ℤ
zero_time = ℤ.negsuc 62135596799999999999

-- ON CONFLICT (challenge_id, user_id) DO NOTHING: no row comes back and the zero time is returned. A
-- submission is the origin of one solve at most.
unfoldable pub insert_solve : ℕ → ℕ → ℕ → ℤ → ℤ → Db → Result Error ℤ × Db
unfolding select_solved
insert_solve challenge user submission points now db =
    if select_solved challenge user db
    then (ok zero_time, db)
    else if ltb 0 (count (λ s. s.submission_id == submission) db.solves)
    then (err store_error, db)
    else (
      ok now,
      record db {
        solves =
            record {
              id = db.next_solve;
              challenge_id = challenge;
              user_id = user;
              submission_id = submission;
              awarded_points = points;
              solved_at = now;
            }
            ∷ db.solves;
        next_solve = suc db.next_solve;
      },
    )

module _ (o : Outside) where
  -- A statement at the instant that the database's clock gives, after what others have written. It
  -- fails with no effect, or does what it says.
  unfoldable pub exec : {A : Type 0} → (ℤ → Db → Result Error A × Db) → M o A
  exec f w =
      let db = o.others w.out w.db in
      let s = (o.db_fault w.out).1 in
      if (o.db_fault w.out).0
      then (err store_error, record w { db = db; out = s })
      else ((f (o.now s).0 db).0, record w { db = (f (o.now s).0 db).1; out = (o.now s).1 })

  unfoldable pub query : {A : Type 0} → (Db → Result Error A) → M o A
  unfolding exec
  query f = exec (λ now db. (f db, db))

  unfoldable pub list_challenge_attachments : ℕ → M o (List Attachment)
  list_challenge_attachments challenge = query (λ db. ok (select_attachments challenge db))

  unfoldable pub get_challenge : Text → M o (Challenge × Text)
  unfolding list_challenge_attachments
  get_challenge ref = do
    c ← query (select_challenge ref)
    attachments ← list_challenge_attachments c.id
    pure (challenge_of c attachments, c.flag_value)

  unfoldable pub get_challenge_attachment : Text → ℕ → M o (Attachment × Text)
  unfolding get_challenge
  get_challenge_attachment ref key = do
    (c, _) ← get_challenge ref
    query (select_attachment c.id key)

  unfoldable pub create_submission : ℕ → ℕ → Text → Bool → Text → M o (ℕ × ℤ)
  create_submission challenge user flag correct ip =
      exec (insert_submission challenge user flag correct ip)

  unfoldable pub has_solved : ℕ → ℕ → M o Bool
  has_solved challenge user = query (λ db. ok (select_solved challenge user db))

  unfoldable pub create_solve : ℕ → ℕ → ℕ → ℤ → M o ℤ
  create_solve challenge user submission points =
      exec (insert_solve challenge user submission points)
