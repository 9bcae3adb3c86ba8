-- ===== src/Admin/World.antt =====
-- What the administration works on: the tables, with what backend/migrations says of them, and what
-- lies outside of the program.
use ctf_recruit.Base.{ℕ, Text, Bool, Option, List, ℤ, Result, ok, err, if◌then◌else◌}
use ctf_recruit.Base.Exec.{Exec}
use ctf_recruit.Base.Dict.{Dict}
use ctf_recruit.Game.Store.{AttachmentRow}
use ctf_recruit.Admin.{Error, store_error, RuntimeConfig, UserRecord, Announcement}

-- A row of challenges, with its category's slug.
pub record ChallengeRow : Type 0 where
  pub id : ℕ
  pub slug : Text
  pub title : Text
  pub category : Text
  pub description : Text
  pub points : ℤ
  pub difficulty : Text
  pub flag_type : Text
  pub flag_value : Text
  pub dynamic_enabled : Bool
  pub status : Text
  pub visible : Bool
  pub sort_order : ℤ

-- A row of challenge_authors.
pub record AuthorRow : Type 0 where
  pub challenge_id : ℕ
  pub user_id : ℕ
  pub created_at : ℤ

-- The columns of challenge_instances that the administration reads and writes.
pub record InstanceRow : Type 0 where
  pub id : ℕ
  pub challenge_id : ℕ
  pub user_id : ℕ
  pub status : Text
  pub host_port : ℕ
  pub expires_at : ℤ
  pub terminated_at : Option ℤ
  pub container_id : Text

-- A row of audit_logs, less its details.
pub record AuditRow : Type 0 where
  pub actor_user_id : ℕ
  pub action : Text
  pub resource_type : Text
  pub resource_id : Text
  pub created_at : ℤ

-- An announcement and when it was made.
pub record AnnouncementRow : Type 0 where
  pub shown : Announcement
  pub created_at : ℤ

-- The slugs of the contests, the slugs of the categories in their order, the names of the roles.
-- Runtime configurations stand under their challenge's key; audit logs and announcements are newest
-- first, attachments by ascending key.
pub record Db : Type 0 where
  pub contests : List Text
  pub categories : List Text
  pub roles : List Text
  pub challenges : List ChallengeRow
  pub runtime_configs : Dict ℕ RuntimeConfig
  pub authors : List AuthorRow
  pub users : List UserRecord
  pub attachments : List AttachmentRow
  pub announcements : List AnnouncementRow
  pub instances : List InstanceRow
  pub audit_logs : List AuditRow
  pub next_challenge : ℕ
  pub next_attachment : ℕ
  pub next_announcement : ℕ

-- The program's clock, the database's clock and failures, the container manager's Stop (true if it
-- stopped; `none` is no manager), and the directory of attachments: writing a file under a
-- challenge, a time and a name gives its path, or fails.
pub record Outside : Type 1 where
  pub State : Type 0
  pub now : State → ℤ × State
  pub db_now : State → ℤ
  pub db_fault : State → Bool × State
  pub stop : Option (Text → State → Bool × State)
  pub write_file : ℕ → ℤ → Text → Text → State → Option Text × State
  pub remove_file : Text → State → State

pub record World (o : Outside) : Type 0 where
  pub db : Db
  pub out : o.State

abbrev pub M : Outside → Type 0 → Type 0
M o A = Exec (World o) Error A

-- ROLLBACK: the tables as they were. The sequences keep the keys that they have given out.
abbrev pub rolled_back : Db → Db → Db
rolled_back before after = record before {
  next_challenge = after.next_challenge;
  next_attachment = after.next_attachment;
  next_announcement = after.next_announcement;
}

module _ (o : Outside) where
  -- `s.now().UTC()`
  unfoldable pub read_clock : M o ℤ
  read_clock w = (ok (o.now w.out).0, record w { out = (o.now w.out).1 })

  -- A statement, on the database's time: it fails with no effect, or does what it says.
  unfoldable pub exec : {A : Type 0} → (ℤ → Db → Result Error A × Db) → M o A
  exec f w =
      let s = (o.db_fault w.out).1 in
      let t = o.db_now w.out in
      if (o.db_fault w.out).0
      then (err store_error, record w { out = s })
      else ((f t w.db).0, record w { db = (f t w.db).1; out = s })

  unfoldable pub query : {A : Type 0} → (Db → Result Error A) → M o A
  unfolding exec
  query f = exec (λ t db. (f db, db))

  -- The end of a transaction that began with the tables `before`.
  unfoldable pub finish : {A : Type 0} → Db → Result Error A × World o → Result Error A × World o
  finish before (err e, w) = (err e, record w { db = rolled_back before w.db })
  finish before (ok a, w) =
      let s = (o.db_fault w.out).1 in
      if (o.db_fault w.out).0
      then (err store_error, record { db = rolled_back before w.db; out = s })
      else (ok a, record w { out = s })

  -- BEGIN, the statements, and COMMIT or ROLLBACK. The time is that of the beginning.
  unfoldable pub transaction : {A : Type 0} → (ℤ → M o A) → M o A
  unfolding finish
  transaction body w =
      let s = (o.db_fault w.out).1 in
      if (o.db_fault w.out).0
      then (err store_error, record w { out = s })
      else finish w.db (body (o.db_now w.out) (record w { out = s }))
