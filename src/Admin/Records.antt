-- ===== src/Admin/Records.antt =====
-- backend/internal/store/admin_repository.go: the calls on users, audit logs, announcements and
-- instances.
use ctf_recruit.Base.{
  ℕ, suc, Text, not, Option, none, some, List, ◌∷◌, map, ℤ, Result, ok, err, keep, codes, ◌==◌,
  nat_eq, text_eq, if◌then◌else◌, contains,
}
use ctf_recruit.Admin.{
  Error, resource_not_found, store_error, UserRecord, UpdateUserInput, Announcement,
  CreateAnnouncementInput, InstanceRecord,
}
use ctf_recruit.Admin.World.{
  Outside, M, Db, ChallengeRow, InstanceRow, AnnouncementRow, exec, query,
}
use ctf_recruit.Admin.Store.{first, found}

abbrev set_user : UpdateUserInput → ℕ → UserRecord → UserRecord
set_user input id u =
    if u.id == id
    then record u { role = input.role; display_name = input.display_name; status = input.status }
    else u

-- UPDATE users ... FROM roles: no such user or no such role is no row.
unfoldable pub update_user_row : ℕ → UpdateUserInput → Db → Result Error UserRecord × Db
unfolding first
update_user_row id input db =
    let users = map (set_user input id) db.users in
    if contains db.roles input.role
    then (found (first (λ u. u.id == id) users), record db { users = users })
    else (err resource_not_found, db)

unfoldable pub insert_audit_log : ℕ → Text → Text → Text → ℤ → Db → Result Error (Unit {0}) × Db
insert_audit_log actor action kind id now db = (
  ok tt,
  record db {
    audit_logs =
        record {
          actor_user_id = actor;
          action = action;
          resource_type = kind;
          resource_id = id;
          created_at = now;
        }
        ∷ db.audit_logs;
  },
)

abbrev announced : CreateAnnouncementInput → ℕ → ℤ → Announcement
announced input id now = record {
  id = id;
  title = input.title;
  content = input.content;
  pinned = input.pinned;
  published = input.published;
  published_at = if input.published then some now else none;
}

unfoldable pub insert_announcement :
    CreateAnnouncementInput → ℤ → Db → Result Error Announcement × Db
insert_announcement input now db =
    let item = announced input db.next_announcement now in
    if contains db.contests (codes "recruit-2025")
    then (
      ok item,
      record db {
        announcements = record { shown = item; created_at = now } ∷ db.announcements;
        next_announcement = suc db.next_announcement;
      },
    )
    else (err store_error, db)

abbrev shown_of : Option AnnouncementRow → Result Error Announcement
shown_of none = err resource_not_found
shown_of (some a) = ok a.shown

unfoldable pub delete_announcement_row : ℕ → Db → Result Error Announcement × Db
unfolding first
delete_announcement_row id db = (
  shown_of (first (λ a. a.shown.id == id) db.announcements),
  record db { announcements = keep (λ a. not (a.shown.id == id)) db.announcements },
)

abbrev joined : InstanceRow → Option ChallengeRow → Option UserRecord → Result Error InstanceRecord
joined i (some c) (some u) = ok (record {
  id = i.id;
  challenge_id = c.id;
  challenge_slug = c.slug;
  username = u.username;
  status = i.status;
  host_port = i.host_port;
  expires_at = i.expires_at;
  terminated_at = i.terminated_at;
  container_id = i.container_id;
})
joined i c u = err resource_not_found

-- The joins of an instance with its challenge and its user.
unfoldable pub join_instance : Db → InstanceRow → Result Error InstanceRecord
unfolding first
join_instance db i =
    joined i (first (λ c. c.id == i.challenge_id) db.challenges)
      (first (λ u. u.id == i.user_id) db.users)

abbrev join_found : Db → Option InstanceRow → Result Error InstanceRecord
join_found db none = err resource_not_found
join_found db (some i) = join_instance db i

unfoldable pub select_instance : ℕ → Db → Result Error InstanceRecord
unfolding first join_instance
select_instance id db = join_found db (first (λ i. i.id == id) db.instances)

abbrev pub ended_at : ℕ → ℤ → InstanceRow → InstanceRow
ended_at id at i =
    if i.id == id then record i { status = codes "terminated"; terminated_at = some at } else i

abbrev pub ended : ℕ → ℤ → Db → Result Error InstanceRecord → Result Error InstanceRecord × Db
ended id at db (err e) = (err e, db)
ended id at db (ok item) = (
  ok (record item { status = codes "terminated"; terminated_at = some at }),
  record db { instances = map (ended_at id at) db.instances },
)

-- UPDATE challenge_instances ... FROM challenges, users: a row that joins is ended, as it is asked.
unfoldable pub update_terminated : ℕ → ℤ → Db → Result Error InstanceRecord × Db
unfolding select_instance
update_terminated id at db = ended id at db (select_instance id db)

module _ (o : Outside) where
  unfoldable pub update_user : ℕ → UpdateUserInput → M o UserRecord
  unfolding exec update_user_row
  update_user id input = exec o (λ t. update_user_row id input)

  unfoldable pub list_users : M o (List UserRecord)
  unfolding query
  list_users = query o (λ db. ok db.users)

  unfoldable pub create_audit_log : ℕ → Text → Text → Text → M o (Unit {0})
  unfolding exec insert_audit_log
  create_audit_log actor action kind id = exec o (insert_audit_log actor action kind id)

  unfoldable pub create_announcement : CreateAnnouncementInput → M o Announcement
  unfolding exec insert_announcement
  create_announcement input = exec o (insert_announcement input)

  unfoldable pub delete_announcement : ℕ → M o Announcement
  unfolding exec delete_announcement_row
  delete_announcement id = exec o (λ t. delete_announcement_row id)

  unfoldable pub get_instance : ℕ → M o InstanceRecord
  unfolding query select_instance
  get_instance id = query o (select_instance id)

  unfoldable pub terminate_instance : ℕ → ℤ → M o InstanceRecord
  unfolding exec update_terminated
  terminate_instance id at = exec o (λ t. update_terminated id at)
