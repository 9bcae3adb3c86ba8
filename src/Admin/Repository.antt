-- ===== src/Admin/Repository.antt =====
-- backend/internal/store/admin_repository.go: the calls on challenges, authors and attachments.
use ctf_recruit.Base.{
  ℕ, suc, Text, not, ◌&&◌, Option, none, some, List, [], ◌∷◌, ◌++◌, ℤ, Result, ok, err, codes, ◌==◌,
  nat_eq, text_eq, if◌then◌else◌,
}
use ctf_recruit.Base.Exec.{◌>>=◌, ◌>>◌, pure, reject_if}
use ctf_recruit.ChallengeStatus.{normalize_status, is_published}
use ctf_recruit.Game.Store.{AttachmentRow}
use ctf_recruit.Admin.{
  Error, resource_not_found, store_error, Actor, restrict_to_owned_challenges, Attachment,
  ChallengeAuthor, ChallengeSummary, ChallengeDetail, UpsertChallengeInput,
}
use ctf_recruit.Admin.World.{Outside, M, Db, ChallengeRow, exec, query, transaction}
use ctf_recruit.Admin.Store.{
  first, owns, exists_challenge, select_challenge, select_authors, select_attachments,
  select_runtime_config, attachment_of, detail_of, summary_of, insert_challenge, bind_author,
  upsert_runtime_config, update_challenge_row, select_candidate, clear_authors,
}

-- A row as ListChallenges shows it.
abbrev pub summary_of_row : ChallengeRow → ChallengeSummary
summary_of_row c = record {
  id = c.id;
  slug = c.slug;
  title = c.title;
  category = c.category;
  points = c.points;
  status = normalize_status c.status;
  visible = is_published (normalize_status c.status);
  dynamic_enabled = c.dynamic_enabled;
}

-- INSERT INTO challenge_attachments
unfoldable pub insert_attachment : ℕ → Text → Text → Text → ℕ → Db → Result Error Attachment × Db
insert_attachment challenge filename path content_type size db =
    let row : AttachmentRow = record {
      id = db.next_attachment;
      challenge_id = challenge;
      filename = filename;
      storage_path = path;
      content_type = content_type;
      size_bytes = size;
    } in
    if exists_challenge challenge db
    then (
      ok (attachment_of row),
      record db {
        attachments = db.attachments ++ (row ∷ []);
        next_attachment = suc db.next_attachment;
      },
    )
    else (err store_error, record db { next_attachment = suc db.next_attachment })

abbrev with_path : AttachmentRow → Attachment × Text
with_path a = (attachment_of a, a.storage_path)

abbrev stored : Option AttachmentRow → Result Error (Attachment × Text)
stored none = err resource_not_found
stored (some a) = ok (with_path a)

unfoldable pub select_attachment : ℕ → ℕ → Db → Result Error (Attachment × Text)
unfolding first
select_attachment challenge id db =
    stored (first (λ a. a.challenge_id == challenge && a.id == id) db.attachments)

module _ (o : Outside) where
  -- A statement of a call that does not use the time.
  abbrev pub write : {A : Type 0} → (Db → Result Error A × Db) → M o A
  write f = exec o (λ t db. f db)

  unfoldable pub get_challenge : Actor → ℕ → M o ChallengeDetail
  unfolding query select_challenge select_authors select_attachments select_runtime_config
  get_challenge actor challenge = query o (select_challenge actor challenge) >>= λ c.
      query o (λ db. ok (select_authors challenge db)) >>= λ authors.
      query o (λ db. ok (select_attachments challenge db)) >>= λ attachments.
      query o (λ db. ok (select_runtime_config challenge db)) >>= λ config.
      pure (detail_of c authors attachments config)

  -- `if actor.RestrictToOwnedChallenges()`
  abbrev bind_creator : Actor → ℕ → ℤ → M o (Unit {0})
  bind_creator actor id at =
      if restrict_to_owned_challenges actor
      then exec o (λ t. bind_author id actor.user_id at)
      else pure tt

  unfoldable pub create_challenge : Actor → UpsertChallengeInput → M o ChallengeSummary
  unfolding transaction exec insert_challenge bind_author upsert_runtime_config
  create_challenge actor input = transaction o (λ at. write (insert_challenge input) >>= λ id.
      bind_creator actor id at
      >> write (upsert_runtime_config id input.runtime_config)
      >> pure (summary_of input id))

  -- The ownership that the calls for an author begin with.
  unfoldable pub check_ownership : Actor → ℕ → M o (Unit {0})
  unfolding query owns
  check_ownership actor challenge =
      if restrict_to_owned_challenges actor
      then (query o (λ db. ok (owns challenge actor.user_id db)) >>= λ allowed.
          reject_if (not allowed) resource_not_found)
      else pure tt

  unfoldable pub list_challenge_authors : Actor → ℕ → M o (List ChallengeAuthor)
  unfolding check_ownership query select_authors
  list_challenge_authors actor challenge =
      check_ownership actor challenge >> query o (λ db. ok (select_authors challenge db))

  -- The loop over the candidates.
  unfoldable pub ensure_candidates : List ℕ → M o (Unit {0})
  unfolding query select_candidate
  ensure_candidates [] = pure tt
  ensure_candidates (user ∷ users) = query o (select_candidate user) >> ensure_candidates users

  -- The loop of SetChallengeAuthors.
  unfoldable pub bind_all : ℕ → ℤ → List ℕ → M o (Unit {0})
  unfolding exec bind_author
  bind_all challenge at [] = pure tt
  bind_all challenge at (user ∷ users) =
      exec o (λ t. bind_author challenge user at) >> bind_all challenge at users

  unfoldable pub set_challenge_authors : ℕ → ℤ → List ℕ → M o (Unit {0})
  unfolding exec clear_authors bind_all
  set_challenge_authors challenge at users =
      write (clear_authors challenge) >> bind_all challenge at users

  unfoldable pub update_challenge_authors : Actor → ℕ → List ℕ → M o (List ChallengeAuthor)
  unfolding query ensure_candidates transaction set_challenge_authors select_authors
  update_challenge_authors actor challenge users =
      reject_if (not (actor.role == codes "admin")) resource_not_found
      >> query o (λ db. ok (exists_challenge challenge db))
      >>= λ known.
          reject_if (not known) resource_not_found
          >> ensure_candidates users
          >> transaction o (λ at. set_challenge_authors challenge at users)
          >> query o (λ db. ok (select_authors challenge db))

  unfoldable pub update_challenge : Actor → ℕ → UpsertChallengeInput → M o ChallengeSummary
  unfolding transaction exec update_challenge_row upsert_runtime_config
  update_challenge actor challenge input = transaction o (λ at.
      write (update_challenge_row actor challenge input) >>= λ id.
      write (upsert_runtime_config challenge input.runtime_config) >> pure (summary_of input id))

  unfoldable pub create_attachment : Actor → ℕ → Text → Text → Text → ℕ → M o Attachment
  unfolding check_ownership exec insert_attachment
  create_attachment actor challenge filename path content_type size =
      check_ownership actor challenge
      >> write (insert_attachment challenge filename path content_type size)

  unfoldable pub get_attachment : ℕ → ℕ → M o (Attachment × Text)
  unfolding query select_attachment
  get_attachment challenge id = query o (select_attachment challenge id)
