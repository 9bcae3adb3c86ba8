-- ===== src/Importer/Import.antt =====
-- backend/internal/challengeimport/importer.go: ImportSpec. The files are those of the state outside.
-- The errors of the code here have a text and no more: `invalid_challenge_input` stands for one on the
-- input, `file_error` for one on the files and `store_error` for one on the tables.
use ctf_recruit.Base.{
  ℕ, Text, Bool, true, false, Option, none, some, List, [], ◌∷◌, ◌++◌, ℤ, Result, ok, err, length,
  trim_space, ◌==◌, nat_eq, text_eq, if◌then◌else◌, contains,
}
use ctf_recruit.Base.Exec.{◌>>=◌, ◌>>◌, pure, throw, reject_if}
use ctf_recruit.Game.Store
use ctf_recruit.Admin.{Error, invalid_challenge_input, file_error}
use ctf_recruit.Admin.World.{Outside, World, M, exec, query, transaction}
use ctf_recruit.Admin.Repository.{set_challenge_authors}
use ctf_recruit.Importer
use ctf_recruit.Importer.{ChallengeSpec, ChallengeRuntime, AttachmentSpec}
use ctf_recruit.Importer.Normal.{normalize_spec}
use ctf_recruit.Importer.Files.{sanitize_filename}
use ctf_recruit.Importer.Tables.{
  upsert_challenge, upsert_config, normalized_owner_refs, resolve_user_id, insert_file,
  delete_files,
}

pub record ImportResult : Type 0 where
  pub path : Text
  pub slug : Text
  pub challenge_id : ℕ
  pub runtime_synced : Bool
  pub attachments_synced : ℕ

pub record StagedAttachment : Type 0 where
  pub filename : Text
  pub content_type : Text
  pub size_bytes : ℕ
  pub temp_path : Text

-- The files: copying the source of an attachment, taken from the directory of the specification, to a
-- temporary file; making the directory of a challenge and emptying it; moving a temporary file to a
-- name in that directory, which gives its path; and removing a temporary file.
pub record Disk (S : Type 0) : Type 0 where
  pub stage : Text → AttachmentSpec → S → Option StagedAttachment × S
  pub clear : ℕ → S → Bool × S
  pub move : ℕ → Text → Text → S → Option Text × S
  pub remove : Text → S → S

module _ (o : Outside) (g : Store.Outside) (disk : Disk o.State) (storage_dir : Text) where
  abbrev pub staged_reply :
      Option StagedAttachment × o.State → World o → Result Error StagedAttachment × World o
  staged_reply (some a, s) w = (ok a, record w { out = s })
  staged_reply (none, s) w = (err file_error, record w { out = s })

  -- An error leaves the files that were staged before.
  unfoldable pub stage_attachments : Text → List AttachmentSpec → M o (List StagedAttachment)
  stage_attachments path [] = pure []
  stage_attachments path (a ∷ rest) = (λ w. staged_reply (disk.stage path a w.out) w) >>= λ item.
      stage_attachments path rest >>= λ items. pure (item ∷ items)

  -- `if len(normalized.Attachments) > 0`
  abbrev pub stage_all : Text → List AttachmentSpec → M o (List StagedAttachment)
  stage_all path [] = pure []
  stage_all path (a ∷ rest) =
      reject_if (storage_dir == []) file_error >> stage_attachments path (a ∷ rest)

  abbrev new_id : Option ℕ → List ℕ → List ℕ
  new_id none seen = seen
  new_id (some id) seen = if contains seen id then seen else seen ++ (id ∷ [])

  -- The loop over the references: the ids that are found, once each. Unknown references are left out.
  unfoldable pub resolve_owners : List Text → List ℕ → M o (List ℕ)
  unfolding query resolve_user_id
  resolve_owners [] seen = pure seen
  resolve_owners (ref ∷ refs) seen = query o (λ db. ok (resolve_user_id ref db)) >>= λ found.
      resolve_owners refs (new_id found seen)

  abbrev pub set_owners : ℕ → ℤ → List Text → M o (Unit {0})
  set_owners id at [] = pure tt
  set_owners id at (ref ∷ refs) =
      resolve_owners (ref ∷ refs) [] >>= λ users. set_challenge_authors o id at users

  abbrev pub sync_runtime : ℕ → Option ChallengeRuntime → M o Bool
  sync_runtime id none = pure false
  sync_runtime id (some r) = exec o (λ t. upsert_config id r) >> pure true

  abbrev pub cleared : Bool × o.State → World o → Result Error (Unit {0}) × World o
  cleared (true, s) w = (ok tt, record w { out = s })
  cleared (false, s) w = (err file_error, record w { out = s })

  abbrev pub moved : Option Text × o.State → World o → Result Error Text × World o
  moved (some path, s) w = (ok path, record w { out = s })
  moved (none, s) w = (err file_error, record w { out = s })

  -- The loop of syncAttachments.
  unfoldable pub insert_files : ℕ → List StagedAttachment → M o (Unit {0})
  unfolding sanitize_filename insert_file exec
  insert_files id [] = pure tt
  insert_files id (a ∷ rest) =
      (λ w. moved (disk.move id (sanitize_filename a.filename) a.temp_path w.out) w) >>= λ path.
      exec o (λ t. insert_file id a.filename path a.content_type a.size_bytes)
      >> insert_files id rest

  unfoldable pub sync_attachments : ℕ → List StagedAttachment → M o ℕ
  unfolding delete_files insert_files exec
  sync_attachments id items =
      exec o (λ t. delete_files id)
      >> (λ w. cleared (disk.clear id w.out) w)
      >> insert_files id items
      >> pure (length items)

  -- `if len(stagedAttachments) > 0`
  abbrev pub sync_all : ℕ → List StagedAttachment → M o ℕ
  sync_all id [] = pure 0
  sync_all id (a ∷ rest) = sync_attachments id (a ∷ rest)

  -- What follows the write of the row.
  abbrev pub import_rest : Text → ChallengeSpec → List StagedAttachment → ℤ → ℕ → M o ImportResult
  import_rest path s staged at id =
      set_owners id at (normalized_owner_refs s) >> sync_runtime id s.runtime >>= λ synced.
      sync_all id staged >>= λ files. pure (record {
        path = path;
        slug = s.metadata.slug;
        challenge_id = id;
        runtime_synced = synced;
        attachments_synced = files;
      })

  -- What stands between BEGIN and COMMIT.
  unfoldable pub import_body :
      Text → Text → ChallengeSpec → List StagedAttachment → ℤ → M o ImportResult
  unfolding upsert_challenge set_challenge_authors resolve_owners upsert_config sync_attachments
      exec
  import_body contest path s staged at =
      exec o (λ t. upsert_challenge (trim_space contest) s) >>= import_rest path s staged at

  -- The temporary files are removed unless the import was committed.
  abbrev pub remove_all : List StagedAttachment → o.State → o.State
  remove_all [] s = s
  remove_all (a ∷ rest) s = remove_all rest (disk.remove a.temp_path s)

  abbrev pub cleaned_up :
      List StagedAttachment
      → Result Error ImportResult × World o
      → Result Error ImportResult × World o
  cleaned_up staged (ok r, w) = (ok r, w)
  cleaned_up staged (err e, w) = (err e, record w { out = remove_all staged w.out })

  abbrev pub normal_or_error : Result Importer.SpecError ChallengeSpec → M o ChallengeSpec
  normal_or_error (ok s) = pure s
  normal_or_error (err e) = throw invalid_challenge_input

  unfoldable pub import_spec : Text → Text → ChallengeSpec → M o ImportResult
  unfolding normalize_spec stage_attachments transaction import_body
  import_spec contest path spec =
      reject_if (trim_space contest == []) invalid_challenge_input
      >> normal_or_error (normalize_spec g spec)
      >>= λ s. stage_all path s.attachments >>= λ staged w.
          cleaned_up staged (transaction o (import_body contest path s staged) w)
