-- ===== src/Admin/Service.antt =====
-- backend/internal/admin/service.go: the calls of the administration. The parameter `g` is what the
-- kinds of flags take from outside: regular expressions.
use ctf_recruit.Base.{
  ℕ, Text, Bool, true, false, not, ◌&&◌, Option, none, some, List, [], ◌∷◌, ℤ, pos, Result, ok, err,
  codes, trim_space, base_name, replace_all, ◌==◌, ◌||◌, nat_eq, text_eq, if◌then◌else◌, contains,
  leb_ℤ, pos_part,
}
use ctf_recruit.Base.Exec.{◌>>=◌, ◌>>◌, pure, throw, attempt, reject_if}
use ctf_recruit.Base.Decimal.{decimal}
use ctf_recruit.ChallengeStatus.{normalize_input_status, is_published}
use ctf_recruit.Game.Store
use ctf_recruit.Game.Flags.{validate_flag_type_config}
use ctf_recruit.Admin.{
  Error, resource_not_found, invalid_challenge_input, manager_error, file_error, Actor,
  restrict_to_owned_challenges, Attachment, ChallengeAuthor, ChallengeSummary, ChallengeDetail,
  UpsertChallengeInput, CreateAttachmentInput, UserRecord, UpdateUserInput, Announcement,
  CreateAnnouncementInput, InstanceRecord,
}
use ctf_recruit.Admin.World.{Outside, World, M, read_clock}
use ctf_recruit.Admin.Repository.{
  get_challenge, create_challenge, update_challenge_authors, update_challenge, create_attachment,
  get_attachment,
}
use ctf_recruit.Admin.Records.{
  update_user, create_audit_log, create_announcement, delete_announcement, get_instance,
  terminate_instance,
}

unfoldable pub sanitize_filename : Text → Text
unfolding base_name replace_all
sanitize_filename name =
    let clean = replace_all (base_name (trim_space name)) (codes "..") [] in
    if clean == [] || clean == codes "." || clean == codes "/"
    then codes "attachment.bin"
    else clean

-- The loop over the user ids of UpdateChallengeAuthors: positive ones, once each.
unfoldable pub distinct_ids : List ℕ → List ℤ → List ℕ
distinct_ids seen [] = []
distinct_ids seen (id ∷ ids) =
    let dropped = leb_ℤ id (pos 0) || contains seen (pos_part id) in
    let rest = distinct_ids (if dropped then seen else pos_part id ∷ seen) ids in
    if dropped then rest else pos_part id ∷ rest

-- IsInvalidChallengeInput
unfoldable pub is_invalid_challenge_input : Error → Bool
is_invalid_challenge_input invalid_challenge_input = true
is_invalid_challenge_input other = false

abbrev checked : {E A : Type 0} {o : Outside} → Result E A → M o A
checked (ok a) = pure a
checked (err e) = throw invalid_challenge_input

module _ (o : Outside) (g : Store.Outside) where
  -- `_ = s.repo.CreateAuditLog(...)`: the error is dropped.
  abbrev pub audit : ℕ → Text → Text → Text → M o (Unit {0})
  audit actor action kind id =
      attempt (create_audit_log o actor action kind id) >>= λ dropped. pure tt

  -- The checks that CreateChallenge and UpdateChallenge begin with.
  unfoldable pub normalize_input : UpsertChallengeInput → M o UpsertChallengeInput
  normalize_input input =
      checked (validate_flag_type_config g input.flag_type input.flag_value) >>= λ flag_type.
      checked (normalize_input_status input.status input.visible) >>= λ status.
      pure (record input { flag_type = flag_type; status = status; visible = is_published status })

  unfoldable pub service_create_challenge : Actor → UpsertChallengeInput → M o ChallengeSummary
  unfolding normalize_input create_challenge create_audit_log
  service_create_challenge actor input = normalize_input input >>= λ normal.
      create_challenge o actor normal >>= λ c.
      audit actor.user_id (codes "challenge.create") (codes "challenge") (decimal c.id) >> pure c

  unfoldable pub service_update_challenge : Actor → ℕ → UpsertChallengeInput → M o ChallengeSummary
  unfolding normalize_input get_challenge update_challenge create_audit_log
  service_update_challenge actor challenge input = normalize_input input >>= λ normal.
      get_challenge o actor challenge >>= λ previous.
      update_challenge o actor challenge normal >>= λ c.
      audit actor.user_id (codes "challenge.update") (codes "challenge") (decimal c.id) >> pure c

  unfoldable pub service_update_authors : Actor → ℕ → List ℤ → M o (List ChallengeAuthor)
  unfolding distinct_ids update_challenge_authors create_audit_log
  service_update_authors actor challenge ids =
      update_challenge_authors o actor challenge (distinct_ids [] ids) >>= λ authors.
      audit actor.user_id (codes "challenge.authors.update") (codes "challenge") (decimal challenge)
      >> pure authors

  abbrev file_reply : Option Text × o.State → World o → Result Error Text × World o
  file_reply (some path, s) w = (ok path, record w { out = s })
  file_reply (none, s) w = (err file_error, record w { out = s })

  -- writeAttachmentFile, under the time and the name that is safe; the body is an argument.
  unfoldable pub write_attachment_file : ℕ → Text → Text → M o Text
  unfolding read_clock sanitize_filename
  write_attachment_file challenge filename body = read_clock o >>= λ at w.
      file_reply (o.write_file challenge at (sanitize_filename filename) body w.out) w

  -- `_ = os.Remove(storagePath)`, and the error.
  abbrev kept_or_removed : Text → Result Error Attachment → M o Attachment
  kept_or_removed path (ok a) = pure a
  kept_or_removed path (err e) = λ w. (err e, record w { out = o.remove_file path w.out })

  unfoldable pub service_create_attachment :
      Actor → ℕ → CreateAttachmentInput → Text → M o Attachment
  unfolding write_attachment_file create_attachment create_audit_log
  service_create_attachment actor challenge input body =
      write_attachment_file challenge input.filename body >>= λ path.
      attempt (
        create_attachment o actor challenge input.filename path input.content_type input.size_bytes)
      >>= λ made. kept_or_removed path made >>= λ a.
          audit actor.user_id (codes "attachment.create") (codes "challenge_attachment")
            (decimal a.id)
          >> pure a

  -- challengeOwnedByUser of the service: the challenge as an author sees it.
  abbrev pub allowed_or_error : Result Error ChallengeDetail → M o Bool
  allowed_or_error (ok detail) = pure true
  allowed_or_error (err resource_not_found) = pure false
  allowed_or_error (err e) = throw e

  unfoldable pub challenge_owned_by_user : ℕ → ℕ → M o Bool
  unfolding get_challenge
  challenge_owned_by_user challenge user =
      attempt (get_challenge o (record { user_id = user; role = codes "author" }) challenge)
      >>= λ found. allowed_or_error found

  unfoldable pub service_attachment : Actor → ℕ → ℕ → M o (Attachment × Text)
  unfolding challenge_owned_by_user get_attachment
  service_attachment actor challenge id =
      (if restrict_to_owned_challenges actor
        then (challenge_owned_by_user challenge actor.user_id >>= λ allowed.
            reject_if (not allowed) resource_not_found)
        else pure tt)
      >> get_attachment o challenge id

  unfoldable pub service_update_user : ℕ → ℕ → UpdateUserInput → M o UserRecord
  unfolding update_user create_audit_log
  service_update_user actor user input = update_user o user input >>= λ u.
      audit actor (codes "user.update") (codes "user") (decimal user) >> pure u

  unfoldable pub service_create_announcement : ℕ → CreateAnnouncementInput → M o Announcement
  unfolding create_announcement create_audit_log
  service_create_announcement actor input = create_announcement o input >>= λ a.
      audit actor (codes "announcement.create") (codes "announcement") (decimal a.id) >> pure a

  unfoldable pub service_delete_announcement : ℕ → ℕ → M o Announcement
  unfolding delete_announcement create_audit_log
  service_delete_announcement actor id = delete_announcement o id >>= λ a.
      audit actor (codes "announcement.delete") (codes "announcement") (decimal id) >> pure a

  abbrev pub stopped : Bool × o.State → World o → Result Error (Unit {0}) × World o
  stopped (true, s) w = (ok tt, record w { out = s })
  stopped (false, s) w = (err manager_error, record w { out = s })

  -- `if s.manager != nil`: the container is stopped before its row is ended.
  unfoldable pub stop_container : Option (Text → o.State → Bool × o.State) → ℕ → M o (Unit {0})
  unfolding get_instance
  stop_container none id = pure tt
  stop_container (some stop) id = get_instance o id >>= λ current.
      if not (current.container_id == []) && not (current.status == codes "terminated")
      then (λ w. stopped (stop current.container_id w.out) w)
      else pure tt

  unfoldable pub service_terminate_instance : ℕ → ℕ → M o InstanceRecord
  unfolding stop_container read_clock terminate_instance create_audit_log
  service_terminate_instance actor id = stop_container o.stop id >> read_clock o >>= λ at.
      terminate_instance o id at >>= λ i.
      audit actor (codes "instance.terminate") (codes "instance") (decimal id) >> pure i
