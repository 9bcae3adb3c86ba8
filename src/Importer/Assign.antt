-- ===== src/Importer/Assign.antt =====
-- backend/internal/challengeimport/importer.go: assignScalar and assignAttachmentScalar. The parsing
-- of durations is an argument.
use ctf_recruit.Base.{
  Text, Bool, true, false, Option, none, some, ℤ, pos, Result, ok, err, ◌>>=◌, codes, ◌==◌, text_eq,
  int_eq, if◌then◌else◌,
}
use ctf_recruit.Config.{atoi}
use ctf_recruit.Importer.{
  ChallengeMeta, ChallengeFlag, ChallengeContent, ChallengeOwnership, ChallengeRuntime,
  AttachmentSpec, ChallengeSpec, LineError, unsupported_key, unsupported_section, not_numeric,
  not_boolean, not_duration, empty_runtime,
}
use ctf_recruit.Importer.Lines.{normalize_scalar, parse_bool}

-- A parsed value, or the error.
abbrev or_error : {A : Type 0} → LineError → Option A → Result LineError A
or_error e none = err e
or_error e (some a) = ok a

abbrev numeric : Text → Text → Result LineError ℤ
numeric key value = or_error (not_numeric key) (atoi value)

abbrev boolean : Text → Text → Result LineError Bool
boolean key value = or_error (not_boolean key) (parse_bool value)

unfoldable pub assign_meta : ChallengeMeta → Text → Text → Result LineError ChallengeMeta
assign_meta m key value =
    if key == codes "slug"
    then ok (record m { slug = value })
    else if key == codes "title"
    then ok (record m { title = value })
    else if key == codes "category"
    then ok (record m { category = value })
    else if key == codes "points"
    then (numeric key value >>= λ parsed. ok (record m { points = parsed }))
    else if key == codes "difficulty"
    then ok (record m { difficulty = value })
    else if key == codes "dynamic"
    then (boolean key value >>= λ parsed. ok (record m { dynamic = parsed }))
    else if key == codes "status"
    then ok (record m { status = value })
    else if key == codes "visible"
    then (boolean key value >>= λ parsed. ok (record m { visible = parsed }))
    else if key == codes "sort_order"
    then (numeric key value >>= λ parsed. ok (record m { sort_order = parsed }))
    else err (unsupported_key (codes "meta") key)

unfoldable pub assign_flag : ChallengeFlag → Text → Text → Result LineError ChallengeFlag
assign_flag f key value =
    if key == codes "type"
    then ok (record f { flag_type = value })
    else if key == codes "value"
    then ok (record f { value = value })
    else err (unsupported_key (codes "flag") key)

unfoldable pub assign_content : ChallengeContent → Text → Text → Result LineError ChallengeContent
assign_content c key value =
    if key == codes "description"
    then ok (record c { description = value })
    else if key == codes "author"
    then ok (record c { author = value })
    else err (unsupported_key (codes "content") key)

unfoldable pub assign_ownership :
    ChallengeOwnership → Text → Text → Result LineError ChallengeOwnership
assign_ownership o key value =
    if key == codes "author"
    then ok (record { author = value })
    else err (unsupported_key (codes "ownership") key)

-- `if spec.Runtime == nil { spec.Runtime = &ChallengeRuntime{Enabled: true} }`
abbrev pub or_new_runtime : Option ChallengeRuntime → ChallengeRuntime
or_new_runtime none = record empty_runtime { enabled = true }
or_new_runtime (some r) = r

-- Whether renewals are allowed: one at least, or none.
abbrev pub allow_renewals : ChallengeRuntime → Bool → ChallengeRuntime
allow_renewals r true =
    if r.max_renew_count == pos 0 then record r { max_renew_count = pos 1 } else r
allow_renewals r false = record r { max_renew_count = pos 0 }

module _ (parse_duration : Text → Option ℤ) where
  abbrev duration : Text → Text → Result LineError ℤ
  duration key value = or_error (not_duration key) (parse_duration value)

  unfoldable pub assign_runtime : ChallengeRuntime → Text → Text → Result LineError ChallengeRuntime
  assign_runtime r key value =
      if key == codes "image"
      then ok (record r { image_name = value })
      else if key == codes "mode"
      then ok (record r { mode = value })
      else if key == codes "expose"
      then ok (record r { exposed_protocol = value })
      else if key == codes "container_port"
      then (numeric key value >>= λ parsed. ok (record r { container_port = parsed }))
      else if key == codes "ttl"
      then (duration key value >>= λ parsed. ok (record r { ttl = parsed }))
      else if key == codes "memory_limit_mb"
      then (numeric key value >>= λ parsed. ok (record r { memory_limit_mb = parsed }))
      else if key == codes "cpu_limit_millicores"
      then (numeric key value >>= λ parsed. ok (record r { cpu_milli = parsed }))
      else if key == codes "max_renew_count"
      then (numeric key value >>= λ parsed. ok (record r { max_renew_count = parsed }))
      else if key == codes "max_active_instances"
      then (numeric key value >>= λ parsed. ok (record r { max_active_instances = parsed }))
      else if key == codes "user_cooldown"
      then (duration key value >>= λ parsed. ok (record r { user_cooldown = parsed }))
      else if key == codes "renew_allowed"
      then (boolean key value >>= λ parsed. ok (allow_renewals r parsed))
      else err (unsupported_key (codes "runtime") key)

  unfoldable pub assign_scalar : ChallengeSpec → Text → Text → Text → Result LineError ChallengeSpec
  unfolding assign_meta assign_flag assign_content assign_ownership assign_runtime normalize_scalar
  assign_scalar s section key raw =
      let value = normalize_scalar raw in
      if section == codes "meta"
      then (assign_meta s.metadata key value >>= λ m. ok (record s { metadata = m }))
      else if section == codes "flag"
      then (assign_flag s.flag key value >>= λ f. ok (record s { flag = f }))
      else if section == codes "content"
      then (assign_content s.content key value >>= λ c. ok (record s { content = c }))
      else if section == codes "ownership"
      then (assign_ownership s.ownership key value >>= λ o. ok (record s { ownership = o }))
      else if section == codes "runtime"
      then (assign_runtime (or_new_runtime s.runtime) key value >>= λ r.
          ok (record s { runtime = some r }))
      else err (unsupported_section section)

unfoldable pub assign_attachment_scalar :
    AttachmentSpec → Text → Text → Result LineError AttachmentSpec
unfolding normalize_scalar
assign_attachment_scalar a key raw =
    let value = normalize_scalar raw in
    if key == codes "filename"
    then ok (record a { filename = value })
    else if key == codes "source"
    then ok (record a { source = value })
    else if key == codes "content_type"
    then ok (record a { content_type = value })
    else err (unsupported_key (codes "attachment") key)
