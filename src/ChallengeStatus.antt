-- ===== src/ChallengeStatus.antt =====
-- backend/internal/challengecfg/status.go: the status of a challenge.
pub mod Laws
mod Tests
use ctf_recruit.Base.{
  Text, Bool, Option, none, some, [], Result, ok, err, codes, trim_space, to_lower, ◌==◌, text_eq,
  if◌then◌else◌,
}

abbrev pub status_draft : Text
status_draft = codes "draft"

abbrev pub status_review : Text
status_review = codes "review"

abbrev pub status_ready : Text
status_ready = codes "ready"

abbrev pub status_published : Text
status_published = codes "published"

-- `none` is the false of the pair.
unfoldable pub parse_status : Text → Option Text
parse_status value =
    let s = to_lower (trim_space value) in
    if s == status_draft
    then some status_draft
    else if s == status_review
    then some status_review
    else if s == status_ready
    then some status_ready
    else if s == status_published
    then some status_published
    else none

abbrev or_draft : Option Text → Text
or_draft none = status_draft
or_draft (some s) = s

unfoldable pub normalize_status : Text → Text
unfolding parse_status
normalize_status value = or_draft (parse_status value)

-- The error carries the status that is not one.
abbrev parsed_or_error : Text → Option Text → Result Text Text
parsed_or_error status none = err status
parsed_or_error status (some s) = ok s

unfoldable pub normalize_input_status : Text → Bool → Result Text Text
unfolding parse_status
normalize_input_status status legacy_visible =
    if trim_space status == []
    then ok (if legacy_visible then status_published else status_draft)
    else parsed_or_error status (parse_status status)

unfoldable pub is_published : Text → Bool
unfolding normalize_status
is_published status = normalize_status status == status_published
