-- ===== src/ChallengeStatus/Laws.antt =====
-- backend/internal/challengecfg/status.go: which statuses are accepted.
use ctf_recruit.Base.{
  Text, Bool, ◌≡◌, ◌≢◌, ◌↔◌, ◌⊎◌, [], arith, ok, trim_space, to_lower, text_beq, text_beq_iff,
  if◌then◌else◌,
}
use ctf_recruit.ChallengeStatus.{
  status_draft, status_review, status_ready, status_published, normalize_input_status,
}

-- One of the four statuses.
abbrev pub IsStatus : Text → Type 0
IsStatus s = (s ≡ status_draft) ⊎ (s ≡ status_review) ⊎ (s ≡ status_ready) ⊎ (s ≡ status_published)

-- A status that is given is accepted exactly if it is one of the four without its outer blanks and
-- capitals, and becomes that one; a blank one becomes `published` or `draft`, as the older flag for
-- visible challenges says.
pub normalize_input_status_lem :
    (status s : Text) (legacy_visible : Bool)
    → (normalize_input_status status legacy_visible ≡ ok s) ↔ (
        ((trim_space status ≡ [])
          × (s ≡ (if legacy_visible then status_published else status_draft)))
        ⊎ ((trim_space status ≢ []) × (s ≡ to_lower (trim_space status)) × IsStatus s))
unfolding normalize_input_status text_beq
normalize_input_status_lem status s legacy_visible =
    let t = to_lower (trim_space status) in
    ground (
      arith,
      text_beq_iff (trim_space status) [],
      text_beq_iff t status_draft,
      text_beq_iff t status_review,
      text_beq_iff t status_ready,
      text_beq_iff t status_published,
    )
