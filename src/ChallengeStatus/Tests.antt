-- ===== src/ChallengeStatus/Tests.antt =====
-- Examples for backend/internal/challengecfg/status.go.
use ctf_recruit.Base.{false, ◌≡◌, ◌≢◌, ◌↔◌, ◌⊎◌, [], ok, codes, trim_space, to_lower}
use ctf_recruit.ChallengeStatus.{status_draft, normalize_input_status}
use ctf_recruit.ChallengeStatus.Laws.{IsStatus, normalize_input_status_lem}

normalize_input_status_lem_example :
    (normalize_input_status (codes " Ready") false ≡ ok (codes "ready")) ↔ (
      ((trim_space (codes " Ready") ≡ []) × (codes "ready" ≡ status_draft))
      ⊎ ((trim_space (codes " Ready") ≢ [])
          × (codes "ready" ≡ to_lower (trim_space (codes " Ready")))
          × IsStatus (codes "ready")))
normalize_input_status_lem_example =
    normalize_input_status_lem (codes " Ready") (codes "ready") false
