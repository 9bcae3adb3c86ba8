-- ===== src/Contest/Tests.antt =====
-- Examples for backend/internal/contest/types.go.
use ctf_recruit.Base.{◌≡◌, none, codes, trim_space, to_lower}
use ctf_recruit.Contest.{Contest, status_draft, normalize_status, build_phase}
use ctf_recruit.Contest.Laws.{plain, IsStatus, normalize_status_lem, Opens, build_phase-Opens}

abbrev contest : Contest
contest = record {
  id = 1;
  slug = codes "ctf";
  title = codes "CTF";
  description = codes "";
  status = codes " Running";
  starts_at = none;
  ends_at = none;
}

build_phase-Opens_example : Opens (codes "running") (build_phase contest)
unfolding trim_space to_lower
build_phase-Opens_example = build_phase-Opens contest

normalize_status_lem_example :
    (IsStatus (plain (codes " Frozen "))
      → normalize_status (codes " Frozen ") ≡ plain (codes " Frozen "))
    × (¬ IsStatus (plain (codes " Frozen ")) → normalize_status (codes " Frozen ") ≡ status_draft)
    × (normalize_status (normalize_status (codes " Frozen ")) ≡ normalize_status (codes " Frozen "))
normalize_status_lem_example = normalize_status_lem (codes " Frozen ")
