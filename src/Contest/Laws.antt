-- ===== src/Contest/Laws.antt =====
-- backend/internal/contest/types.go: which status opens what.
use ctf_recruit.Base.{
  Text, true, ◌≡◌, ◌∙◌, ◌↔◌, ◌⊎◌, inl, inr, arith, trim_space, to_lower, text_beq, text_beq_iff,
}
use ctf_recruit.Contest.{
  Contest, Phase, status_draft, status_upcoming, status_running, status_frozen, status_ended,
  normalize_status, build_phase,
}

-- The status as it is compared: trimmed and in lower case.
abbrev pub plain : Text → Text
plain v = to_lower (trim_space v)

-- The five texts that `normalize_status` can return.
abbrev pub IsStatus : Text → Type 0
IsStatus s =
    (s ≡ status_draft)
    ⊎ (s ≡ status_upcoming)
    ⊎ (s ≡ status_running)
    ⊎ (s ≡ status_frozen)
    ⊎ (s ≡ status_ended)

-- What the five comparisons of a text with the statuses say.
abbrev Compared : Text → Type 0
Compared s =
    ((text_beq s status_draft ≡ true) ↔ (s ≡ status_draft))
    × ((text_beq s status_upcoming ≡ true) ↔ (s ≡ status_upcoming))
    × ((text_beq s status_running ≡ true) ↔ (s ≡ status_running))
    × ((text_beq s status_frozen ≡ true) ↔ (s ≡ status_frozen))
    × ((text_beq s status_ended ≡ true) ↔ (s ≡ status_ended))

pub compared : (s : Text) → Compared s
compared s =
    (text_beq_iff s _, text_beq_iff s _, text_beq_iff s _, text_beq_iff s _, text_beq_iff s _)

pub normalize_status-IsStatus : (v : Text) → IsStatus (normalize_status v)
unfolding normalize_status
normalize_status-IsStatus v = ground arith

normalize_status_of_plain : (v : Text) → IsStatus (plain v) → normalize_status v ≡ plain v
unfolding normalize_status text_beq
normalize_status_of_plain v h = ground (arith, compared (plain v))

-- The five statuses carry no blanks and no capitals.
plain_of_IsStatus : (s : Text) → IsStatus s → plain s ≡ s
unfolding trim_space to_lower
plain_of_IsStatus s (inl e) = rw e
plain_of_IsStatus s (inr (inl e)) = rw e
plain_of_IsStatus s (inr (inr (inl e))) = rw e
plain_of_IsStatus s (inr (inr (inr (inl e)))) = rw e
plain_of_IsStatus s (inr (inr (inr (inr e)))) = rw e

-- Normalizing gives one of the five statuses: the text without outer blanks and capitals where
-- that is a status, and `draft` where it is not. Normalizing once more changes nothing.
pub normalize_status_lem :
    (v : Text)
    → (IsStatus (plain v) → normalize_status v ≡ plain v)
      × (¬ IsStatus (plain v) → normalize_status v ≡ status_draft)
      × (normalize_status (normalize_status v) ≡ normalize_status v)
unfolding normalize_status text_beq
normalize_status_lem v = (
  normalize_status_of_plain v,
  λ h. ground (arith, compared (plain v)),
  normalize_status_of_plain (normalize_status v)
        (rw (plain_of_IsStatus _ (normalize_status-IsStatus v)) (normalize_status-IsStatus v))
      ∙ plain_of_IsStatus _ (normalize_status-IsStatus v),
)

-- What a contest whose trimmed lower-case status is `s` must open.
pub record Opens (s : Text) (p : Phase) : Type 0 where
  pub submission : (p.submission_allowed ≡ true) ↔ (s ≡ status_running)
  pub runtime : (p.runtime_allowed ≡ true) ↔ (s ≡ status_running)
  pub registration :
      (p.registration_allowed ≡ true)
      ↔ ((s ≡ status_upcoming) ⊎ (s ≡ status_running) ⊎ (s ≡ status_frozen))
  pub list :
      (p.challenge_list_visible ≡ true)
      ↔ ((s ≡ status_running) ⊎ (s ≡ status_frozen) ⊎ (s ≡ status_ended))
  pub detail : p.challenge_detail_visible ≡ p.challenge_list_visible
  pub attachment : p.attachment_visible ≡ p.challenge_list_visible
  pub scoreboard : p.scoreboard_visible ≡ p.challenge_list_visible
  pub announcement :
      (p.announcement_visible ≡ true)
      ↔ ((s ≡ status_upcoming) ⊎ (s ≡ status_running) ⊎ (s ≡ status_frozen) ⊎ (s ≡ status_ended))

-- Submissions and instances are open exactly while the contest runs; registration also before it
-- and while it is frozen; challenges, attachments and the scoreboard from the start on, also when
-- it has ended; announcements in every status but `draft` and what is no status.
pub build_phase-Opens : (c : Contest) → Opens (plain c.status) (build_phase c)
unfolding build_phase normalize_status text_beq
build_phase-Opens c = record {
  submission = ground (arith, compared (plain c.status));
  runtime = ground (arith, compared (plain c.status));
  registration = ground (arith, compared (plain c.status));
  list = ground (arith, compared (plain c.status));
  detail = ground arith;
  attachment = ground arith;
  scoreboard = ground arith;
  announcement = ground (arith, compared (plain c.status));
}
