-- ===== src/Server.antt =====
-- backend/internal/app/server.go: who passes the middleware, and the requests' guards. The text of a
-- message is left out of a reply; its status and its code are there.
pub mod Handlers
pub mod Gates
pub mod Submission
mod Tests
use ctf_recruit.Base.{
  ℕ, Text, Bool, true, false, not, ◌&&◌, ◌||◌, Option, none, some, List, [], ◌∷◌, ◌++◌, Result, ok,
  err, codes, has_prefix, trim_space, length, ◌==◌, text_eq, if◌then◌else◌, contains, ℤ, ℕ, zero,
  suc,
}
use ctf_recruit.Base.Decimal.{decimal}
use ctf_recruit.Auth.{TokenClaims}
use ctf_recruit.Auth.Token.{Codec, TokenManager, verify}
use ctf_recruit.Contest.{Phase}
use ctf_recruit.Runtime.{
  Error, challenge_not_found, challenge_not_dynamic, runtime_config_missing, instance_not_found,
  renew_limit_reached, capacity_reached, cooldown_active, port_exhausted,
}

-- The status and the code of an error reply.
pub record Failure : Type 0 where
  pub status : ℕ
  pub code : Text

abbrev pub failure : ℕ → Text → Failure
failure status code = record { status = status; code = code }

-- The rows of `permissions`.
abbrev pub permissions_of : Text → List Text
permissions_of role =
    if role == codes "admin"
    then codes "challenge:read"
      ∷ codes "challenge:write"
      ∷ codes "attachment:write"
      ∷ codes "contest:read"
      ∷ codes "contest:write"
      ∷ codes "announcement:read"
      ∷ codes "announcement:write"
      ∷ codes "submission:read"
      ∷ codes "instance:read"
      ∷ codes "instance:write"
      ∷ codes "user:read"
      ∷ codes "user:write"
      ∷ codes "audit:read"
      ∷ []
    else if role == codes "ops"
    then codes "contest:read"
      ∷ codes "challenge:read"
      ∷ codes "attachment:write"
      ∷ codes "announcement:read"
      ∷ codes "submission:read"
      ∷ codes "instance:read"
      ∷ codes "instance:write"
      ∷ codes "audit:read"
      ∷ []
    else if role == codes "author"
    then codes "challenge:read" ∷ codes "challenge:write" ∷ codes "attachment:write" ∷ []
    else []

unfoldable pub has_permission : Text → Text → Bool
has_permission role permission = contains (permissions_of role) permission

drop_codes : ℕ → Text → Text
drop_codes zero s = s
drop_codes (suc n) [] = []
drop_codes (suc n) (c ∷ s) = drop_codes n s

-- `const prefix` of bearerToken
abbrev bearer : Text
bearer = codes "Bearer "

unfoldable pub bearer_token : Text → Text
unfolding drop_codes
bearer_token header =
    if not (has_prefix header bearer) then [] else trim_space (drop_codes (length bearer) header)

module _ (k : Codec) (m : TokenManager) where
  abbrev claims_or_failure : {E : Type 0} → Result E TokenClaims → Result Failure TokenClaims
  claims_or_failure (ok claims) = ok claims
  claims_or_failure (err e) = err (failure 401 (codes "invalid_token"))

  -- The middleware `authenticated`: the claims that the next handler finds in the context.
  unfoldable pub authenticated : Text → ℤ → Result Failure TokenClaims
  unfolding bearer_token
  authenticated header now =
      let token = bearer_token header in
      if token == []
      then err (failure 401 (codes "unauthorized"))
      else claims_or_failure (verify k m token now)

  abbrev permitted : Text → Result Failure TokenClaims → Result Failure TokenClaims
  permitted permission (ok claims) =
      if not (has_permission claims.role permission)
      then err (failure 403 (codes "forbidden"))
      else ok claims
  permitted permission (err f) = err f

  -- The middleware `requirePermission`. The role is always in the context here.
  unfoldable pub require_permission : Text → Text → ℤ → Result Failure TokenClaims
  unfolding authenticated has_permission
  require_permission permission header now = permitted permission (authenticated header now)

pub record ContestRequirement : Type 0 where
  pub announcements_visible : Bool
  pub challenge_list_visible : Bool
  pub challenge_detail_visible : Bool
  pub attachment_visible : Bool
  pub scoreboard_visible : Bool
  pub submission_allowed : Bool
  pub runtime_allowed : Bool
  pub registration_allowed : Bool

-- `contestRequirement{}`
abbrev pub no_requirement : ContestRequirement
no_requirement = record {
  announcements_visible = false;
  challenge_list_visible = false;
  challenge_detail_visible = false;
  attachment_visible = false;
  scoreboard_visible = false;
  submission_allowed = false;
  runtime_allowed = false;
  registration_allowed = false;
}

-- requireContestPhase, on what the contest service returned.
unfoldable pub require_contest_phase {ℓ} :
    {E : Type ℓ} → ContestRequirement → Result E Phase → Result Failure Phase
require_contest_phase requirement (err e) = err (failure 502 (codes "repository_error"))
require_contest_phase requirement (ok phase) =
    if requirement.announcements_visible && not phase.announcement_visible
    then err (failure 403 (codes "contest_not_public"))
    else if requirement.challenge_list_visible && not phase.challenge_list_visible
    then err (failure 403 (codes "contest_not_public"))
    else if requirement.challenge_detail_visible && not phase.challenge_detail_visible
    then err (failure 403 (codes "contest_not_public"))
    else if requirement.attachment_visible && not phase.attachment_visible
    then err (failure 403 (codes "contest_not_public"))
    else if requirement.scoreboard_visible && not phase.scoreboard_visible
    then err (failure 403 (codes "scoreboard_not_public"))
    else if requirement.submission_allowed && not phase.submission_allowed
    then err (failure 403 (codes "submission_closed"))
    else if requirement.runtime_allowed && not phase.runtime_allowed
    then err (failure 403 (codes "runtime_closed"))
    else if requirement.registration_allowed && not phase.registration_allowed
    then err (failure 403 (codes "registration_closed"))
    else ok phase

-- writeRuntimeError
unfoldable pub runtime_failure : Error → Failure
runtime_failure challenge_not_found = failure 404 (codes "challenge_not_found")
runtime_failure challenge_not_dynamic = failure 409 (codes "challenge_not_dynamic")
runtime_failure runtime_config_missing = failure 409 (codes "runtime_config_missing")
runtime_failure instance_not_found = failure 404 (codes "instance_not_found")
runtime_failure renew_limit_reached = failure 409 (codes "instance_renew_limit_reached")
runtime_failure capacity_reached = failure 409 (codes "instance_capacity_reached")
runtime_failure cooldown_active = failure 409 (codes "instance_cooldown_active")
runtime_failure port_exhausted = failure 409 (codes "instance_port_exhausted")
runtime_failure other = failure 502 (codes "runtime_error")

-- limitKey("submission", userID, challengeID)
unfoldable pub submission_limit_key : ℕ → Text → Text
submission_limit_key user ref =
    codes "submission" ++ (codes ":" ++ (decimal user ++ (codes ":" ++ ref)))
