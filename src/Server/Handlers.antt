-- ===== src/Server/Handlers.antt =====
-- backend/internal/app/server.go: the handlers of the instances and of the flag submissions. What
-- the contest service returned, and the user of the context, are arguments.
use ctf_recruit.Base.{
  ℕ, Text, Bool, true, false, Option, none, some, Result, ok, err, codes, if◌then◌else◌,
}
use ctf_recruit.Contest.{Phase}
use ctf_recruit.RateLimit.{RateLimiter, enforce_rate_limit}
use ctf_recruit.Runtime
use ctf_recruit.Runtime.{Instance, ServiceConfig}
use ctf_recruit.Runtime.World
use ctf_recruit.Runtime.Service.{start_instance, get_instance, renew_instance, delete_instance}
use ctf_recruit.Game
use ctf_recruit.Game.{SubmitResult, challenge_not_found}
use ctf_recruit.Game.Store
use ctf_recruit.Game.Service.{submit_flag}
use ctf_recruit.Server.{
  Failure, failure, ContestRequirement, no_requirement, require_contest_phase, runtime_failure,
  submission_limit_key,
}

abbrev pub runtime_required : ContestRequirement
runtime_required = record no_requirement { runtime_allowed = true }

abbrev pub submission_required : ContestRequirement
submission_required = record no_requirement { submission_allowed = true }

-- The guards that the four handlers of the instances begin with: the phase, then the user.
module _ {W A : Type 0} where
  abbrev for_user : Option ℕ → (ℕ → W → Result Failure A × W) → W → Result Failure A × W
  for_user none next w = (err (failure 401 (codes "unauthorized")), w)
  for_user (some user) next w = next user w

  abbrev in_phase :
      Result Failure Phase → Option ℕ → (ℕ → W → Result Failure A × W) → W → Result Failure A × W
  in_phase (err f) user next w = (err f, w)
  in_phase (ok phase) user next w = for_user user next w

  unfoldable pub guarded :
      ContestRequirement
      → Result Text Phase
      → Option ℕ
      → (ℕ → W → Result Failure A × W)
      → W
      → Result Failure A × W
  guarded requirement phase user next w =
      in_phase (require_contest_phase requirement phase) user next w

module _ (o : World.Outside) (cfg : ServiceConfig) where
  abbrev created_reply :
      Result Runtime.Error (Instance × Bool) × World.World o
      → Result Failure (ℕ × Instance) × World.World o
  created_reply (ok (i, is_new), w) = (ok (if is_new then 201 else 200, i), w)
  created_reply (err e, w) = (err (runtime_failure e), w)

  abbrev instance_reply :
      Result Runtime.Error Instance × World.World o → Result Failure (ℕ × Instance) × World.World o
  instance_reply (ok i, w) = (ok (200, i), w)
  instance_reply (err e, w) = (err (runtime_failure e), w)

  unfoldable pub handle_create_instance :
      Result Text Phase
      → Option ℕ
      → Text
      → World.World o
      → Result Failure (ℕ × Instance) × World.World o
  unfolding guarded
  handle_create_instance phase user ref =
      guarded runtime_required phase user (λ id w. created_reply (start_instance o cfg id ref w))

  unfoldable pub handle_get_instance :
      Result Text Phase
      → Option ℕ
      → Text
      → World.World o
      → Result Failure (ℕ × Instance) × World.World o
  unfolding guarded
  handle_get_instance phase user ref =
      guarded runtime_required phase user (λ id w. instance_reply (get_instance o cfg id ref w))

  unfoldable pub handle_delete_instance :
      Result Text Phase
      → Option ℕ
      → Text
      → World.World o
      → Result Failure (ℕ × Instance) × World.World o
  unfolding guarded
  handle_delete_instance phase user ref =
      guarded runtime_required phase user (λ id w. instance_reply (delete_instance o cfg id ref w))

  unfoldable pub handle_renew_instance :
      Result Text Phase
      → Option ℕ
      → Text
      → World.World o
      → Result Failure (ℕ × Instance) × World.World o
  unfolding guarded
  handle_renew_instance phase user ref =
      guarded runtime_required phase user (λ id w. instance_reply (renew_instance o cfg id ref w))

abbrev pub submit_failure : Game.Error → Failure
submit_failure challenge_not_found = failure 404 (codes "challenge_not_found")
submit_failure other = failure 502 (codes "submit_failed")

abbrev pub submit_reply : Result Game.Error SubmitResult → Result Failure SubmitResult
submit_reply (ok result) = ok result
submit_reply (err e) = err (submit_failure e)

-- The state of the submission limiter and of the game.
module _ (o : Store.Outside) {S E : Type 0} (limiter : Option (RateLimiter S E)) where
  abbrev pub Site : Type 0
  Site = S × Store.World o

  -- What follows the rate limit, on the decoded flag; `none` is a body that is no JSON of it.
  abbrev pub on_input : ℕ → Text → Text → Option Text → Site → Result Failure SubmitResult × Site
  on_input user ref ip none (s, w) = (err (failure 400 (codes "invalid_json")), (s, w))
  on_input user ref ip (some flag) (s, w) =
      let reply = submit_flag o user ref flag ip w in (submit_reply reply.0, (s, reply.1))

  abbrev pub on_limit :
      ℕ → Text → Text → Option Text → Result E Bool → Site → Result Failure SubmitResult × Site
  on_limit user ref ip input (err e) site = (err (failure 502 (codes "rate_limit_error")), site)
  on_limit user ref ip input (ok false) site =
      (err (failure 429 (codes "submission_rate_limited")), site)
  on_limit user ref ip input (ok true) site = on_input user ref ip input site

  abbrev pub limited : Text → Text → Option Text → ℕ → Site → Result Failure SubmitResult × Site
  limited ref ip input user (s, w) =
      let reply = enforce_rate_limit limiter (submission_limit_key user ref) s in
      on_limit user ref ip input reply.0 (reply.1, w)

  unfoldable pub handle_submit_flag :
      Result Text Phase
      → Option ℕ
      → Text
      → Text
      → Option Text
      → Site
      → Result Failure SubmitResult × Site
  unfolding guarded
  handle_submit_flag phase user ref ip input =
      guarded submission_required phase user (limited ref ip input)
