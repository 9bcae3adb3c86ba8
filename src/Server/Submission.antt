-- ===== src/Server/Submission.antt =====
-- backend/internal/app/server.go: which submissions reach the game.
use ctf_recruit.Base.{
  ℕ, Text, Bool, true, false, ◌≡◌, refl, inl, inr, Option, none, some, arith, Result, ok, err,
  codes, Bool-cases, if◌then◌else◌,
}
use ctf_recruit.Contest.{Contest, Phase, build_phase, status_running}
use ctf_recruit.Contest.Laws.{plain, build_phase-Opens}
use ctf_recruit.RateLimit.{RateLimiter, enforce_rate_limit}
use ctf_recruit.Game.{SubmitResult}
use ctf_recruit.Game.Store
use ctf_recruit.Game.Service.{submit_flag}
use ctf_recruit.Server.{Failure, failure, require_contest_phase, submission_limit_key}
use ctf_recruit.Server.Handlers.{
  submission_required, guarded, Site, submit_reply, on_input, on_limit, handle_submit_flag,
}

submission_gate :
    (phase : Phase)
    → require_contest_phase {E = Text} submission_required (ok phase) ≡ (
        if phase.submission_allowed
        then ok phase
        else err (failure 403 (codes "submission_closed")))
unfolding require_contest_phase
submission_gate phase = ground arith

module _ (o : Store.Outside) {S E : Type 0} (limiter : Option (RateLimiter S E)) where
  -- What a request on the flags comes to: it is refused before it reaches the game, or it is a
  -- submission of an authenticated user while the contest runs, that the rate limit lets through.
  pub data Handled (c : Contest) (user : Option ℕ) (ref ip : Text) (input : Option Text) (s : S)
      (w : Store.World o) (reply : Result Failure SubmitResult) (site : Site o limiter)
      : Type 0 where
    refused :
        (f : Failure) → reply ≡ err f → site.1 ≡ w → Handled c user ref ip input s w reply site
    passed :
        (id : ℕ) (flag : Text)
        → plain c.status ≡ status_running
        → user ≡ some id
        → input ≡ some flag
        → (enforce_rate_limit limiter (submission_limit_key id ref) s).0 ≡ ok true
        → reply ≡ submit_reply (submit_flag o id ref flag ip w).0
        → site.1 ≡ (submit_flag o id ref flag ip w).1
        → Handled c user ref ip input s w reply site

  input-Handled :
      (c : Contest) (id : ℕ) (ref ip : Text) (input : Option Text) (s s' : S) (w : Store.World o)
      → plain c.status ≡ status_running
      → (enforce_rate_limit limiter (submission_limit_key id ref) s).0 ≡ ok true
      → Handled c
          (some id)
          ref
          ip
          input
          s
          w
          (on_input o limiter id ref ip input (s', w)).0
          (on_input o limiter id ref ip input (s', w)).1
  input-Handled c id ref ip none s s' w running below = refused _ refl refl
  input-Handled c id ref ip (some flag) s s' w running below =
      passed id flag running refl refl below refl refl

  limit-Handled :
      (c : Contest) (id : ℕ) (ref ip : Text) (input : Option Text) (s s' : S) (w : Store.World o)
      (r : Result E Bool)
      → plain c.status ≡ status_running
      → (enforce_rate_limit limiter (submission_limit_key id ref) s).0 ≡ r
      → Handled c
          (some id)
          ref
          ip
          input
          s
          w
          (on_limit o limiter id ref ip input r (s', w)).0
          (on_limit o limiter id ref ip input r (s', w)).1
  limit-Handled c id ref ip input s s' w (err e) running below = refused _ refl refl
  limit-Handled c id ref ip input s s' w (ok false) running below = refused _ refl refl
  limit-Handled c id ref ip input s s' w (ok true) running below =
      input-Handled c id ref ip input s s' w running below

  user-Handled :
      (c : Contest) (user : Option ℕ) (ref ip : Text) (input : Option Text) (s : S)
      (w : Store.World o)
      → (build_phase c).submission_allowed ≡ true
      → Handled c user ref ip input s w
          (handle_submit_flag o limiter (ok (build_phase c)) user ref ip input (s, w)).0
          (handle_submit_flag o limiter (ok (build_phase c)) user ref ip input (s, w)).1
  unfolding handle_submit_flag guarded
  user-Handled c none ref ip input s w open_ =
      rw (submission_gate (build_phase c), open_) (refused _ refl refl)
  user-Handled c (some id) ref ip input s w open_ =
      rw (submission_gate (build_phase c), open_)
        (limit-Handled c id ref ip input s _ w _ ((build_phase-Opens c).submission.0 open_) refl)

  -- A submission changes the game's tables only where the contest runs, the request carries a user,
  -- the rate limit lets it through and the body is JSON with a flag; then it is what `SubmitFlag`
  -- does with that flag for that user. Every other request is an error reply, and the game is as it
  -- was.
  pub handle_submit_flag-Handled :
      (c : Contest) (user : Option ℕ) (ref ip : Text) (input : Option Text) (s : S)
      (w : Store.World o)
      → Handled c user ref ip input s w
          (handle_submit_flag o limiter (ok (build_phase c)) user ref ip input (s, w)).0
          (handle_submit_flag o limiter (ok (build_phase c)) user ref ip input (s, w)).1
  unfolding handle_submit_flag guarded
  handle_submit_flag-Handled c user ref ip input s w =
      elim (Bool-cases (build_phase c).submission_allowed) [
        | inl open_ ↦ user-Handled c user ref ip input s w open_
        | inr closed ↦ rw (submission_gate (build_phase c), closed) (refused _ refl refl)
      ]
