-- ===== src/Game/Service.antt =====
-- backend/internal/game/service.go: SubmitFlag and the reading calls.
use ctf_recruit.Base.{ℕ, Text, Bool, true, false, none, some, ℤ, pos, Result, ok, err, codes}
use ctf_recruit.Base.Exec.{pure, throw, ◌>>=◌}
use ctf_recruit.Game.{Error, Attachment, Challenge, SubmitResult}
use ctf_recruit.Game.Store.{
  Outside, M, get_challenge, get_challenge_attachment, create_submission, has_solved, create_solve,
}
use ctf_recruit.Game.Flags.{evaluate_flag}

module _ (o : Outside) where
  unfoldable pub challenge : Text → M o Challenge
  challenge ref = do (c, _) ← get_challenge o ref; pure c

  unfoldable pub attachment : Text → ℕ → M o (Attachment × Text)
  attachment ref key = get_challenge_attachment o ref key

  -- `value, err := …`, for a computation outside of the database.
  abbrev pub lift : {A : Type 0} → Result Error A → M o A
  lift (ok a) = pure a
  lift (err e) = throw e

  abbrev pub rejected : ℕ → SubmitResult
  rejected submission = record {
    submission_id = submission;
    correct = false;
    solved = false;
    message = codes "incorrect flag";
    awarded_points = pos 0;
    solved_at = none;
  }

  abbrev pub repeated : ℕ → SubmitResult
  repeated submission = record {
    submission_id = submission;
    correct = true;
    solved = false;
    message = codes "flag accepted, challenge already solved";
    awarded_points = pos 0;
    solved_at = none;
  }

  abbrev pub accepted : ℕ → ℤ → ℤ → SubmitResult
  accepted submission points at = record {
    submission_id = submission;
    correct = true;
    solved = true;
    message = codes "flag accepted";
    awarded_points = points;
    solved_at = some at;
  }

  -- What follows `HasSolved`.
  abbrev pub on_solved : Challenge → ℕ → ℕ → Bool → M o SubmitResult
  on_solved c user submission true = pure (repeated submission)
  on_solved c user submission false = do
    at ← create_solve o c.id user submission c.points
    pure (accepted submission c.points at)

  -- What follows `CreateSubmission`.
  abbrev pub on_judged : Challenge → ℕ → ℕ → Bool → M o SubmitResult
  on_judged c user submission false = pure (rejected submission)
  on_judged c user submission true = has_solved o c.id user >>= on_solved c user submission

  unfoldable pub submit_flag : ℕ → Text → Text → Text → M o SubmitResult
  submit_flag user ref flag ip = do
    (c, flag_value) ← get_challenge o ref
    correct ← lift (evaluate_flag o c.flag_type flag_value flag)
    (submission, _) ← create_submission o c.id user flag correct ip
    on_judged c user submission correct
