-- ===== src/RateLimit/Tests.antt =====
-- Examples for backend/internal/app/rate_limiter.go and backend/internal/app/limiters.go.
use Prim.Native.Nat.{min}
use ctf_recruit.Base.{
  ◌≡◌, refl, false, not, none, Bool, ok, inl, List, [], ◌∷◌, arith, pos, ◌+ℤ◌, codes,
}
use ctf_recruit.Base.Dict.{lookup}
use ctf_recruit.RateLimit.{new_memory_rate_limiter}
use ctf_recruit.Config.{Config, load, rate_limit_window}
use ctf_recruit.RateLimit.Redis.{Network}
use ctf_recruit.RateLimit.Built.{Site, build, redis_for, in_memory_only, Answered, build-Answered}
use ctf_recruit.RateLimit.Submissions.{
  verdicts, memory_verdicts, new_submission_limiter, verdicts-new,
}
use ctf_recruit.RateLimit.Window.{Request, passed, asked, passed_window}

abbrev requests : List Request
requests =
    record { at = pos 1; key = codes "a" }
    ∷ record { at = pos 2; key = codes "b" }
    ∷ record { at = pos 3; key = codes "a" }
    ∷ []

passed_window_example :
    passed
      (codes "a")
      (new_memory_rate_limiter (pos 60) (pos 2))
      (record { at = pos 0; key = codes "a" } ∷ requests)
    ≡ min (asked (codes "a") (record { at = pos 0; key = codes "a" } ∷ requests)) 2
unfolding new_memory_rate_limiter lookup ◌+ℤ◌
passed_window_example =
    passed_window (codes "a") 2 (new_memory_rate_limiter (pos 60) (pos 2)) (pos 0) requests refl
      refl (inl refl) (omega arith, (omega arith, (omega arith, tt)))

-- A network on which no server answers.
abbrev dead : Network
dead = record {
  State = Unit {0};
  now = λ s. (pos 5, s);
  dial = λ addr s. (false, s);
  close = λ s. s;
  send = λ text s. (false, s);
  read_byte = λ s. (none, s);
  read_line = λ s. (none, s);
}

abbrev defaults : Config
defaults = load (λ key. []) (λ text. none)

abbrev site : Site dead
site = (new_memory_rate_limiter (pos 60000000000) (pos 1), tt)

build-Answered_example :
    let reply = (build dead defaults (codes "login") (pos 60) (pos 1)).1 (codes "k") site in
    ((allowed : Bool) × (reply.0 ≡ ok allowed))
    × Answered dead
        (redis_for dead defaults (codes "login") (rate_limit_window (pos 60)) (pos 1))
        (not (in_memory_only dead defaults (rate_limit_window (pos 60)) (pos 1)))
        (codes "k")
        site
        reply
build-Answered_example =
    build-Answered dead defaults (codes "login") (pos 60) (pos 1) (codes "k") site

verdicts-new_example :
    verdicts (new_submission_limiter (pos 60) (pos 1)) requests
    ≡ memory_verdicts (new_memory_rate_limiter (pos 60) (pos 1)) requests
verdicts-new_example = verdicts-new (pos 60) (pos 1) requests
