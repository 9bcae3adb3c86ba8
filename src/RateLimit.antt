-- ===== src/RateLimit.antt =====
-- backend/internal/app/rate_limiter.go (the limiter in memory and the fallback) and enforceRateLimit
-- of backend/internal/app/limiters.go. The reading of the clock is an argument.
pub mod Window
pub mod Redis
pub mod Built
pub mod Submissions
mod Tests
use ctf_recruit.Base.{
  ℕ, ◌+◌, Text, Bool, true, false, ◌||◌, not, Option, none, some, List, [], ◌∷◌, ℤ, pos, ◌+ℤ◌,
  ltb_ℤ, leb_ℤ, Result, ok, err, text_eq, if◌then◌else◌,
}
use ctf_recruit.Base.Dict
use ctf_recruit.Base.Dict.{Dict}

pub record Bucket : Type 0 where
  pub count : ℕ
  pub window_end : ℤ

pub record Limiter : Type 0 where
  pub window : ℤ
  pub max : ℤ
  pub buckets : Dict Text Bucket

unfoldable pub new_memory_rate_limiter : ℤ → ℤ → Limiter
new_memory_rate_limiter window max = record { window = window; max = max; buckets = [] }

-- The part of `Allow` under the lock, on the bucket that the map holds for the key.
unfoldable pub allow_bucket : Limiter → ℤ → Text → Option Bucket → Bool × Limiter
allow_bucket l now key none = (
  true,
  record l {
    buckets = Dict.insert key (record { count = 1; window_end = now +ℤ l.window }) l.buckets;
  },
)
allow_bucket l now key (some bucket) =
    if not (ltb_ℤ now bucket.window_end)
    then (
      true,
      record l {
        buckets = Dict.insert key (record { count = 1; window_end = now +ℤ l.window }) l.buckets;
      },
    )
    else if leb_ℤ l.max (pos bucket.count)
    then (false, l)
    else (
      true,
      record l { buckets = Dict.insert key (record bucket { count = bucket.count + 1 }) l.buckets },
    )

abbrev pub is_disabled : Limiter → Bool
is_disabled l = leb_ℤ l.window (pos 0) || leb_ℤ l.max (pos 0)

-- memoryRateLimiter.Allow, on a limiter that is not nil.
unfoldable pub allow : Limiter → ℤ → Text → Bool × Limiter
unfolding allow_bucket
allow l now key =
    if is_disabled l then (true, l) else allow_bucket l now key (Dict.lookup key l.buckets)

-- The same with the receiver as it is called: `none` is nil.
unfoldable pub allow_pointer : Option Limiter → ℤ → Text → Bool × Option Limiter
allow_pointer none now key = (true, none)
allow_pointer (some l) now key = let (allowed, l') = allow l now key in (allowed, some l')

-- The interface `RateLimiter` over a state `S`.
abbrev pub RateLimiter : Type 0 → Type 0 → Type 0
RateLimiter S E = Text → S → Result E Bool × S

module _ {S E : Type 0} where
  -- fallbackRateLimiter.Allow, less the log line.
  abbrev on_reply : RateLimiter S E → Text → Result E Bool × S → Result E Bool × S
  on_reply fallback key (ok allowed, s) = (ok allowed, s)
  on_reply fallback key (err e, s) = fallback key s

  unfoldable pub fallback_allow : RateLimiter S E → RateLimiter S E → RateLimiter S E
  fallback_allow primary fallback key s = on_reply fallback key (primary key s)

  unfoldable pub new_fallback_rate_limiter :
      Option (RateLimiter S E) → Option (RateLimiter S E) → Option (RateLimiter S E)
  unfolding fallback_allow
  new_fallback_rate_limiter none fallback = fallback
  new_fallback_rate_limiter (some primary) none = some primary
  new_fallback_rate_limiter (some primary) (some fallback) = some (fallback_allow primary fallback)

  unfoldable pub enforce_rate_limit : Option (RateLimiter S E) → RateLimiter S E
  enforce_rate_limit none key s = (ok true, s)
  enforce_rate_limit (some limiter) key s = limiter key s
