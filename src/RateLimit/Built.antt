-- ===== src/RateLimit/Built.antt =====
-- backend/internal/app/limiters.go: the limiters that the server is built with, and their keys.
use ctf_recruit.Base.{
  ℕ, Text, Bool, true, false, ◌≡◌, refl, ◌⊎◌, inl, inr, ◌||◌, not, List, [], ◌∷◌, ◌++◌, ℤ, pos,
  leb_ℤ, Result, ok, err, Result-cases, Bool-cases, codes, trim_space, to_lower, ◌==◌, text_eq,
  if◌then◌else◌,
}
use ctf_recruit.Base.Decimal.{decimal}
use ctf_recruit.Config.{Config, rate_limit_window}
use ctf_recruit.RateLimit.{
  Limiter, RateLimiter, allow, is_disabled, fallback_allow, new_memory_rate_limiter,
}
use ctf_recruit.RateLimit.Redis.{Error, Network, RedisLimiter, redis_allow}

-- The state that a request's limiter works on: the limiter in memory, and the network.
abbrev pub Site : Network → Type 0
Site n = Limiter × n.State

module _ (n : Network) where
  -- memoryRateLimiter.Allow, which reads the clock if it is switched on.
  unfoldable pub memory_allow : RateLimiter (Site n) Error
  memory_allow key (l, s) =
      if is_disabled l
      then (ok true, (l, s))
      else (ok (allow l (n.now s).0 key).0, ((allow l (n.now s).0 key).1, (n.now s).1))

  -- redisRateLimiter.Allow leaves the limiter in memory alone.
  unfoldable pub redis_on_site : RedisLimiter → RateLimiter (Site n) Error
  redis_on_site r key (l, s) = ((redis_allow n r key s).0, (l, (redis_allow n r key s).1))

  abbrev pub redis_enabled : Config → Bool
  redis_enabled cfg = not (trim_space cfg.redis_addr == [])

  abbrev pub redis_for : Config → Text → ℤ → ℤ → RedisLimiter
  redis_for cfg scope window max = record {
    addr = cfg.redis_addr;
    password = cfg.redis_password;
    db = cfg.redis_db;
    prefix = cfg.redis_key_prefix ++ (codes "rl:" ++ (scope ++ codes ":"));
    window = window;
    max = max;
  }

  abbrev pub in_memory_only : Config → ℤ → ℤ → Bool
  in_memory_only cfg window max =
      not (redis_enabled cfg) || leb_ℤ window (pos 0) || leb_ℤ max (pos 0)

  -- The function `build` of newAppLimiters: the limiter in memory that it makes, and the limiter.
  unfoldable pub build : Config → Text → ℤ → ℤ → Limiter × RateLimiter (Site n) Error
  build cfg scope seconds max =
      let window = rate_limit_window seconds in
      (
        new_memory_rate_limiter window max,
        if in_memory_only cfg window max
            then memory_allow
            else fallback_allow (redis_on_site (redis_for cfg scope window max)) memory_allow,
      )

-- One of the server's limiters, with its state in memory.
pub record AppLimiters (n : Network) : Type 0 where
  pub register : Limiter × RateLimiter (Site n) Error
  pub login : Limiter × RateLimiter (Site n) Error
  pub submission : Limiter × RateLimiter (Site n) Error
  pub admin_write : Limiter × RateLimiter (Site n) Error
  pub redis_available : Bool

unfoldable pub new_app_limiters : (n : Network) → Config → AppLimiters n
unfolding build
new_app_limiters n cfg = record {
  register =
      build n cfg (codes "register") cfg.register_rate_limit_window_seconds
        cfg.register_rate_limit_max;
  login = build n cfg (codes "login") cfg.login_rate_limit_window_seconds cfg.login_rate_limit_max;
  submission =
      build n cfg (codes "submission") cfg.submission_rate_limit_window_seconds
        cfg.submission_rate_limit_max;
  admin_write =
      build n cfg (codes "admin_write") cfg.admin_write_rate_limit_window_seconds
        cfg.admin_write_rate_limit_max;
  redis_available = redis_enabled n cfg;
}

-- limitKey
unfoldable pub limit_key : List Text → Text
limit_key [] = []
limit_key (part ∷ []) = part
limit_key (part ∷ next ∷ parts) = part ++ (codes ":" ++ limit_key (next ∷ parts))

-- The keys, on the address that requestSourceIP gives.
unfoldable pub auth_rate_limit_key : Text → Text → Text → Text
unfolding limit_key
auth_rate_limit_key prefix identifier ip =
    let name = to_lower (trim_space identifier) in
    limit_key (prefix ∷ ip ∷ (if name == [] then codes "anonymous" else name) ∷ [])

unfoldable pub register_rate_limit_key : Text → Text
unfolding limit_key
register_rate_limit_key ip = limit_key (codes "register" ∷ ip ∷ [])

unfoldable pub admin_rate_limit_key : Text → Text → ℕ → Text
unfolding limit_key
admin_rate_limit_key action ip actor = limit_key (codes "admin" ∷ action ∷ decimal actor ∷ ip ∷ [])

-- The answer of a built limiter: Redis's, with the limiter in memory as it was, or the answer of the
-- limiter in memory if Redis is not used or failed.
pub data Answered (n : Network) (r : RedisLimiter) (used : Bool) (key : Text) (site : Site n)
    (reply : Result Error Bool × Site n) : Type 0 where
  by_redis :
      (allowed : Bool)
      → used ≡ true
      → (redis_on_site n r key site).0 ≡ ok allowed
      → reply ≡ (ok allowed, (redis_on_site n r key site).1)
      → Answered n r used key site reply
  by_memory :
      (site' : Site n)
      → ((used ≡ false) × (site' ≡ site))
        ⊎ ((e : Error) × ((redis_on_site n r key site).0 ≡ err e)
            × (site' ≡ (redis_on_site n r key site).1))
      → reply ≡ memory_allow n key site'
      → Answered n r used key site reply

memory_allow-ok :
    (n : Network) (key : Text) (site : Site n)
    → (allowed : Bool) × ((memory_allow n key site).0 ≡ ok allowed)
unfolding memory_allow
memory_allow-ok n key (l, s) = elim (Bool-cases (is_disabled l)) [
  | inl off ↦ (true, rw off refl)
  | inr on ↦ ((allow l (n.now s).0 key).0, rw on refl)
]

fallback-Answered :
    (n : Network) (r : RedisLimiter) (key : Text) (site : Site n)
    → let reply = fallback_allow (redis_on_site n r) (memory_allow n) key site in
      ((allowed : Bool) × (reply.0 ≡ ok allowed)) × Answered n r true key site reply
unfolding fallback_allow
fallback-Answered n r key site = elim (Result-cases (redis_on_site n r key site).0) [
  | inl (allowed, e) ↦ rw e ((allowed, refl), by_redis allowed refl e refl)
  | inr (failed, e) ↦
      let site' = (redis_on_site n r key site).1 in
      rw e (memory_allow-ok n key site', by_memory site' (inr (failed, e, refl)) refl)
]

-- Every limiter that is built answers every request without an error: with Redis's verdict if Redis
-- is used and gave one, and else, also after an error of Redis, with the verdict of the limiter in
-- memory, whose counts Redis's verdicts leave as they were.
pub build-Answered :
    (n : Network) (cfg : Config) (scope : Text) (seconds max : ℤ) (key : Text) (site : Site n)
    → let window = rate_limit_window seconds in
      let reply = (build n cfg scope seconds max).1 key site in
      ((allowed : Bool) × (reply.0 ≡ ok allowed))
      × Answered n
          (redis_for n cfg scope window max)
          (not (in_memory_only n cfg window max))
          key
          site
          reply
unfolding build
build-Answered n cfg scope seconds max key site =
    let window = rate_limit_window seconds in
    elim (Bool-cases (in_memory_only n cfg window max)) [
      | inl alone ↦ rw alone (memory_allow-ok n key site, by_memory site (inl (refl, refl)) refl)
      | inr redis ↦ rw redis (fallback-Answered n (redis_for n cfg scope window max) key site)
    ]
