-- ===== src/Config/Laws.antt =====
-- backend/internal/config/config.go: what Validate accepts, and what the service makes of it.
use ctf_recruit.Base.{
  ℕ, ◌*◌, ◌≤◌, Text, true, false, ◌≡◌, ◌≢◌, refl, ◌↔◌, ◌⊎◌, inl, inr, [], arith, ℤ, pos, ◌≤ℤ◌, ok,
  err, trim_space, text_beq_iff, Bool-cases, scale, wrap_int64, Result, ◌==◌, text_eq, ◌||◌,
  if◌then◌else◌,
}
use ctf_recruit.Config.{
  Config, ConfigError, default_dev_jwt_secret, legacy_default_jwt_secret, is_development,
  validate_runtime_port_range, validate, rate_limit_window,
}
use ctf_recruit.Runtime.{ServiceConfig}
use ctf_recruit.Runtime.Service.{new_service}

-- No range, or a range of ports from 1024 to 65535.
abbrev pub IsRange : ℤ → ℤ → Type 0
IsRange min max =
    ((min ≡ pos 0) × (max ≡ pos 0)) ⊎ ((pos 1024 ≤ℤ min) × (min ≤ℤ max) × (max ≤ℤ pos 65535))

-- A secret that is not blank and none of the two that the repository names.
abbrev pub IsSecret : Text → Type 0
IsSecret secret =
    (secret ≢ []) × (secret ≢ default_dev_jwt_secret) × (secret ≢ legacy_default_jwt_secret)

validate_runtime_port_range-IsRange :
    (min max : ℤ) → (validate_runtime_port_range min max ≡ ok tt) ↔ IsRange min max
unfolding validate_runtime_port_range
validate_runtime_port_range-IsRange min max = ground arith

-- The checks of the secret in front of another one.
guarded :
    (s : Text) (e e' : ConfigError) (r : Result ConfigError (Unit {0})) (P : Type 0)
    → (r ≡ ok tt) ↔ P
    → ((if s == []
          then err e
          else if s == default_dev_jwt_secret || s == legacy_default_jwt_secret
          then err e'
          else r)
        ≡ ok tt)
      ↔ ((false ≡ true) ⊎ (IsSecret s × P))
guarded s e e' r P range = ground (
  arith,
  range,
  text_beq_iff s [],
  text_beq_iff s default_dev_jwt_secret,
  text_beq_iff s legacy_default_jwt_secret,
)

-- A configuration is accepted exactly if it is one for development, or if its secret without outer
-- blanks is neither empty nor one of the two defaults and its ports are both 0 or a range within
-- 1024 to 65535.
pub validate_lem :
    (c : Config)
    → (validate c ≡ ok tt) ↔ (
        (is_development c ≡ true)
        ⊎ (IsSecret (trim_space c.jwt_secret) × IsRange c.runtime_port_min c.runtime_port_max))
unfolding validate
validate_lem c = elim (Bool-cases (is_development c)) [
  | inl dev ↦ (λ _. inl dev, λ _. rw dev refl)
  | inr prod ↦
      let s = trim_space c.jwt_secret in
      let range = validate_runtime_port_range-IsRange c.runtime_port_min c.runtime_port_max in
      rw prod
        (guarded s _ _ (validate_runtime_port_range c.runtime_port_min c.runtime_port_max) _ range)
]

-- A range that is accepted outside of development is the one that the runtime service works with.
pub new_service_range :
    (c : Config) (cfg : ServiceConfig)
    → is_development c ≡ false
    → validate c ≡ ok tt
    → cfg.port_min ≡ c.runtime_port_min
    → cfg.port_max ≡ c.runtime_port_max
    → ((new_service cfg).port_min ≡ c.runtime_port_min)
      × ((new_service cfg).port_max ≡ c.runtime_port_max)
unfolding new_service
new_service_range c cfg prod valid min max = elim ((validate_lem c).0 valid) [
  | inl dev ↦ cc
  | inr (_, range) ↦ rw (← min, ← max) (kept cfg (rw (min, max) range))
]
  where
    kept :
        (cfg : ServiceConfig)
        → IsRange cfg.port_min cfg.port_max
        → ((new_service cfg).port_min ≡ cfg.port_min) × ((new_service cfg).port_max ≡ cfg.port_max)
    kept cfg (inl none) = ground arith
    kept cfg (inr range) = ground arith

-- A positive number of seconds up to 9223372036 is turned into as many nanoseconds.
rate_limit_window_exact :
    (n : ℕ) → 1 ≤ n → n ≤ 9223372036 → rate_limit_window (pos n) ≡ pos (1000000000 * n)
unfolding rate_limit_window scale wrap_int64
rate_limit_window_exact n some_ few = ground arith
