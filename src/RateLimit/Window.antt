-- ===== src/RateLimit/Window.antt =====
-- memoryRateLimiter.Allow over a series of requests: how many pass within one window.
use Prim.Native.Nat.{min}
use mathlib.Core.Logic.{◌⊎◌}
use ctf_recruit.Base.{
  ℕ, suc, ◌+◌, ◌-◌, ◌≤◌, Text, true, false, ◌≡◌, refl, Option, none, some, List, [], ◌∷◌, arith, ℤ,
  pos, ◌+ℤ◌, ◌<ℤ◌, ◌≤ℤ◌, text_beq, text_beq_iff, text_eq, if◌then◌else◌, All, Bool-cases, inl, inr,
  leb, ◌∙◌,
}
use ctf_recruit.Base.Dict
use ctf_recruit.RateLimit.{Bucket, Limiter, allow, allow_bucket, is_disabled}

pub record Request : Type 0 where
  pub at : ℤ
  pub key : Text

-- How many of the requests with key `k` pass, and the limiter afterwards.
unfoldable pub passed : Text → Limiter → List Request → ℕ
passed k l [] = 0
passed k l (r ∷ rs) =
    let (allowed, l') = allow l r.at r.key in
    let rest = passed k l' rs in
    if text_beq k r.key then (if allowed then suc rest else rest) else rest

unfoldable pub asked : Text → List Request → ℕ
asked k [] = 0
asked k (r ∷ rs) = if text_beq k r.key then suc (asked k rs) else asked k rs

-- A request under another key leaves the bucket of `k` alone.
allow_bucket_other :
    (l : Limiter) (now : ℤ) (key k : Text) (o : Option Bucket)
    → text_beq k key ≡ false
    → Dict.lookup k (allow_bucket l now key o).1.buckets ≡ Dict.lookup k l.buckets
unfolding allow_bucket
allow_bucket_other l now key k none h =
    ground (
      arith,
      Dict.lookup-insert k key (record { count = 1; window_end = now +ℤ l.window }) l.buckets,
    )
allow_bucket_other l now key k (some b) h = ground (
  arith,
  Dict.lookup-insert k key (record { count = 1; window_end = now +ℤ l.window }) l.buckets,
  Dict.lookup-insert k key (record b { count = b.count + 1 }) l.buckets,
)

allow_other :
    (l : Limiter) (now : ℤ) (key k : Text)
    → text_beq k key ≡ false
    → Dict.lookup k (allow l now key).1.buckets ≡ Dict.lookup k l.buckets
unfolding allow
allow_other l now key k h = elim (Bool-cases (is_disabled l)) [
  | inl off ↦ rw off refl
  | inr on ↦ rw on (allow_bucket_other l now key k (Dict.lookup key l.buckets) h)
]

-- The configuration is never written.
allow_config :
    (l : Limiter) (now : ℤ) (key : Text)
    → ((allow l now key).1.window ≡ l.window) × ((allow l now key).1.max ≡ l.max)
unfolding allow
allow_config l now key = ground arith

abbrev pub IsFresh : Text → ℤ → Limiter → Type 0
IsFresh k now l =
    (Dict.lookup k l.buckets ≡ none)
    ⊎ ((b : Bucket) × (Dict.lookup k l.buckets ≡ some b) × (b.window_end ≤ℤ now))

abbrev LiveBucket : Text → Limiter → Bucket → Type 0
LiveBucket k l b = Dict.lookup k l.buckets ≡ some b

still_enabled :
    (l : Limiter) (now : ℤ) (key : Text)
    → is_disabled l ≡ false
    → is_disabled (allow l now key).1 ≡ false
still_enabled l now key on = rw ((allow_config l now key).0, (allow_config l now key).1) on

counted : Limiter → Text → Bucket → Limiter
counted l k b = record l { buckets = Dict.insert k (record b { count = b.count + 1 }) l.buckets }

lookup-counted :
    (l : Limiter) (k : Text) (b : Bucket)
    → Dict.lookup k (counted l k b).buckets ≡ some (record b { count = b.count + 1 })
unfolding counted
lookup-counted l k b =
    ground
      (arith, Dict.lookup-insert k k (record b { count = b.count + 1 }) l.buckets, text_beq_iff k k)

-- A request in a window that is still open: it passes if the bucket has room, and is then counted.
allow_live :
    (l : Limiter) (m : ℕ) (now : ℤ) (k : Text) (b : Bucket)
    → is_disabled l ≡ false
    → l.max ≡ pos m
    → LiveBucket k l b
    → b.count ≤ m
    → now <ℤ b.window_end
    → ((b.count + 1 ≤ m) × (allow l now k ≡ (true, counted l k b)))
      ⊎ ((b.count ≡ m) × (allow l now k ≡ (false, l)))
unfolding allow counted
allow_live l m now k b on cap found room open_ = elim (Bool-cases (leb m b.count)) [
  | inl full ↦ inr (ground arith, ground arith)
  | inr below ↦ inl (ground arith, ground arith)
]

-- The first request of a window passes and opens it.
allow_fresh :
    (l : Limiter) (now : ℤ) (k : Text)
    → is_disabled l ≡ false
    → IsFresh k now l
    → allow l now k ≡ (
      true,
      record l {
        buckets = Dict.insert k (record { count = 1; window_end = now +ℤ l.window }) l.buckets;
      },
    )
unfolding allow
allow_fresh l now k on (inl unknown) = ground arith
allow_fresh l now k on (inr (b, found, over)) = ground arith

-- Requests within an open window, with those of other keys between them: they pass until the
-- window's count has reached the maximum.
passed_live :
    (k : Text) (m : ℕ) (rs : List Request) (l : Limiter) (b : Bucket)
    → is_disabled l ≡ false
    → l.max ≡ pos m
    → LiveBucket k l b
    → b.count ≤ m
    → All (λ r. r.at <ℤ b.window_end) rs
    → passed k l rs ≡ min (asked k rs) (m - b.count)
unfolding passed asked counted
passed_live k m [] l b on cap found room soon = omega arith
passed_live k m (r ∷ rs) l b on cap found room soon = elim (Bool-cases (text_beq k r.key)) [
  | inr other ↦ rw other (
      passed_live k m rs (allow l r.at r.key).1 b (still_enabled l r.at r.key on)
        ((allow_config l r.at r.key).1 ∙ cap) (allow_other l r.at r.key k other ∙ found) room
        soon.1)
  | inl same ↦ elim (allow_live l m r.at k b on cap found room soon.0) [
    | inl (below, e) ↦
        rw (same, ← (text_beq_iff k r.key).0 same, e)
          (omega (
            arith,
            passed_live k m rs (counted l k b) (record b { count = b.count + 1 }) on cap
                (lookup-counted l k b) below soon.1,
          ))
    | inr (full, e) ↦
        rw (same, ← (text_beq_iff k r.key).0 same, e)
          (omega (arith, passed_live k m rs l b on cap found room soon.1))
  ]
]

opened : Limiter → Text → ℤ → Limiter
opened l k now = record l {
  buckets = Dict.insert k (record { count = 1; window_end = now +ℤ l.window }) l.buckets;
}

lookup-opened :
    (l : Limiter) (k : Text) (now : ℤ)
    → Dict.lookup k (opened l k now).buckets
      ≡ some (record { count = 1; window_end = now +ℤ l.window })
unfolding opened
lookup-opened l k now = ground (
  arith,
  Dict.lookup-insert k k (record { count = 1; window_end = now +ℤ l.window }) l.buckets,
  text_beq_iff k k,
)

-- In a limiter that is switched on, with a maximum of `m`, take a request under a key `k` that has
-- no bucket or whose window is over. Of this request and those that come before its window ends,
-- whatever other keys come between them, exactly `m` under `k` pass, or all if there are fewer.
pub passed_window :
    (k : Text) (m : ℕ) (l : Limiter) (now : ℤ) (rs : List Request)
    → is_disabled l ≡ false
    → l.max ≡ pos m
    → IsFresh k now l
    → All (λ r. r.at <ℤ now +ℤ l.window) rs
    → let all = record { at = now; key = k } ∷ rs in passed k l all ≡ min (asked k all) m
unfolding passed asked opened
passed_window k m l now rs on cap fresh soon =
    let self : text_beq k k ≡ true = (text_beq_iff k k).1 refl in
    let positive : 1 ≤ m = ground arith in
    rw (self, allow_fresh l now k on fresh)
      (omega (
        arith,
        passed_live k m rs (opened l k now) (record { count = 1; window_end = now +ℤ l.window }) on
            cap (lookup-opened l k now) positive soon,
      ))
