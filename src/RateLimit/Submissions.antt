-- ===== src/RateLimit/Submissions.antt =====
-- backend/internal/app/submission_limiter.go: the limiter in memory in its older form.
use ctf_recruit.Base.{
  ℕ, ◌+◌, Text, Bool, true, false, ◌≡◌, refl, ap, ◌||◌, not, Option, none, some, List, [], ◌∷◌, ℤ,
  pos, ◌+ℤ◌, ltb_ℤ, leb_ℤ, text_eq, if◌then◌else◌, Bool-cases, inl, inr, ◌==◌,
}
use ctf_recruit.Base.Dict
use ctf_recruit.Base.Dict.{Dict}
use ctf_recruit.RateLimit.{Bucket, Limiter, allow, allow_bucket, new_memory_rate_limiter}
use ctf_recruit.RateLimit.Window.{Request}

pub record SubmissionBucket : Type 0 where
  pub count : ℕ
  pub window_end : ℤ

pub record SubmissionLimiter : Type 0 where
  pub window : ℤ
  pub max : ℤ
  pub buckets : Dict Text SubmissionBucket

unfoldable pub new_submission_limiter : ℤ → ℤ → SubmissionLimiter
new_submission_limiter window max = record { window = window; max = max; buckets = [] }

abbrev put : SubmissionLimiter → Text → ℕ → ℤ → SubmissionLimiter
put l key count window_end = record l {
  buckets = Dict.insert key (record { count = count; window_end = window_end }) l.buckets;
}

-- The part of Allow under the lock.
unfoldable pub allow_submission_bucket :
    SubmissionLimiter → ℤ → Text → Option SubmissionBucket → Bool × SubmissionLimiter
allow_submission_bucket l now key none = (true, put l key 1 (now +ℤ l.window))
allow_submission_bucket l now key (some bucket) =
    if not (ltb_ℤ now bucket.window_end)
    then (true, put l key 1 (now +ℤ l.window))
    else if leb_ℤ l.max (pos bucket.count)
    then (false, l)
    else (true, put l key (bucket.count + 1) bucket.window_end)

-- submissionLimiter.Allow, on a limiter that is not nil.
unfoldable pub allow_submission : SubmissionLimiter → ℤ → Text → Bool × SubmissionLimiter
unfolding allow_submission_bucket
allow_submission l now key =
    if leb_ℤ l.window (pos 0) || leb_ℤ l.max (pos 0)
    then (true, l)
    else allow_submission_bucket l now key (Dict.lookup key l.buckets)

-- The verdicts of a series of requests.
unfoldable pub verdicts : SubmissionLimiter → List Request → List Bool
verdicts l [] = []
verdicts l (r ∷ rs) =
    (allow_submission l r.at r.key).0 ∷ verdicts (allow_submission l r.at r.key).1 rs

unfoldable pub memory_verdicts : Limiter → List Request → List Bool
memory_verdicts l [] = []
memory_verdicts l (r ∷ rs) = (allow l r.at r.key).0 ∷ memory_verdicts (allow l r.at r.key).1 rs

abbrev to_bucket : SubmissionBucket → Bucket
to_bucket b = record { count = b.count; window_end = b.window_end }

to_buckets : Dict Text SubmissionBucket → Dict Text Bucket
to_buckets [] = []
to_buckets ((k, b) ∷ d) = (k, to_bucket b) ∷ to_buckets d

abbrev to_option : Option SubmissionBucket → Option Bucket
to_option none = none
to_option (some b) = some (to_bucket b)

-- The newer limiter with the same contents.
to_memory : SubmissionLimiter → Limiter
unfolding to_buckets
to_memory l = record { window = l.window; max = l.max; buckets = to_buckets l.buckets }

lookup-to_buckets :
    (key : Text) (d : Dict Text SubmissionBucket)
    → Dict.lookup key (to_buckets d) ≡ to_option (Dict.lookup key d)
unfolding to_buckets Dict.lookup
lookup-to_buckets key [] = refl
lookup-to_buckets key ((k, b) ∷ d) = elim (Bool-cases (key == k)) [
  | inl here ↦ rw here refl
  | inr other ↦ rw other (lookup-to_buckets key d)
]

insert-to_buckets :
    (key : Text) (b : SubmissionBucket) (d : Dict Text SubmissionBucket)
    → Dict.insert key (to_bucket b) (to_buckets d) ≡ to_buckets (Dict.insert key b d)
unfolding to_buckets Dict.insert
insert-to_buckets key b [] = refl
insert-to_buckets key b ((k, c) ∷ d) = elim (Bool-cases (key == k)) [
  | inl here ↦ rw here refl
  | inr other ↦ rw other (ap (λ t. (k, to_bucket c) ∷ t) (insert-to_buckets key b d))
]

put-to_memory :
    (l : SubmissionLimiter) (key : Text) (n : ℕ) (t : ℤ)
    → record (to_memory l) {
      buckets = Dict.insert key (record { count = n; window_end = t }) (to_memory l).buckets;
    }
      ≡ to_memory (put l key n t)
unfolding to_memory
put-to_memory l key n t =
    rw (insert-to_buckets key (record { count = n; window_end = t }) l.buckets) refl

allow_bucket-to_memory :
    (l : SubmissionLimiter) (now : ℤ) (key : Text) (o : Option SubmissionBucket)
    → let (allowed, l') = allow_submission_bucket l now key o in
      allow_bucket (to_memory l) now key (to_option o) ≡ (allowed, to_memory l')
unfolding allow_bucket allow_submission_bucket to_memory
allow_bucket-to_memory l now key none =
    ap (λ m. (true, m)) (put-to_memory l key 1 (now +ℤ l.window))
allow_bucket-to_memory l now key (some b) = elim (Bool-cases (ltb_ℤ now b.window_end)) [
  | inr over ↦ rw over (ap (λ m. (true, m)) (put-to_memory l key 1 (now +ℤ l.window)))
  | inl open_ ↦ elim (Bool-cases (leb_ℤ l.max (pos b.count))) [
    | inl full ↦ rw (open_, full) refl
    | inr room ↦
        rw (open_, room) (ap (λ m. (true, m)) (put-to_memory l key (b.count + 1) b.window_end))
  ]
]

-- One request: the same verdict, and the limiters agree afterwards.
allow-to_memory :
    (l : SubmissionLimiter) (now : ℤ) (key : Text)
    → allow (to_memory l) now key
      ≡ ((allow_submission l now key).0, to_memory (allow_submission l now key).1)
unfolding to_memory allow allow_submission
allow-to_memory l now key = elim (Bool-cases (leb_ℤ l.window (pos 0) || leb_ℤ l.max (pos 0))) [
  | inl off ↦ rw off refl
  | inr on ↦
      rw (on, lookup-to_buckets key l.buckets)
        (allow_bucket-to_memory l now key (Dict.lookup key l.buckets))
]

same_verdicts :
    (l : SubmissionLimiter) (rs : List Request) → verdicts l rs ≡ memory_verdicts (to_memory l) rs
unfolding verdicts memory_verdicts
same_verdicts l [] = refl
same_verdicts l (r ∷ rs) = rw (allow-to_memory l r.at r.key) (
    ap (λ t. (allow_submission l r.at r.key).0 ∷ t)
      (same_verdicts (allow_submission l r.at r.key).1 rs))

-- A submission limiter and a limiter in memory that are made with the same window and maximum give
-- the same verdict on every request of every series of requests.
pub verdicts-new :
    (window max : ℤ) (rs : List Request)
    → verdicts (new_submission_limiter window max) rs
      ≡ memory_verdicts (new_memory_rate_limiter window max) rs
unfolding new_submission_limiter new_memory_rate_limiter to_memory to_buckets
verdicts-new window max rs = same_verdicts (new_submission_limiter window max) rs
