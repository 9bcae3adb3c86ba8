-- ===== src/Importer/NormalMeta.antt =====
-- backend/internal/challengeimport/importer.go: which names, difficulties and statuses NormalizeSpec
-- returns.
use ctf_recruit.Base.{
  Text, Bool, true, false, ◌≡◌, ◌≢◌, refl, sym, ap, ◌∙◌, subst, inl, inr, [], pos, ◌<ℤ◌, leb_ℤ,
  Result, ok, err, ◌>>=◌, ◌>>◌, fail_if, codes, trim_space, to_lower, ◌==◌, text_eq, int_eq,
  if◌then◌else◌, Bool-cases, text_beq, text_beq_iff, arith, trim_left, is_space, lower_code,
}
use ctf_recruit.Base.Trim.{trim_space-twice, trim_space-to_lower, to_lower-twice}
use ctf_recruit.Runtime.Rules.{ok_injective}
use ctf_recruit.ChallengeStatus.{normalize_input_status, is_published, parse_status}
use ctf_recruit.ChallengeStatus.Laws.{IsStatus, normalize_input_status_lem}
use ctf_recruit.Importer.{
  ChallengeMeta, points_not_positive, slug_missing, title_missing, category_missing, status_invalid,
}
use ctf_recruit.Importer.Normal.{or_text, wrapped, cleaned_meta, normalize_meta}

module _ {E A : Type 0} where
  -- What a chain that returns a value has passed through.
  pub guard_inv :
      (b : Bool) (e : E) (k : Result E A) (a : A)
      → (fail_if b e >> k) ≡ ok a
      → (b ≡ false) × (k ≡ ok a)
  guard_inv true e k a h = absurd (cc)
  guard_inv false e k a h = (refl, h)

module _ {E A B : Type 0} where
  pub bind_inv :
      (m : Result E A) (f : A → Result E B) (b : B)
      → (m >>= f) ≡ ok b
      → (a : A) × (m ≡ ok a) × (f a ≡ ok b)
  bind_inv (ok a) f b h = (a, refl, h)
  bind_inv (err e) f b h = absurd (cc)

pub wrapped_inv :
    {E F A : Type 0} (f : E → F) (r : Result E A) (a : A) → wrapped f r ≡ ok a → r ≡ ok a
wrapped_inv f (ok a) b h = ap (λ x. ok x) (ok_injective h)
wrapped_inv f (err e) b h = absurd (cc)

-- Without outer blanks and not blank.
abbrev pub IsName : Text → Type 0
IsName s = (trim_space s ≡ s) × (s ≢ [])

pub trim_space-IsName : (s : Text) → (trim_space s == []) ≡ false → IsName (trim_space s)
unfolding text_beq
trim_space-IsName s h =
    (trim_space-twice s, λ e. absurd (ground (arith, text_beq_iff (trim_space s) [])))

pub record IsNormalMeta (m : ChallengeMeta) : Type 0 where
  pub slug : IsName m.slug
  pub title : IsName m.title
  pub category : IsName m.category
  pub difficulty : IsName m.difficulty
  pub lower : to_lower m.difficulty ≡ m.difficulty
  pub points : pos 0 <ℤ m.points
  pub status : IsStatus m.status
  pub visible : m.visible ≡ is_published m.status
  pub placed : m.sort_order ≢ pos 0

pub IsName-or_text :
    (fallback s : Text)
    → IsName fallback
    → to_lower fallback ≡ fallback
    → let t = or_text fallback (to_lower (trim_space s)) in IsName t × (to_lower t ≡ t)
unfolding text_beq
IsName-or_text fallback s name low = elim (Bool-cases (to_lower (trim_space s) == [])) [
  | inl blank ↦ rw blank (name, low)
  | inr given ↦ rw given (
    (
      trim_space-to_lower (trim_space s) ∙ ap to_lower (trim_space-twice s),
      λ e. absurd (ground (arith, text_beq_iff (to_lower (trim_space s)) [])),
    ),
    to_lower-twice (trim_space s),
  )
]

normalize_input_status-IsStatus :
    (status s : Text) (visible : Bool) → normalize_input_status status visible ≡ ok s → IsStatus s
normalize_input_status-IsStatus status s true h =
    elim ((normalize_input_status_lem status s true).0 h) [
      | inl (_, e) ↦ inr (inr (inr e))
      | inr (_, _, known) ↦ known
    ]
normalize_input_status-IsStatus status s false h =
    elim ((normalize_input_status_lem status s false).0 h) [
      | inl (_, e) ↦ inl e
      | inr (_, _, known) ↦ known
    ]

normal-IsName : IsName (codes "normal") × (to_lower (codes "normal") ≡ codes "normal")
unfolding trim_space trim_left is_space to_lower lower_code
normal-IsName = ((refl, λ e. cc), refl)

pub normalize_meta-IsNormalMeta :
    (m t : ChallengeMeta) → normalize_meta m ≡ ok t → IsNormalMeta t × (t.dynamic ≡ m.dynamic)
unfolding normalize_meta
normalize_meta-IsNormalMeta m t h =
    let (positive, h1) = guard_inv (leb_ℤ m.points (pos 0)) points_not_positive _ t h in
    let checked = wrapped status_invalid (normalize_input_status m.status m.visible) in
    let (s, h2, h3) = bind_inv checked _ t h1 in
    let (slug, h4) = guard_inv (trim_space m.slug == []) slug_missing _ t h3 in
    let (title, h5) = guard_inv (trim_space m.title == []) title_missing _ t h4 in
    let (category, h6) = guard_inv (trim_space m.category == []) category_missing _ t h5 in
    let (name, low) = normal-IsName in
    let (difficulty, lower) = IsName-or_text (codes "normal") m.difficulty name low in
    let cleaned : IsNormalMeta (cleaned_meta m s) = record {
      slug = trim_space-IsName m.slug slug;
      title = trim_space-IsName m.title title;
      category = trim_space-IsName m.category category;
      difficulty = difficulty;
      lower = lower;
      points = ground arith;
      status =
          normalize_input_status-IsStatus m.status s m.visible
            (wrapped_inv status_invalid (normalize_input_status m.status m.visible) s h2);
      visible = refl;
      placed = ground arith;
    } in
    subst (λ (t : ChallengeMeta). IsNormalMeta t × (t.dynamic ≡ m.dynamic)) (ok_injective h6)
      (cleaned, refl)

pub IsName-given : (s : Text) → IsName s → (trim_space s == []) ≡ false
unfolding text_beq
IsName-given s (same, given) = rw same (ground (arith, text_beq_iff s []))

pub or_text-same :
    (fallback s : Text) → IsName s → to_lower s ≡ s → or_text fallback (to_lower (trim_space s)) ≡ s
unfolding text_beq
or_text-same fallback s (same, given) low = rw (same, low) (ground (arith, text_beq_iff s []))

normalize_input_status-same :
    (s : Text) (visible : Bool) → IsStatus s → normalize_input_status s visible ≡ ok s
unfolding normalize_input_status parse_status text_beq trim_space trim_left is_space to_lower
    lower_code
normalize_input_status-same s visible (inl e) = rw e refl
normalize_input_status-same s visible (inr (inl e)) = rw e refl
normalize_input_status-same s visible (inr (inr (inl e))) = rw e refl
normalize_input_status-same s visible (inr (inr (inr e))) = rw e refl

cleaned_meta-same : (m : ChallengeMeta) → IsNormalMeta m → cleaned_meta m m.status ≡ m
cleaned_meta-same m n =
    let difficulty = or_text-same (codes "normal") m.difficulty n.difficulty n.lower in
    let order : (if m.sort_order == pos 0 then pos 10 else m.sort_order) ≡ m.sort_order =
      let apart = n.placed in ground arith in
    λ i. record m {
      slug = n.slug.0 i;
      title = n.title.0 i;
      category = n.category.0 i;
      difficulty = difficulty i;
      visible = sym n.visible i;
      sort_order = order i;
    }

pub normalize_meta-same : (m : ChallengeMeta) → IsNormalMeta m → normalize_meta m ≡ ok m
unfolding normalize_meta
normalize_meta-same m n =
    let positive : leb_ℤ m.points (pos 0) ≡ false = let p = n.points in ground arith in
    rw
      (
        positive,
        normalize_input_status-same m.status m.visible n.status,
        IsName-given m.slug n.slug,
        IsName-given m.title n.title,
        IsName-given m.category n.category,
      )
      (ap (λ x. ok x) (cleaned_meta-same m n))
