-- ===== src/Base/Trim.antt =====
-- What strings.TrimSpace and strings.ToLower do to a text that they have been through already.
use mathlib.Core.Path.{◌≡◌, refl, sym, ap, ◌∙◌, subst}
use mathlib.Core.Logic.{inl, inr}
use mathlib.Core.Bool.{false}
use mathlib.Core.List.{[], ◌∷◌, ◌++◌, map, reverse, reverse_aux, reverse-append, reverse-reverse}
use Prim.Native.Nat.{ℕ}
use native.Mathlib.Omega.{arith}
use ctf_recruit.Base.Tests.{Text, Bool-cases}
use ctf_recruit.Base.Strings.{is_space, trim_left, trim_space, lower_code, to_lower}

pub lower_code-twice : (c : ℕ) → lower_code (lower_code c) ≡ lower_code c
unfolding lower_code
lower_code-twice c = ground arith

pub to_lower-twice : (s : Text) → to_lower (to_lower s) ≡ to_lower s
unfolding to_lower
to_lower-twice [] = refl
to_lower-twice (c ∷ s) = rw (lower_code-twice c, to_lower-twice s) refl

is_space-lower_code : (c : ℕ) → is_space (lower_code c) ≡ is_space c
unfolding is_space lower_code
is_space-lower_code c = ground arith

-- No space in front.
NoLead : Text → Type 0
NoLead [] = Unit
NoLead (c ∷ s) = is_space c ≡ false

trim_left-NoLead : (s : Text) → NoLead (trim_left s)
unfolding NoLead trim_left
trim_left-NoLead [] = tt
trim_left-NoLead (c ∷ s) = elim (Bool-cases (is_space c)) [
  | inl space ↦ rw space (trim_left-NoLead s)
  | inr other ↦ rw other other
]

trim_left-same : (s : Text) → NoLead s → trim_left s ≡ s
unfolding NoLead trim_left
trim_left-same [] h = refl
trim_left-same (c ∷ s) h = rw h refl

-- What is cut off in front.
trim_left_suffix : (s : Text) → (p : Text) × (s ≡ p ++ trim_left s)
unfolding trim_left
trim_left_suffix [] = ([], refl)
trim_left_suffix (c ∷ s) = elim (Bool-cases (is_space c)) [
  | inl space ↦ let (p, e) = trim_left_suffix s in (c ∷ p, rw space (ap (λ t. c ∷ t) e))
  | inr other ↦ ([], rw other refl)
]

NoLead-prefix : (a b : Text) → NoLead (a ++ b) → NoLead a
unfolding NoLead
NoLead-prefix [] b h = tt
NoLead-prefix (c ∷ a) b h = h

trim_space-NoLead : (s : Text) → NoLead (trim_space s)
unfolding trim_space
trim_space-NoLead s =
    let t = trim_left s in
    let (p, e) = trim_left_suffix (reverse t) in
    let whole : t ≡ reverse (trim_left (reverse t)) ++ reverse p =
      sym (reverse-reverse t) ∙ ap reverse e ∙ reverse-append p (trim_left (reverse t)) in
    NoLead-prefix (reverse (trim_left (reverse t))) (reverse p)
      (subst NoLead whole (trim_left-NoLead s))

pub trim_space-twice : (s : Text) → trim_space (trim_space s) ≡ trim_space s
unfolding trim_space
trim_space-twice s =
    let u = trim_left (reverse (trim_left s)) in
    ap (λ t. reverse (trim_left (reverse t))) (trim_left-same (reverse u) (trim_space-NoLead s))
    ∙ ap (λ t. reverse (trim_left t)) (reverse-reverse u)
    ∙ ap reverse (trim_left-same u (trim_left-NoLead (reverse (trim_left s))))

trim_left-to_lower : (s : Text) → trim_left (to_lower s) ≡ to_lower (trim_left s)
unfolding trim_left to_lower
trim_left-to_lower [] = refl
trim_left-to_lower (c ∷ s) = elim (Bool-cases (is_space c)) [
  | inl space ↦ rw (is_space-lower_code c, space) (trim_left-to_lower s)
  | inr other ↦ rw (is_space-lower_code c, other) refl
]

map-reverse_aux :
    (f : ℕ → ℕ) (s t : Text) → map f (reverse_aux s t) ≡ reverse_aux (map f s) (map f t)
map-reverse_aux f [] t = refl
map-reverse_aux f (c ∷ s) t = map-reverse_aux f s (c ∷ t)

pub trim_space-to_lower : (s : Text) → trim_space (to_lower s) ≡ to_lower (trim_space s)
unfolding trim_space to_lower
trim_space-to_lower s =
    ap (λ t. reverse (trim_left (reverse t))) (trim_left-to_lower s)
    ∙ ap (λ t. reverse (trim_left t)) (sym (map-reverse_aux lower_code (trim_left s) []))
    ∙ ap reverse (trim_left-to_lower (reverse (trim_left s)))
    ∙ sym (map-reverse_aux lower_code (trim_left (reverse (trim_left s))) [])
