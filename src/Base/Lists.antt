-- ===== src/Base/Lists.antt =====
-- Lists measured by native numbers, with the tests of the program as Boolean predicates.
use Prim.Native.Nat.{ℕ, suc, ◌+◌}
use mathlib.Core.Path.{◌≡◌, refl}
use mathlib.Core.Logic.{◌⊎◌}
use mathlib.Core.Bool.{Bool, false, ◌||◌}
use mathlib.Core.List.{List, [], ◌∷◌, ◌++◌}
use native.Mathlib.Omega.{arith}
use ctf_recruit.Base.Tests.{if◌then◌else◌, Comparable, ◌==◌}

module _ {ℓ} {A : Type ℓ} where
  abbrev pub length : List A → ℕ
  length [] = 0
  length (x ∷ xs) = suc (length xs)

  -- The items that pass a test, in their order.
  abbrev pub keep : (A → Bool) → List A → List A
  keep p [] = []
  keep p (x ∷ xs) = if p x then x ∷ keep p xs else keep p xs

  -- How many items pass a test.
  abbrev pub count : (A → Bool) → List A → ℕ
  count p [] = 0
  count p (x ∷ xs) = if p x then suc (count p xs) else count p xs

  abbrev pub All {κ} : (A → Type κ) → List A → Type κ
  All P [] = Unit
  All P (x ∷ xs) = P x × All P xs

  pub length-append : (xs ys : List A) → length (xs ++ ys) ≡ length xs + length ys
  length-append [] ys = omega arith
  length-append (x ∷ xs) ys = omega (arith, length-append xs ys)

  pub length-keep : (p : A → Bool) (xs : List A) → length (keep p xs) ≡ count p xs
  length-keep p [] = refl
  length-keep p (x ∷ xs) = ground (arith, length-keep p xs)

module _ {A : Type 0} where
  -- Two lists of one length whose items stand in a relation, place by place.
  abbrev pub Each : (A → A → Type 0) → List A → List A → Type 0
  Each R [] [] = Unit
  Each R (x ∷ xs) (y ∷ ys) = R x y × Each R xs ys
  Each R [] (y ∷ ys) = ⊥
  Each R (x ∷ xs) [] = ⊥

  -- The items with a property are changed as `R` says, and the others are as they were.
  abbrev pub Changed : (A → Type 0) → (A → A → Type 0) → List A → List A → Type 0
  Changed P R = Each (λ x y. (P x × R x y) ⊎ ((¬ P x) × (y ≡ x)))

module _ {ℓ} {T : Type ℓ} ⦃c : Comparable T⦄ where
  -- Is one of the items the wanted one?
  unfoldable pub contains : List T → T → Bool
  contains [] wanted = false
  contains (item ∷ items) wanted = (wanted == item) || contains items wanted
