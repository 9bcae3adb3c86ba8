-- ===== src/Base/Decimal.antt =====
-- The decimal digits that fmt prints for %d.
use Prim.Native.Nat.{ℕ, zero, suc, ◌+◌, ◌/◌, ◌%◌}
use mathlib.Core.List.{[], ◌∷◌}
use ctf_recruit.Base.Tests.{nat_beq, if◌then◌else◌, Text}

-- The digits of `n` in front of `s`. The fuel is at least the number of digits.
digits : ℕ → ℕ → Text → Text
digits zero n s = s
digits (suc f) n s =
    let more = digits f (n / 10) ((b'0' + n % 10) ∷ s) in
    if nat_beq (n / 10) 0 then (b'0' + n % 10) ∷ s else more

unfoldable pub decimal : ℕ → Text
unfolding digits
decimal n = digits (suc n) n []
