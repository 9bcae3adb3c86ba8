-- ===== src/Base/Strings.antt =====
-- What the program uses of Go's package strings, on lists of code points.
use Prim.Native.Nat.{ℕ, zero, suc, ◌+◌, ◌-◌, ◌*◌}
use Prim.Native.Char.{code}
use Prim.Native.String.{String}
use mathlib.Core.Bool.{Bool, true, false, ◌&&◌, ◌||◌}
use mathlib.Core.List.{[], ◌∷◌, ◌++◌, map, reverse}
use ctf_recruit.Base.Lists.{length, contains}
use ctf_recruit.Base.Tests.{leb, nat_beq, nat_eq, text_beq, if◌then◌else◌, Text}

abbrev pub codes : String → Text
codes String.[] = []
codes (String.◌∷◌ c s) = code c ∷ codes s

-- unicode.IsSpace
unfoldable pub is_space : ℕ → Bool
is_space c =
    (leb 9 c && leb c 13)
    || nat_beq c 32
    || nat_beq c 0x85
    || nat_beq c 0xa0
    || nat_beq c 0x1680
    || (leb 0x2000 c && leb c 0x200a)
    || nat_beq c 0x2028
    || nat_beq c 0x2029
    || nat_beq c 0x202f
    || nat_beq c 0x205f
    || nat_beq c 0x3000

unfoldable pub trim_left : Text → Text
trim_left [] = []
trim_left (c ∷ s) = let rest = trim_left s in if is_space c then rest else c ∷ s

-- strings.TrimSpace
unfoldable pub trim_space : Text → Text
unfolding trim_left is_space
trim_space s = reverse (trim_left (reverse (trim_left s)))

-- unicode.ToLower where the result is an ASCII letter: A to Z, the dotted capital I, the Kelvin
-- sign. Other code points are left as they are.
unfoldable pub lower_code : ℕ → ℕ
lower_code c =
    if leb b'A' c && leb c b'Z'
    then c + 32
    else if nat_beq c 0x130
    then b'i'
    else if nat_beq c 0x212a
    then b'k'
    else c

-- strings.ToLower
unfoldable pub to_lower : Text → Text
unfolding lower_code
to_lower = map lower_code

-- strings.HasPrefix
unfoldable pub has_prefix : Text → Text → Bool
has_prefix s [] = true
has_prefix [] (c ∷ p) = false
has_prefix (a ∷ s) (c ∷ p) = nat_beq a c && has_prefix s p

-- strings.TrimSuffix, for a suffix of one code point.
unfoldable pub trim_suffix : Text → ℕ → Text
trim_suffix [] c = []
trim_suffix (a ∷ []) c = if nat_beq a c then [] else a ∷ []
trim_suffix (a ∷ b ∷ s) c = a ∷ trim_suffix (b ∷ s) c

-- strings.HasSuffix, for a suffix of one code point.
unfoldable pub has_suffix : Text → ℕ → Bool
has_suffix [] c = false
has_suffix (a ∷ []) c = nat_beq a c
has_suffix (a ∷ b ∷ s) c = has_suffix (b ∷ s) c

-- strings.TrimLeft, for a set of one code point.
unfoldable pub trim_front : Text → ℕ → Text
trim_front [] c = []
trim_front (a ∷ s) c = let rest = trim_front s c in if nat_beq a c then rest else a ∷ s

-- strings.Trim, for a set of one code point.
unfoldable pub trim_both : Text → ℕ → Text
unfolding trim_front
trim_both s c = reverse (trim_front (reverse (trim_front s c)) c)

-- strings.Contains
unfoldable pub contains_text : Text → Text → Bool
unfolding has_prefix
contains_text [] p = has_prefix [] p
contains_text (a ∷ s) p = has_prefix (a ∷ s) p || contains_text s p

-- `n` code points of an occurrence are still to be passed over.
unfoldable pub replace_from : ℕ → Text → Text → Text → Text
replace_from n old new [] = []
replace_from zero old new (a ∷ s) =
    let found = new ++ replace_from (length old - 1) old new s in
    let rest = a ∷ replace_from zero old new s in if has_prefix (a ∷ s) old then found else rest
replace_from (suc n) old new (a ∷ s) = replace_from n old new s

-- strings.ReplaceAll, for an `old` that is not empty.
unfoldable pub replace_all : Text → Text → Text → Text
unfolding replace_from has_prefix
replace_all s old new = replace_from zero old new s

-- strings.TrimRight, for a set of one code point.
unfoldable pub trim_back : Text → ℕ → Text
unfolding trim_front
trim_back s c = reverse (trim_front (reverse s) c)

-- What follows the last slash.
unfoldable pub last_element : Text → Text
last_element [] = []
last_element (c ∷ s) =
    let rest = last_element s in
    if contains s b'/' then rest else if nat_beq c b'/' then s else c ∷ s

-- filepath.Base
unfoldable pub base_name : Text → Text
unfolding trim_back last_element
base_name path =
    let name = last_element (trim_back path b'/') in
    if text_beq path [] then codes "." else if text_beq name [] then codes "/" else name

-- Every code point passes the test: strings.IndexFunc of the opposite test is -1.
unfoldable pub all_codes : (ℕ → Bool) → Text → Bool
all_codes p [] = true
all_codes p (c ∷ s) = p c && all_codes p s

abbrev pub is_digit : ℕ → Bool
is_digit c = leb b'0' c && leb c b'9'

-- The number that a text of digits stands for.
unfoldable pub digits_value : ℕ → Text → ℕ
digits_value n [] = n
digits_value n (c ∷ s) = digits_value (n * 10 + (c - b'0')) s
