-- ===== src/Importer/Lines.antt =====
-- backend/internal/challengeimport/importer.go: the parts of a line.
use ctf_recruit.Base.{
  ℕ, Text, Bool, true, false, not, ◌&&◌, ◌||◌, Option, none, some, [], ◌∷◌, Result, ok, err, ◌>>◌,
  fail_if, codes, trim_space, trim_both, to_lower, ◌==◌, nat_eq, text_eq, if◌then◌else◌,
}
use ctf_recruit.Importer.{LineError, expected_key_value, key_empty}

abbrev pub quote : ℕ
quote = 39

abbrev pub double_quote : ℕ
double_quote = 34

-- The loop of stripComment: is the text within quotes of one kind?
unfoldable pub strip_from : Bool → Bool → Text → Text
strip_from in_single in_double [] = []
strip_from in_single in_double (c ∷ s) =
    let single = if c == quote && not in_double then not in_single else in_single in
    let double = if c == double_quote && not in_single then not in_double else in_double in
    let rest = strip_from single double s in
    if c == b'#' && not in_single && not in_double then [] else c ∷ rest

unfoldable pub strip_comment : Text → Text
unfolding strip_from
strip_comment line = strip_from false false line

abbrev with_front : ℕ → Option (Text × Text) → Option (Text × Text)
with_front c none = none
with_front c (some (key, value)) = some (c ∷ key, value)

-- strings.SplitN(line, ":", 2), where it gives two parts.
unfoldable pub split_colon : Text → Option (Text × Text)
split_colon [] = none
split_colon (c ∷ s) =
    let rest = split_colon s in if c == b':' then some ([], s) else with_front c rest

abbrev pub trimmed_parts : Option (Text × Text) → Result LineError (Text × Text)
trimmed_parts none = err expected_key_value
trimmed_parts (some (key, value)) =
    fail_if (trim_space key == []) key_empty >> ok (trim_space key, trim_space value)

unfoldable pub split_key_value : Text → Result LineError (Text × Text)
unfolding split_colon
split_key_value line = trimmed_parts (split_colon line)

unfoldable pub normalize_scalar : Text → Text
normalize_scalar value = trim_both (trim_both (trim_space value) double_quote) quote

-- `none` is the error.
unfoldable pub parse_bool : Text → Option Bool
parse_bool value =
    let s = to_lower (trim_space value) in
    if s == codes "true" || s == codes "yes" || s == codes "on"
    then some true
    else if s == codes "false" || s == codes "no" || s == codes "off"
    then some false
    else none
