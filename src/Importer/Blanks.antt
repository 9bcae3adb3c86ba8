-- ===== src/Importer/Blanks.antt =====
-- backend/internal/challengeimport/importer.go: lines without content in a file.
use ctf_recruit.Base.{
  ℕ, suc, Text, Bool, true, false, is_space, trim_left, trim_space, nat_eq, arith, if◌then◌else◌,
  ◌||◌, ◌≡◌, refl, inl, inr, not, Option, List, [], ◌∷◌, ℤ, Result, ok, err, Result-cases,
  Bool-cases, to_option, keep, ◌==◌, text_eq, text_beq, ◌>>=◌,
}
use ctf_recruit.Game.Store.{Outside}
use ctf_recruit.Importer.{ParseError}
use ctf_recruit.Importer.Parser.{
  Parser, start, content, on_line, parse_lines, parse_spec, scanned, overflows,
}
use ctf_recruit.Importer.Lines.{strip_from, strip_comment}

-- White space, and then nothing or a comment.
unfoldable pub is_blank : Text → Bool
unfolding is_space
is_blank [] = true
is_blank (c ∷ s) = if is_space c then is_blank s else c == b'#'

-- The lines that are more, and those that the scanner cannot give.
abbrev pub with_content : (Text → Bool) → List Text → List Text
with_content too_long lines = keep (λ raw. not (is_blank raw) || too_long raw) lines

-- What stripComment leaves of such a line is white space.
is_blank-strip : (s : Text) → is_blank s ≡ true → trim_left (strip_from false false s) ≡ []
unfolding is_blank strip_from trim_left is_space
is_blank-strip [] h = refl
is_blank-strip (c ∷ s) h = elim (Bool-cases (is_space c)) [
  | inl space ↦ ground (arith, is_blank-strip s)
  | inr other ↦ ground arith
]

is_blank-content : (d : Text → Option ℤ) (raw : Text) → is_blank raw ≡ true → content d raw ≡ []
unfolding strip_comment trim_space
is_blank-content d raw h = rw (is_blank-strip raw h) refl

module _ (parse_duration : Text → Option ℤ) where
  on_line-blank :
      (p : Parser) (raw : Text) → is_blank raw ≡ true → on_line parse_duration p raw ≡ ok p
  unfolding on_line text_beq
  on_line-blank p raw blank = rw (is_blank-content parse_duration raw blank) refl

  parse_lines-blank :
      (too_long : Text → Bool) (n k : ℕ) (p : Parser) (lines : List Text)
      → to_option (parse_lines parse_duration n p (scanned too_long lines))
        ≡ to_option
            (parse_lines parse_duration k p (scanned too_long (with_content too_long lines)))
  unfolding parse_lines scanned
  parse_lines-blank too_long n k p [] = refl
  parse_lines-blank too_long n k p (raw ∷ rest) = elim (Bool-cases (too_long raw)) [
    | inl long ↦ elim (Bool-cases (is_blank raw)) [
      | inl blank ↦ rw (long, blank, long) refl
      | inr given ↦ rw (long, given, long) refl
    ]
    | inr short ↦ elim (Bool-cases (is_blank raw)) [
      | inl blank ↦
          rw (short, on_line-blank p raw blank, blank) (parse_lines-blank too_long (suc n) k p rest)
      | inr given ↦ elim (Result-cases (on_line parse_duration p raw)) [
        | inl (p', e) ↦
            rw (short, given, short, e) (parse_lines-blank too_long (suc n) (suc k) p' rest)
        | inr (x, e) ↦ rw (short, given, short, e) refl
      ]
    ]
  ]

  overflows-blank :
      (too_long : Text → Bool) (lines : List Text)
      → overflows too_long (with_content too_long lines) ≡ overflows too_long lines
  unfolding overflows
  overflows-blank too_long [] = refl
  overflows-blank too_long (raw ∷ rest) = ground (arith, overflows-blank too_long rest)

  bind_same :
      {A B : Type 0} (a b : Result ParseError A) (f : A → Result ParseError B)
      → to_option a ≡ to_option b
      → to_option (a >>= f) ≡ to_option (b >>= f)
  bind_same (ok x) (ok y) f e = let same : x ≡ y = cc in rw same refl
  bind_same (err x) (err y) f e = refl
  bind_same (ok x) (err y) f e = absurd (cc)
  bind_same (err x) (ok y) f e = absurd (cc)

  -- Lines of white space, or of white space and a comment, do not matter: a file is read exactly if
  -- the file without them is, and as the same specification. Lines that are too long for the scanner
  -- count whatever they hold.
  pub parse_spec-blank :
      (too_long : Text → Bool) (o : Outside) (lines : List Text) (broken : Bool)
      → to_option (parse_spec parse_duration too_long o lines broken)
        ≡ to_option (parse_spec parse_duration too_long o (with_content too_long lines) broken)
  unfolding parse_spec
  parse_spec-blank too_long o lines broken = rw (overflows-blank too_long lines) (
      bind_same (parse_lines parse_duration 0 start (scanned too_long lines))
        (parse_lines parse_duration 0 start (scanned too_long (with_content too_long lines))) _
        (parse_lines-blank too_long 0 0 start lines))
