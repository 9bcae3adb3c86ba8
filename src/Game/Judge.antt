-- ===== src/Game/Judge.antt =====
-- backend/internal/game/service.go: which flags evaluateFlag accepts.
use ctf_recruit.Base.{
  Text, Bool, true, ◌≡◌, refl, ◌↔◌, ◌⊎◌, inl, inr, map, arith, some, Option-cases, ok, trim_space,
  text_beq, text_beq_iff, ◌==◌, text_eq,
}
use ctf_recruit.Game.{flag_type_static, flag_type_case_insensitive, flag_type_regex}
use ctf_recruit.Game.Store.{Outside}
use ctf_recruit.Game.Flags.{
  normalize_flag_type, compile_flag_regex, validate_flag_type_config, equal_fold, evaluate_flag,
}

module _ (o : Outside) where
  -- What the verdict `b` on a submitted text means, for an expected text and a flag type.
  pub record Verdict (kind expected submitted : Text) (b : Bool) : Type 0 where
    pub known :
        (kind ≡ flag_type_static) ⊎ (kind ≡ flag_type_case_insensitive) ⊎ (kind ≡ flag_type_regex)
    pub static : kind ≡ flag_type_static → (b ≡ true) ↔ (submitted ≡ expected)
    pub case_insensitive :
        kind ≡ flag_type_case_insensitive
        → (b ≡ true) ↔ (map o.fold (trim_space submitted) ≡ map o.fold (trim_space expected))
    pub regex :
        kind ≡ flag_type_regex
        → (re : o.Regexp) × (o.compile (trim_space expected) ≡ some re)
          × (b ≡ o.match_string re submitted)

  valid_kind :
      (flag_type expected kind : Text)
      → validate_flag_type_config o flag_type expected ≡ ok kind
      → (kind ≡ flag_type_static)
        ⊎ (kind ≡ flag_type_case_insensitive)
        ⊎ ((kind ≡ flag_type_regex) × (re : o.Regexp) × (o.compile (trim_space expected) ≡ some re))
  unfolding validate_flag_type_config compile_flag_regex
  valid_kind flag_type expected kind valid =
      let n = normalize_flag_type flag_type in
      elim (Option-cases (o.compile (trim_space expected))) [
        | inl broken ↦
            ground
              (arith, text_beq_iff n flag_type_static, text_beq_iff n flag_type_case_insensitive)
        | inr (re, compiled) ↦ ground (
          arith,
          text_beq_iff n flag_type_static,
          text_beq_iff n flag_type_case_insensitive,
          text_beq_iff n flag_type_regex,
        )
      ]

  -- A flag type and an expected text that `ValidateFlagTypeConfig` accepts are judged without an
  -- error, whatever is submitted: equal texts for a static flag, texts equal under case folding
  -- without outer blanks for a case-insensitive one, matches of the pattern for a regular expression.
  pub evaluate_flag_accepted :
      (flag_type expected submitted kind : Text)
      → validate_flag_type_config o flag_type expected ≡ ok kind
      → (b : Bool) × (evaluate_flag o flag_type expected submitted ≡ ok b)
        × Verdict kind expected submitted b
  unfolding evaluate_flag equal_fold compile_flag_regex text_beq
  evaluate_flag_accepted flag_type expected submitted kind valid =
      elim (valid_kind flag_type expected kind valid) [
        | inl st ↦ (
          submitted == expected,
          rw (valid, st) refl,
          record {
            known = inl st;
            static = λ _. text_beq_iff submitted expected;
            case_insensitive = λ ci. absurd (static_other ci st);
            regex = λ re. absurd (regex_other re st);
          },
        )
        | inr (inl ci) ↦ (
          equal_fold o (trim_space submitted) (trim_space expected),
          rw (valid, ci) refl,
          record {
            known = inr (inl ci);
            static = λ st. absurd (static_other ci st);
            case_insensitive = λ _. text_beq_iff _ _;
            regex = λ re. absurd (regex_insensitive re ci);
          },
        )
        | inr (inr (rx, re, compiled)) ↦ (
          o.match_string re submitted,
          rw (valid, rx, compiled) refl,
          record {
            known = inr (inr rx);
            static = λ st. absurd (regex_other rx st);
            case_insensitive = λ ci. absurd (regex_insensitive rx ci);
            regex = λ _. (re, compiled, refl);
          },
        )
      ]
    where
      static_other : kind ≡ flag_type_case_insensitive → ¬ kind ≡ flag_type_static
      static_other p q = cc

      regex_other : kind ≡ flag_type_regex → ¬ kind ≡ flag_type_static
      regex_other p q = cc

      regex_insensitive : kind ≡ flag_type_regex → ¬ kind ≡ flag_type_case_insensitive
      regex_insensitive p q = cc
