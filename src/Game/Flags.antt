-- ===== src/Game/Flags.antt =====
-- backend/internal/game/service.go: ValidateFlagTypeConfig and evaluateFlag.
use ctf_recruit.Base.{
  Text, Bool, Option, none, some, [], map, Result, ok, err, trim_space, to_lower, ◌==◌, text_eq,
  ◌||◌, ◌>>=◌, if◌then◌else◌,
}
use ctf_recruit.Game.{
  Error, invalid_flag_strategy, flag_type_static, flag_type_case_insensitive, flag_type_regex,
}
use ctf_recruit.Game.Store.{Outside}

unfoldable pub normalize_flag_type : Text → Text
normalize_flag_type value =
    let normalized = to_lower (trim_space value) in
    if normalized == [] then flag_type_static else normalized

module _ (o : Outside) where
  abbrev compiled : Option o.Regexp → Result Error o.Regexp
  compiled none = err invalid_flag_strategy
  compiled (some re) = ok re

  unfoldable pub compile_flag_regex : Text → Result Error o.Regexp
  compile_flag_regex pattern = compiled (o.compile (trim_space pattern))

  unfoldable pub validate_flag_type_config : Text → Text → Result Error Text
  unfolding normalize_flag_type compile_flag_regex
  validate_flag_type_config flag_type expected =
      let normalized = normalize_flag_type flag_type in
      if normalized == flag_type_static || normalized == flag_type_case_insensitive
      then ok normalized
      else if normalized == flag_type_regex
      then (compile_flag_regex expected >>= λ _. ok normalized)
      else err invalid_flag_strategy

  -- strings.EqualFold
  unfoldable pub equal_fold : Text → Text → Bool
  equal_fold s t = map o.fold s == map o.fold t

  abbrev pub judged : Text → Text → Text → Result Error Bool
  judged expected submitted normalized =
      if normalized == flag_type_static
      then ok (submitted == expected)
      else if normalized == flag_type_case_insensitive
      then ok (equal_fold (trim_space submitted) (trim_space expected))
      else if normalized == flag_type_regex
      then (compile_flag_regex expected >>= λ re. ok (o.match_string re submitted))
      else err invalid_flag_strategy

  unfoldable pub evaluate_flag : Text → Text → Text → Result Error Bool
  unfolding validate_flag_type_config equal_fold
  evaluate_flag flag_type expected submitted =
      validate_flag_type_config flag_type expected >>= judged expected submitted
