-- ===== src/Importer/Parser.antt =====
-- backend/internal/challengeimport/importer.go: parseSpec, a state machine over the lines of a file.
use ctf_recruit.Base.{
  ℕ, suc, ◌-◌, ◌%◌, Text, Bool, true, false, not, ◌&&◌, ◌||◌, Option, none, some, List, [], ◌∷◌,
  ◌++◌, ℤ, Result, ok, err, ◌>>=◌, ◌>>◌, fail_if, codes, length, trim_space, trim_front,
  trim_suffix, has_suffix, has_prefix, ◌==◌, nat_eq, text_eq, if◌then◌else◌,
}
use ctf_recruit.Base.Dict
use ctf_recruit.Base.Dict.{Dict}
use ctf_recruit.Game.Store.{Outside}
use ctf_recruit.Importer
use ctf_recruit.Importer.{
  AttachmentSpec, ChallengeSpec, LineError, ParseError, at_line, scan_failed, refused, odd_indent,
  expected_section, command_item_expected, nesting_misplaced, nesting_too_deep, unsupported_nested,
  unsupported_runtime_nested, empty_attachment, empty_spec,
}
use ctf_recruit.Importer.Lines.{strip_comment, split_key_value, normalize_scalar}
use ctf_recruit.Importer.Assign.{assign_scalar, assign_attachment_scalar, or_new_runtime}
use ctf_recruit.Importer.Normal.{normalize_spec}

-- The variables of the loop, less the number of the line. `attachment` says that the pointer is not
-- nil: it points to the last attachment of the specification.
pub record Parser : Type 0 where
  pub spec : ChallengeSpec
  pub section : Text
  pub nested : Text
  pub runtime_env : Dict Text Text
  pub runtime_cmd : Option (List Text)
  pub runtime_seen : Bool
  pub attachment : Bool

abbrev pub start : Parser
start = record {
  spec = empty_spec;
  section = [];
  nested = [];
  runtime_env = [];
  runtime_cmd = none;
  runtime_seen = false;
  attachment = false;
}

abbrev is_present : {A : Type 0} → Option A → Bool
is_present none = false
is_present (some a) = true

-- The runtime section is made if it is not there.
abbrev with_runtime : Parser → Parser
with_runtime p = if is_present p.spec.runtime then p else record p {
  spec = record p.spec { runtime = some (or_new_runtime p.spec.runtime) };
  runtime_seen = true;
}

-- A line without indentation names a section.
unfoldable pub on_section : Parser → Text → Result LineError Parser
on_section p trimmed =
    let section = trim_suffix trimmed b':' in
    let p' = record p { section = section; nested = []; attachment = false } in
    fail_if (not (has_suffix trimmed b':')) expected_section
    >> ok (if section == codes "runtime" then with_runtime p' else p')

-- The assignment to the attachment that the pointer names.
unfoldable pub assign_last :
    List AttachmentSpec → Text → Text → Result LineError (List AttachmentSpec)
unfolding assign_attachment_scalar
assign_last [] key value = ok []
assign_last (a ∷ []) key value = assign_attachment_scalar a key value >>= λ a'. ok (a' ∷ [])
assign_last (a ∷ b ∷ rest) key value = assign_last (b ∷ rest) key value >>= λ more. ok (a ∷ more)

unfoldable pub assign_attachment : Parser → Text → Result LineError Parser
unfolding assign_last split_key_value
assign_attachment p line = split_key_value line >>= λ (key, value).
    assign_last p.spec.attachments key value >>= λ attachments.
    ok (record p { spec = record p.spec { attachments = attachments } })

-- `value[2:]`
abbrev drop_two : Text → Text
drop_two (a ∷ b ∷ s) = s
drop_two s = []

-- "- " begins a new attachment, with a field of it or without.
unfoldable pub on_attachment : Parser → Text → Result LineError Parser
unfolding assign_attachment
on_attachment p trimmed =
    let content = trim_space (drop_two trimmed) in
    let p' = record p {
      spec = record p.spec { attachments = p.spec.attachments ++ (empty_attachment ∷ []) };
      attachment = true;
      nested = codes "attachment";
    } in
    if content == [] then ok p' else assign_attachment p' content

abbrev set_env : Parser → Parser
set_env p = record p {
  spec = record p.spec {
    runtime = some (record (or_new_runtime p.spec.runtime) { env = some p.runtime_env });
  };
}

abbrev set_command : Parser → Parser
set_command p = record p {
  spec = record p.spec {
    runtime = some (record (or_new_runtime p.spec.runtime) { command = p.runtime_cmd });
  };
}

-- "env:" and "command:" under runtime.
unfoldable pub on_nested : Parser → Text → Result LineError Parser
on_nested p trimmed =
    let nested = trim_suffix trimmed b':' in
    let p' = record p { nested = nested } in
    if p.section == codes "runtime" && nested == codes "env"
    then ok (set_env (with_runtime p'))
    else if p.section == codes "runtime" && nested == codes "command"
    then ok (set_command (with_runtime p'))
    else err (unsupported_nested nested)

-- The lines before the first that is too long.
unfoldable pub scanned : (Text → Bool) → List Text → List Text
scanned too_long [] = []
scanned too_long (raw ∷ rest) = if too_long raw then [] else raw ∷ scanned too_long rest

unfoldable pub overflows : (Text → Bool) → List Text → Bool
overflows too_long [] = false
overflows too_long (raw ∷ rest) = too_long raw || overflows too_long rest

module _ (parse_duration : Text → Option ℤ) where
  unfoldable pub on_scalar : Parser → Text → Result LineError Parser
  unfolding split_key_value assign_scalar
  on_scalar p trimmed = split_key_value trimmed >>= λ (key, value).
      assign_scalar parse_duration p.spec p.section key value >>= λ spec.
      ok (record p { spec = spec; nested = []; attachment = false })

  -- A line that is indented by two spaces.
  unfoldable pub on_field : Parser → Text → Result LineError Parser
  unfolding on_attachment on_nested on_scalar
  on_field p trimmed =
      if p.section == codes "attachments" && has_prefix trimmed (codes "- ")
      then on_attachment p trimmed
      else if has_suffix trimmed b':'
      then on_nested p trimmed
      else on_scalar p trimmed

  abbrev appended : Option (List Text) → Text → Option (List Text)
  appended none item = some (item ∷ [])
  appended (some items) item = some (items ++ (item ∷ []))

  unfoldable pub on_command : Parser → Text → Result LineError Parser
  on_command p trimmed =
      let value = trim_space trimmed in
      let p' = record p { runtime_cmd = appended p.runtime_cmd (trim_space (drop_two value)) } in
      fail_if (not (has_prefix value (codes "- "))) command_item_expected
      >> ok (if is_present p.spec.runtime then set_command p' else p')

  unfoldable pub on_env : Parser → Text → Result LineError Parser
  unfolding split_key_value normalize_scalar
  on_env p trimmed = split_key_value trimmed >>= λ (key, value).
      let p' = record p { runtime_env = Dict.insert key (normalize_scalar value) p.runtime_env } in
      ok (if is_present p.spec.runtime then set_env p' else p')

  -- A line that is indented by four spaces.
  unfoldable pub on_item : Parser → Text → Result LineError Parser
  unfolding on_command on_env assign_attachment
  on_item p trimmed =
      if p.section == codes "runtime"
      then (if p.nested == codes "command"
          then on_command p trimmed
          else if p.nested == codes "env"
          then on_env p trimmed
          else err (unsupported_runtime_nested p.nested))
      else if p.section == codes "attachments" && p.nested == codes "attachment" && p.attachment
      then assign_attachment p trimmed
      else err nesting_misplaced

  abbrev pub content : Text → Text
  content raw = trim_space (strip_comment raw)

  abbrev pub indent_of : Text → ℕ
  indent_of raw = length raw - length (trim_front raw 32)

  -- One turn of the loop.
  unfoldable pub on_line : Parser → Text → Result LineError Parser
  unfolding on_section on_field on_item strip_comment
  on_line p raw =
      let trimmed = content raw in
      let indent = indent_of raw in
      if trimmed == []
      then ok p
      else if not (indent % 2 == 0)
      then err odd_indent
      else if indent == 0
      then on_section p trimmed
      else if indent == 2
      then on_field p trimmed
      else if indent == 4
      then on_item p trimmed
      else err nesting_too_deep

  abbrev pub numbered : {A : Type 0} → ℕ → Result LineError A → Result ParseError A
  numbered n (ok a) = ok a
  numbered n (err e) = err (at_line n e)

  -- The loop, after `n` lines.
  unfoldable pub parse_lines : ℕ → Parser → List Text → Result ParseError Parser
  parse_lines n p [] = ok p
  parse_lines n p (raw ∷ rest) =
      numbered (suc n) (on_line p raw) >>= λ p'. parse_lines (suc n) p' rest

  abbrev refusal : {A : Type 0} → Result Importer.SpecError A → Result ParseError A
  refusal (ok a) = ok a
  refusal (err e) = err (refused e)

  -- parseSpec, on the lines of a file. The scanner gives lines up to the first that is too long for
  -- its buffer, and then fails; `broken` says that the file cannot be read on after these lines.
  unfoldable pub parse_spec :
      (Text → Bool) → Outside → List Text → Bool → Result ParseError ChallengeSpec
  unfolding parse_lines scanned overflows
  parse_spec too_long o lines broken = parse_lines 0 start (scanned too_long lines) >>= λ p.
      fail_if (overflows too_long lines || broken) scan_failed
      >> refusal (
          normalize_spec o (
            if p.runtime_seen && not (is_present p.spec.runtime)
            then record p.spec { runtime = some (or_new_runtime p.spec.runtime) }
            else p.spec))
