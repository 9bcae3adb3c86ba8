-- ===== src/Importer/Normal.antt =====
-- backend/internal/challengeimport/importer.go: NormalizeSpec.
use ctf_recruit.Base.{
  ℕ, suc, Text, Bool, true, not, ◌||◌, Option, none, some, List, [], ◌∷◌, pos, ltb_ℤ, leb_ℤ, Result,
  ok, err, ◌>>=◌, ◌>>◌, fail_if, codes, trim_space, to_lower, ◌==◌, text_eq, int_eq, if◌then◌else◌,
}
use ctf_recruit.ChallengeStatus.{normalize_input_status, is_published}
use ctf_recruit.Game.Store.{Outside}
use ctf_recruit.Game.Flags.{validate_flag_type_config}
use ctf_recruit.Importer.{
  ChallengeMeta, ChallengeFlag, ChallengeRuntime, AttachmentSpec, ChallengeSpec, SpecError,
  points_not_positive, slug_missing, title_missing, category_missing, flag_missing, status_invalid,
  flag_invalid, filename_missing, source_missing, runtime_not_dynamic, image_missing,
  port_not_positive, ttl_not_positive, mode_unsupported, protocol_unsupported, renew_negative,
  active_negative, cooldown_negative,
}

-- `if value == "" { value = fallback }`
abbrev pub or_text : Text → Text → Text
or_text fallback value = if value == [] then fallback else value

-- The error of a value, wrapped.
abbrev pub wrapped : {E F A : Type 0} → (E → F) → Result E A → Result F A
wrapped f (ok a) = ok a
wrapped f (err e) = err (f e)

abbrev pub cleaned_meta : ChallengeMeta → Text → ChallengeMeta
cleaned_meta m status = record m {
  slug = trim_space m.slug;
  title = trim_space m.title;
  category = trim_space m.category;
  difficulty = or_text (codes "normal") (to_lower (trim_space m.difficulty));
  status = status;
  visible = is_published status;
  sort_order = if m.sort_order == pos 0 then pos 10 else m.sort_order;
}

unfoldable pub normalize_meta : ChallengeMeta → Result SpecError ChallengeMeta
normalize_meta m =
    fail_if (leb_ℤ m.points (pos 0)) points_not_positive
    >> wrapped status_invalid (normalize_input_status m.status m.visible)
    >>= λ status.
        fail_if (trim_space m.slug == []) slug_missing
        >> fail_if (trim_space m.title == []) title_missing
        >> fail_if (trim_space m.category == []) category_missing
        >> ok (cleaned_meta m status)

module _ (o : Outside) where
  unfoldable pub normalize_flag : ChallengeFlag → Result SpecError ChallengeFlag
  normalize_flag f =
      fail_if (trim_space f.value == []) flag_missing
      >> wrapped flag_invalid (validate_flag_type_config o f.flag_type (trim_space f.value))
      >>= λ flag_type. ok (record { flag_type = flag_type; value = trim_space f.value })

abbrev pub cleaned_attachment : AttachmentSpec → AttachmentSpec
cleaned_attachment a = record {
  filename = trim_space a.filename;
  source = trim_space a.source;
  content_type = trim_space a.content_type;
}

unfoldable pub normalize_attachments :
    ℕ → List AttachmentSpec → Result SpecError (List AttachmentSpec)
normalize_attachments i [] = ok []
normalize_attachments i (a ∷ rest) =
    fail_if (trim_space a.filename == []) (filename_missing i)
    >> fail_if (trim_space a.source == []) (source_missing i)
    >> normalize_attachments (suc i) rest
    >>= λ more. ok (cleaned_attachment a ∷ more)

-- The protocols of the switch.
abbrev pub is_protocol : Text → Bool
is_protocol p = p == codes "http" || p == codes "https" || p == codes "tcp" || p == codes "udp"

abbrev pub mode_of : ChallengeRuntime → Text
mode_of r = or_text (codes "per-user") (to_lower (trim_space r.mode))

abbrev pub protocol_of : ChallengeRuntime → Text
protocol_of r = or_text (codes "http") (to_lower (trim_space r.exposed_protocol))

-- `if value == nil { value = ... }`
abbrev pub or_empty : {A : Type 0} → A → Option A → Option A
or_empty empty none = some empty
or_empty empty (some a) = some a

abbrev pub cleaned_runtime : ChallengeRuntime → ChallengeRuntime
cleaned_runtime r = record r {
  image_name = trim_space r.image_name;
  mode = mode_of r;
  exposed_protocol = protocol_of r;
  memory_limit_mb = if leb_ℤ r.memory_limit_mb (pos 0) then pos 256 else r.memory_limit_mb;
  cpu_milli = if leb_ℤ r.cpu_milli (pos 0) then pos 500 else r.cpu_milli;
  env = or_empty [] r.env;
  command = or_empty [] r.command;
  enabled = true;
}

unfoldable pub normalize_runtime : ChallengeRuntime → Result SpecError ChallengeRuntime
normalize_runtime r =
    fail_if (not (mode_of r == codes "per-user")) (mode_unsupported r.mode)
    >> fail_if (not (is_protocol (protocol_of r))) (protocol_unsupported r.exposed_protocol)
    >> fail_if (trim_space r.image_name == []) image_missing
    >> fail_if (leb_ℤ r.container_port (pos 0)) port_not_positive
    >> fail_if (leb_ℤ r.ttl (pos 0)) ttl_not_positive
    >> fail_if (ltb_ℤ r.max_renew_count (pos 0)) renew_negative
    >> fail_if (ltb_ℤ r.max_active_instances (pos 0)) active_negative
    >> fail_if (ltb_ℤ r.user_cooldown (pos 0)) cooldown_negative
    >> ok (cleaned_runtime r)

-- A section that is not there stays so; one that is there needs a dynamic challenge.
unfoldable pub normalize_section :
    Bool → Option ChallengeRuntime → Result SpecError (Option ChallengeRuntime)
unfolding normalize_runtime
normalize_section dynamic none = ok none
normalize_section dynamic (some r) =
    fail_if (not dynamic) runtime_not_dynamic >> normalize_runtime r >>= λ r'. ok (some r')

unfoldable pub normalize_spec : Outside → ChallengeSpec → Result SpecError ChallengeSpec
unfolding normalize_meta normalize_flag normalize_attachments normalize_section
normalize_spec o s = normalize_meta s.metadata >>= λ m. normalize_flag o s.flag >>= λ flag.
    normalize_attachments 0 s.attachments >>= λ attachments.
    normalize_section s.metadata.dynamic s.runtime >>= λ runtime. ok (record {
      metadata = m;
      flag = flag;
      content = record {
        description = trim_space s.content.description;
        author = trim_space s.content.author;
      };
      ownership = record { author = trim_space s.ownership.author };
      runtime = runtime;
      attachments = attachments;
    })
