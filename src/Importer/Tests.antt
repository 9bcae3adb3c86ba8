-- ===== src/Importer/Tests.antt =====
-- Examples for backend/internal/challengeimport/importer.go.
use ctf_recruit.Base.{
  ◌≡◌, refl, Text, Bool, true, false, Option, none, some, List, [], ◌∷◌, ℤ, pos, ok, codes,
  to_option, ltb, length, trim_space, trim_left, is_space, to_lower, lower_code, text_beq,
}
use ctf_recruit.Game.Store
use ctf_recruit.ChallengeStatus.{
  normalize_input_status, parse_status, is_published, normalize_status,
}
use ctf_recruit.Game.Flags.{validate_flag_type_config, normalize_flag_type}
use ctf_recruit.Admin.World.{Outside, World}
use ctf_recruit.Importer.Import.{Disk, import_spec}
use ctf_recruit.Importer.Imported.{Imported, import_spec-Imported}
use ctf_recruit.Importer.{ChallengeSpec, ChallengeRuntime}
use ctf_recruit.Importer.Normal.{
  normalize_spec, normalize_meta, normalize_flag, normalize_attachments, normalize_section,
  normalize_runtime,
}
use ctf_recruit.Importer.Normalized.{IsNormal, normalize_spec-IsNormal}
use ctf_recruit.Importer.Parser.{parse_spec}
use ctf_recruit.Importer.Blanks.{with_content, parse_spec-blank}
use ctf_recruit.Importer.Files.{IsFileName, sanitize_filename, sanitize_filename-IsFileName}

-- Expressions that never compile.
abbrev outside : Store.Outside
outside = record {
  State = Unit {0};
  now = λ s. (pos 0, s);
  db_fault = λ s. (false, s);
  others = λ s db. db;
  Regexp = Unit {0};
  compile = λ pattern. none;
  match_string = λ re s. false;
  fold = λ c. c;
}

-- The section of a container, with what NormalizeSpec fills in as given.
abbrev container : Text → ℤ → Bool → ChallengeRuntime
container mode memory filled = record {
  image_name = codes "web";
  mode = mode;
  exposed_protocol = codes "tcp";
  container_port = pos 80;
  ttl = pos 60000000000;
  memory_limit_mb = memory;
  cpu_milli = pos 100;
  max_renew_count = pos 1;
  max_active_instances = pos 0;
  user_cooldown = pos 0;
  env = some [];
  command = some [];
  enabled = filled;
}

abbrev spec : Text → Text → Text → Bool → ℤ → ChallengeRuntime → ChallengeSpec
spec slug difficulty status visible order runtime = record {
  metadata = record {
    slug = slug;
    title = codes "T";
    category = codes "web";
    points = pos 100;
    difficulty = difficulty;
    dynamic = true;
    status = status;
    visible = visible;
    sort_order = order;
  };
  flag = record { flag_type = codes "static"; value = codes "flag" };
  content = record { description = []; author = [] };
  ownership = record { author = [] };
  runtime = some runtime;
  attachments = [];
}

abbrev written : ChallengeSpec
written = spec (codes " s ") (codes "Hard") [] true (pos 0) (container [] (pos 0) false)

abbrev normal : ChallengeSpec
normal =
    spec (codes "s") (codes "hard") (codes "published") true (pos 10)
      (container (codes "per-user") (pos 256) true)

normalize_spec-IsNormal_example :
    IsNormal outside normal × (normalize_spec outside normal ≡ ok normal)
unfolding normalize_spec normalize_meta normalize_flag normalize_attachments normalize_section
    normalize_runtime normalize_input_status parse_status is_published normalize_status
    validate_flag_type_config normalize_flag_type text_beq trim_space trim_left is_space to_lower
    lower_code
normalize_spec-IsNormal_example = normalize_spec-IsNormal outside written normal refl

abbrev durations : Text → Option ℤ
durations text = none

abbrev file : List Text
file =
    codes "# a challenge"
    ∷ codes "meta:"
    ∷ codes "  slug: s # its name"
    ∷ []
    ∷ codes "  points: 100"
    ∷ []

-- A line of more than 100 code points.
abbrev too_long : Text → Bool
too_long raw = ltb 100 (length raw)

parse_spec-blank_example :
    to_option (parse_spec durations too_long outside file false)
    ≡ to_option (parse_spec durations too_long outside (with_content too_long file) false)
parse_spec-blank_example = parse_spec-blank durations too_long outside file false

sanitize_filename-IsFileName_example : IsFileName (sanitize_filename (codes " ../../etc/.. "))
sanitize_filename-IsFileName_example = sanitize_filename-IsFileName (codes " ../../etc/.. ")

-- The administration's database and files, which answer.
abbrev admin_outside : Outside
admin_outside = record {
  State = Unit {0};
  now = λ s. (pos 9, s);
  db_now = λ s. pos 8;
  db_fault = λ s. (false, s);
  stop = none;
  write_file = λ challenge at name body s. (some name, s);
  remove_file = λ path s. s;
}

abbrev disk : Disk (Unit {0})
disk = record {
  stage = λ path a s. (
    some (record {
      filename = a.filename;
      content_type = a.content_type;
      size_bytes = 3;
      temp_path = codes "/tmp/a";
    }),
    s,
  );
  clear = λ id s. (true, s);
  move = λ id name path s. (some name, s);
  remove = λ path s. s;
}

abbrev world : World admin_outside
world = record {
  db = record {
    contests = codes "recruit" ∷ [];
    categories = codes "web" ∷ [];
    roles = [];
    challenges = [];
    runtime_configs = [];
    authors = [];
    users = [];
    attachments = [];
    announcements = [];
    instances = [];
    audit_logs = [];
    next_challenge = 1;
    next_attachment = 1;
    next_announcement = 1;
  };
  out = tt;
}

abbrev with_file : ChallengeSpec
with_file = record written {
  attachments =
      record { source = codes "f"; filename = codes "a b.txt"; content_type = codes "text/plain" }
      ∷ [];
}

import_spec-Imported_example :
    let x =
      import_spec admin_outside outside disk (codes "/d") (codes "recruit") [] with_file world in
    Imported admin_outside outside disk (codes "/d") [] with_file world.db x.0 x.1.db
import_spec-Imported_example =
    import_spec-Imported admin_outside outside disk (codes "/d") (codes "recruit") [] with_file
      world
