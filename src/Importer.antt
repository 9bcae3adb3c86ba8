-- ===== src/Importer.antt =====
-- backend/internal/challengeimport/importer.go: what a file that describes a challenge holds.
pub mod Lines
pub mod Assign
pub mod Parser
pub mod Blanks
pub mod Files
pub mod Tables
pub mod Import
pub mod Imported
pub mod Kept
mod Tests
pub mod Normal
pub mod NormalMeta
pub mod NormalRuntime
pub mod Normalized
use ctf_recruit.Base.{ℕ, Text, Bool, false, true, Option, none, List, [], ℤ, pos}
use ctf_recruit.Base.Dict.{Dict}
use ctf_recruit.Game

pub record ChallengeMeta : Type 0 where
  pub slug : Text
  pub title : Text
  pub category : Text
  pub points : ℤ
  pub difficulty : Text
  pub dynamic : Bool
  pub status : Text
  pub visible : Bool
  pub sort_order : ℤ

pub record ChallengeFlag : Type 0 where
  pub flag_type : Text
  pub value : Text

pub record ChallengeContent : Type 0 where
  pub description : Text
  pub author : Text

pub record ChallengeOwnership : Type 0 where
  pub author : Text

-- `none` is the map, or the slice, that is nil.
pub record ChallengeRuntime : Type 0 where
  pub image_name : Text
  pub mode : Text
  pub exposed_protocol : Text
  pub container_port : ℤ
  pub ttl : ℤ
  pub memory_limit_mb : ℤ
  pub cpu_milli : ℤ
  pub max_renew_count : ℤ
  pub max_active_instances : ℤ
  pub user_cooldown : ℤ
  pub env : Option (Dict Text Text)
  pub command : Option (List Text)
  pub enabled : Bool

pub record AttachmentSpec : Type 0 where
  pub filename : Text
  pub source : Text
  pub content_type : Text

pub record ChallengeSpec : Type 0 where
  pub metadata : ChallengeMeta
  pub flag : ChallengeFlag
  pub content : ChallengeContent
  pub ownership : ChallengeOwnership
  pub runtime : Option ChallengeRuntime
  pub attachments : List AttachmentSpec

-- The values that Go's zero values are.
abbrev pub empty_runtime : ChallengeRuntime
empty_runtime = record {
  image_name = [];
  mode = [];
  exposed_protocol = [];
  container_port = pos 0;
  ttl = pos 0;
  memory_limit_mb = pos 0;
  cpu_milli = pos 0;
  max_renew_count = pos 0;
  max_active_instances = pos 0;
  user_cooldown = pos 0;
  env = none;
  command = none;
  enabled = false;
}

abbrev pub empty_attachment : AttachmentSpec
empty_attachment = record { filename = []; source = []; content_type = [] }

abbrev pub empty_spec : ChallengeSpec
empty_spec = record {
  metadata = record {
    slug = [];
    title = [];
    category = [];
    points = pos 0;
    difficulty = [];
    dynamic = false;
    status = [];
    visible = false;
    sort_order = pos 0;
  };
  flag = record { flag_type = []; value = [] };
  content = record { description = []; author = [] };
  ownership = record { author = [] };
  runtime = none;
  attachments = [];
}

-- Why a specification is refused. A number is the place of an attachment in its list.
pub data SpecError : Type 0 where
  points_not_positive slug_missing title_missing category_missing flag_missing : SpecError
  status_invalid : Text → SpecError
  flag_invalid : Game.Error → SpecError
  filename_missing source_missing : ℕ → SpecError
  runtime_not_dynamic image_missing port_not_positive ttl_not_positive : SpecError
  mode_unsupported protocol_unsupported : Text → SpecError
  renew_negative active_negative cooldown_negative : SpecError

-- What is wrong with a line of a file.
pub data LineError : Type 0 where
  odd_indent expected_section expected_key_value key_empty command_item_expected : LineError
  nesting_misplaced nesting_too_deep : LineError
  unsupported_nested unsupported_runtime_nested unsupported_section : Text → LineError
  unsupported_key : Text → Text → LineError
  not_numeric not_boolean not_duration : Text → LineError

-- Why a file is refused: a line of it with its number, the reading of it, or what it says.
pub data ParseError : Type 0 where
  at_line : ℕ → LineError → ParseError
  scan_failed : ParseError
  refused : SpecError → ParseError
