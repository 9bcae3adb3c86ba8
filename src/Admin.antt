-- ===== src/Admin.antt =====
-- backend/internal/admin/types.go: what the administration works with.
pub mod World
pub mod Store
pub mod Repository
pub mod Records
pub mod Service
pub mod Rules
pub mod Ownership
pub mod Authors
pub mod Replaced
pub mod Ended
mod Tests
use ctf_recruit.Base.{ℕ, Text, Bool, false, Option, List, [], ℤ, pos, codes, ◌==◌, text_eq}
use ctf_recruit.Base.Dict.{Dict}

pub data Error : Type 0 where
  resource_not_found invalid_challenge_input store_error manager_error file_error : Error
  not_a_candidate : ℕ → Error

pub record Actor : Type 0 where
  pub user_id : ℕ
  pub role : Text

abbrev pub restrict_to_owned_challenges : Actor → Bool
restrict_to_owned_challenges a = a.role == codes "author"

pub record RuntimeConfig : Type 0 where
  pub enabled : Bool
  pub image_name : Text
  pub exposed_protocol : Text
  pub container_port : ℤ
  pub default_ttl : ℤ
  pub max_renew_count : ℤ
  pub memory_limit_mb : ℤ
  pub cpu_milli : ℤ
  pub max_active_instances : ℤ
  pub user_cooldown : ℤ
  pub env : Dict Text Text
  pub command : List Text

-- `RuntimeConfig{}`
abbrev pub no_config : RuntimeConfig
no_config = record {
  enabled = false;
  image_name = [];
  exposed_protocol = [];
  container_port = pos 0;
  default_ttl = pos 0;
  max_renew_count = pos 0;
  memory_limit_mb = pos 0;
  cpu_milli = pos 0;
  max_active_instances = pos 0;
  user_cooldown = pos 0;
  env = [];
  command = [];
}

pub record Attachment : Type 0 where
  pub id : ℕ
  pub filename : Text
  pub content_type : Text
  pub size_bytes : ℕ

pub record ChallengeAuthor : Type 0 where
  pub user_id : ℕ
  pub username : Text
  pub email : Text
  pub display_name : Text
  pub role : Text

pub record ChallengeSummary : Type 0 where
  pub id : ℕ
  pub slug : Text
  pub title : Text
  pub category : Text
  pub points : ℤ
  pub status : Text
  pub visible : Bool
  pub dynamic_enabled : Bool

pub record ChallengeDetail : Type 0 where
  pub id : ℕ
  pub slug : Text
  pub title : Text
  pub category : Text
  pub description : Text
  pub points : ℤ
  pub difficulty : Text
  pub flag_type : Text
  pub flag_value : Text
  pub status : Text
  pub visible : Bool
  pub dynamic_enabled : Bool
  pub sort_order : ℤ
  pub authors : List ChallengeAuthor
  pub attachments : List Attachment
  pub runtime_config : RuntimeConfig

pub record UpsertChallengeInput : Type 0 where
  pub slug : Text
  pub title : Text
  pub category_slug : Text
  pub description : Text
  pub points : ℤ
  pub difficulty : Text
  pub flag_type : Text
  pub flag_value : Text
  pub dynamic_enabled : Bool
  pub status : Text
  pub visible : Bool
  pub sort_order : ℤ
  pub runtime_config : Option RuntimeConfig

-- The body of an upload is an argument of its own.
pub record CreateAttachmentInput : Type 0 where
  pub filename : Text
  pub content_type : Text
  pub size_bytes : ℕ

pub record UserRecord : Type 0 where
  pub id : ℕ
  pub role : Text
  pub username : Text
  pub email : Text
  pub display_name : Text
  pub status : Text
  pub last_login_at : Option ℤ
  pub created_at : ℤ

pub record UpdateUserInput : Type 0 where
  pub role : Text
  pub display_name : Text
  pub status : Text

pub record Announcement : Type 0 where
  pub id : ℕ
  pub title : Text
  pub content : Text
  pub pinned : Bool
  pub published : Bool
  pub published_at : Option ℤ

pub record CreateAnnouncementInput : Type 0 where
  pub title : Text
  pub content : Text
  pub pinned : Bool
  pub published : Bool

pub record InstanceRecord : Type 0 where
  pub id : ℕ
  pub challenge_id : ℕ
  pub challenge_slug : Text
  pub username : Text
  pub status : Text
  pub host_port : ℕ
  pub expires_at : ℤ
  pub terminated_at : Option ℤ
  pub container_id : Text
