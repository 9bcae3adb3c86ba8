-- ===== src/Runtime.antt =====
-- backend/internal/runtime/types.go: the records and errors of the dynamic instances.
pub mod World
pub mod Repository
pub mod Service
pub mod Background
pub mod Rules
pub mod Checks
pub mod Effects
pub mod Start
pub mod Lifecycle
pub mod History
pub mod Tables
pub mod Limits
pub mod Ports
pub mod Answers
pub mod Replies
pub mod Writes
pub mod Keys
pub mod Renewals
pub mod Found
pub mod Live
pub mod Sweep
pub mod Swept
mod Tests
use ctf_recruit.Base.{ℕ, Text, Bool, Option, List, ℤ, codes, ◌==◌, ◌||◌, text_eq, text_beq}

pub data Error : Type 0 where
  challenge_not_found challenge_not_dynamic runtime_config_missing : Error
  instance_not_found renew_limit_reached capacity_reached : Error
  cooldown_active port_exhausted repository_not_found : Error
  -- An error of the database, and one of the container manager with its message.
  store_error : Error
  manager_error : Text → Error

pub record ServiceConfig : Type 0 where
  pub public_base_url : Text
  pub runtime_base_url : Text
  pub bind_addr : Text
  pub port_min : ℤ
  pub port_max : ℤ

pub record ChallengeConfig : Type 0 where
  pub id : Text
  pub slug : Text
  pub title : Text
  pub category : Text
  pub points : ℤ
  pub dynamic : Bool
  pub image_name : Text
  pub exposed_protocol : Text
  pub container_port : ℤ
  pub ttl : ℤ
  pub max_renew_count : ℤ
  pub memory_limit_mb : ℤ
  pub cpu_milli : ℤ
  pub max_active_instances : ℤ
  pub user_cooldown : ℤ
  pub env : List (Text × Text)
  pub command : List Text

pub record ChallengeSummary : Type 0 where
  pub id : Text
  pub slug : Text
  pub title : Text
  pub category : Text
  pub points : ℤ
  pub difficulty : Text
  pub dynamic : Bool

pub record Instance : Type 0 where
  pub challenge_id : Text
  pub user_id : ℕ
  pub status : Text
  pub access_url : Text
  pub host_port : ℕ
  pub renew_count : ℕ
  pub started_at : ℤ
  pub expires_at : ℤ
  pub terminated_at : Option ℤ
  pub container_id : Text
  pub container_name : Text
  pub host_ip : Text

pub record RuntimeConfigRecord : Type 0 where
  pub id : ℕ
  pub challenge : ChallengeConfig

pub record InstanceRecord : Type 0 where
  pub id : ℕ
  pub runtime_config_id : ℕ
  pub inst : Instance

pub record ManagedContainer : Type 0 where
  pub container_id : Text
  pub challenge_id : Text
  pub user_id : ℕ

pub record ReconcileReport : Type 0 where
  pub terminated_records : ℕ
  pub removed_containers : ℕ

pub record StartRequest : Type 0 where
  pub challenge_id : Text
  pub user_id : ℕ
  pub bind_addr : Text
  pub host_port : ℕ
  pub config : ChallengeConfig

pub record StartedContainer : Type 0 where
  pub container_id : Text
  pub container_name : Text
  pub host_ip : Text
  pub host_port : ℕ

abbrev pub status_creating : Text
status_creating = codes "creating"

abbrev pub status_running : Text
status_running = codes "running"

abbrev pub status_terminated : Text
status_terminated = codes "terminated"

-- `status IN ('creating', 'running')`, as the queries and the unique index say it.
unfoldable pub is_active : InstanceRecord → Bool
unfolding text_beq
is_active r = r.inst.status == status_creating || r.inst.status == status_running
