-- ===== src/Session/State.antt =====
-- The data of crates/kiliax-core/src/session.rs. `J` stands for `serde_json::Value`; sequence
-- numbers and times are plain numbers.
use kiliax.Prelude.{ℕ, Bool, Option, List}
use kiliax.Text.{Text}
use kiliax.Protocol.{Message}

-- `SkillsConfig` and `CustomToolsConfig` of crates/kiliax-core/src/config.rs.
pub record Toggles : Type 0 where
  pub default_enable : Bool
  pub overrides : List (Text × Bool)

pub data SessionGoalStatus : Type 0 where
  active complete : SessionGoalStatus

pub record SessionGoal : Type 0 where
  pub objective : Text
  pub status : SessionGoalStatus
  pub session_id : Text
  pub time_used_seconds : ℕ
  pub created_at : Text
  pub updated_at : Text
  pub tokens_used : ℕ

pub record SessionMcpServerSetting : Type 0 where
  pub id : Text
  pub enable : Bool

pub record SessionMeta : Type 0 where
  pub schema_version : ℕ
  pub id : Text
  pub created_at_ms : ℕ
  pub updated_at_ms : ℕ
  pub agent : Text
  pub model_id : Option Text
  pub config_path : Option Text
  pub workspace_root : Option Text
  pub extra_workspace_roots : List Text
  pub mcp_servers : List SessionMcpServerSetting
  pub skills : Option Toggles
  pub custom_tools : Option Toggles
  pub title : Option Text
  pub last_finish_reason : Option Text
  pub last_error : Option Text
  pub prompt_cache_key : Option Text
  pub project_prompt : Option Text
  pub goal : Option SessionGoal
  pub root_session_id : Option Text
  pub parent_session_id : Option Text
  pub agent_path : Option Text
  pub agent_role : Option Text
  pub closed : Bool
  pub last_seq : ℕ
  pub last_snapshot_seq : ℕ
  pub message_count : ℕ

pub record ContextCheckpoint (J : Type 0) : Type 0 where
  pub base_message_id : ℕ
  pub messages : List (Message J)
  pub reason : Text

pub data SessionEvent (J : Type 0) : Type 0 where
  message : Message J → SessionEvent J
  message_edit : ℕ → Message J → SessionEvent J
  truncate_after : ℕ → SessionEvent J
  context_checkpoint : ContextCheckpoint J → SessionEvent J
  finish : Option Text → SessionEvent J
  error : Text → SessionEvent J
  goal_set : SessionGoal → SessionEvent J
  goal_cleared : SessionEvent J
  goal_completed : SessionGoal → SessionEvent J
  goal_usage : ℕ → ℕ → SessionEvent J

pub record SessionEventLine (J : Type 0) : Type 0 where
  pub schema_version : ℕ
  pub seq : ℕ
  pub ts_ms : ℕ
  pub event : SessionEvent J

pub record SessionState (J : Type 0) : Type 0 where
  pub meta : SessionMeta
  pub messages : List (Message J)
  pub message_ids : List ℕ
  pub checkpoint : Option (ContextCheckpoint J)

pub record SessionSnapshot (J : Type 0) : Type 0 where
  pub schema_version : ℕ
  pub meta : SessionMeta
  pub messages : List (Message J)
  pub message_ids : List ℕ
  pub checkpoint : Option (ContextCheckpoint J)

pub record SessionMessageEntry (J : Type 0) : Type 0 where
  pub seq : ℕ
  pub ts_ms : ℕ
  pub message : Message J

pub record SessionMessagePage (J : Type 0) : Type 0 where
  pub items : List (SessionMessageEntry J)
  pub next_before : Option ℕ

pub data SessionError : Type 0 where
  invalid_id not_found deserialize io : SessionError
  unsupported_schema : ℕ → SessionError

abbrev pub session_schema_version : ℕ
session_schema_version = 4
