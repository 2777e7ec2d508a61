-- ===== src/Agent/Model.antt =====
-- The data of the agent: services/node-agent/internal/agent/model.go, and the errors of service.go,
-- xray_validator.go, xray_dryrun.go and client.go. A time is a number of nanoseconds, 0 the zero
-- time, in UTC.
use lenker_panel.Base.{String, Bool, Option, List, ℤ, Time}
use lenker_panel.Json.{Fields}
use lenker_panel.Json.Gate.{GateError}

pub record Identity : Type 0 where
  pub node_id : String
  pub bootstrap_token : String
  pub node_token : String
  pub panel_url : String
  pub state_dir : String
  pub xray_bin : String
  pub process_mode : String

pub record RuntimeEvent : Type 0 where
  pub type : String
  pub status : String
  pub revision_number : ℤ
  pub message : String
  pub runtime_mode : String
  pub runtime_process_mode : String
  pub runtime_process_state : String
  pub at : Time

pub record Status : Type 0 where
  pub node_id : String
  pub status : String
  pub registered : Bool
  pub panel_url : String
  pub last_heartbeat_at : Time
  pub xray_dry_run_enabled : Bool
  pub runtime_mode : String
  pub runtime_process_mode : String
  pub runtime_process_state : String
  pub runtime_desired_state : String
  pub runtime_state : String
  pub last_dry_run_status : String
  pub last_runtime_attempt_status : String
  pub last_runtime_prepared : ℤ
  pub last_runtime_transition_at : Time
  pub last_runtime_error : String
  pub active_revision : ℤ
  pub last_applied_revision : ℤ
  pub last_rollback_revision : ℤ
  pub staged_revision : ℤ
  pub rollback_candidate_revision : ℤ
  pub last_validation_status : String
  pub last_validation_error : String
  pub last_validation_at : Time
  pub config_artifact_path : String
  pub metadata_artifact_path : String
  pub runtime_events : List RuntimeEvent

-- `bundle` is nil where the document has none.
pub record ConfigRevision : Type 0 where
  pub id : String
  pub node_id : String
  pub revision_number : ℤ
  pub status : String
  pub bundle_hash : String
  pub signature : String
  pub signer : String
  pub rollback_target_revision : ℤ
  pub bundle : Option Fields
  pub created_at : Time
  pub applied_at : Time

pub data AgentError : Type 0 where
  bootstrap_token_required node_id_required node_token_required : AgentError
  invalid_config_revision invalid_config_bundle_hash invalid_config_signature : AgentError
  invalid_config_payload state_dir_required config_artifact_write : AgentError
  unexpected_panel_response : AgentError
  invalid_xray_config : GateError → AgentError
  xray_dry_run_failed : (reason : String) → AgentError
  other_error : (text : String) → AgentError
