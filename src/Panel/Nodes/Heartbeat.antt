-- ===== src/Panel/Nodes/Heartbeat.antt =====
-- RecordHeartbeat of services/panel-api/internal/storage/nodes.go.
use lenker_panel.Base.{
  String, Bool, not, ◌&&◌, Option, some, none, List, ℤ, Time, ◌>>◌, guard, str_eq, trim_space,
  if◌then◌else◌,
}
use lenker_panel.Crypto.{Crypto}
use lenker_panel.Panel.Nodes.{RuntimeEvent, Node, NodeRow, invalid_node_status, not_found, Exec}
use lenker_panel.Panel.Nodes.Normalize.{
  is_valid_node_status, normalize_validation_status, normalize_runtime_mode,
  normalize_runtime_process_mode, normalize_runtime_process_state, normalize_runtime_desired_state,
  normalize_runtime_state, normalize_dry_run_status, normalize_runtime_attempt, nullable_time,
  stored_runtime_events,
}
use lenker_panel.Panel.Nodes.Lifecycle.{has_id, update_node}
use lenker_panel.Panel.Nodes.Bootstrap.{hash_string, is_valid}

-- What heartbeats and reports say about the runtime.
pub record RuntimeMetadata : Type 0 where
  pub runtime_mode : String
  pub runtime_process_mode : String
  pub runtime_process_state : String
  pub runtime_desired_state : String
  pub runtime_state : String
  pub last_dry_run_status : String
  pub last_runtime_attempt : String
  pub last_runtime_prepared : ℤ
  pub last_runtime_at : Time
  pub last_runtime_error : String
  pub last_validation_status : String
  pub last_validation_error : String
  pub last_validation_at : Time
  pub last_applied_revision : ℤ
  pub active_config_path : String
  pub runtime_events : List RuntimeEvent

pub record HeartbeatInput : Type 0 where
  pub node_id : String
  pub node_token : String
  pub agent_version : String
  pub status : String
  pub active_revision : ℤ
  pub runtime_metadata_present : Bool
  pub runtime : RuntimeMetadata
  pub xray_pid : ℤ
  pub sent_at : Time

-- `auth_token_hash = $2 AND registered_at IS NOT NULL AND status != 'disabled'`
unfoldable pub is_authorized : String → NodeRow → Bool
is_authorized hash row =
    has_hash row.auth_token_hash
    && is_valid row.node.registered_at
    && not (str_eq row.node.status "disabled")
  where
    has_hash : Option String → Bool
    has_hash none = Bool.false
    has_hash (some h) = str_eq h hash

-- the columns of the SET list that are kept unless the heartbeat has metadata
unfoldable pub with_runtime : Time → RuntimeMetadata → ℤ → Node → Node
with_runtime now m xray_pid node = record node {
  runtime_mode = normalize_runtime_mode m.runtime_mode;
  runtime_process_mode = normalize_runtime_process_mode m.runtime_process_mode;
  runtime_process_state = normalize_runtime_process_state m.runtime_process_state;
  runtime_desired_state = normalize_runtime_desired_state m.runtime_desired_state;
  runtime_state = normalize_runtime_state m.runtime_state;
  xray_pid = xray_pid;
  last_dry_run_status = normalize_dry_run_status m.last_dry_run_status;
  last_runtime_attempt = normalize_runtime_attempt m.last_runtime_attempt;
  last_runtime_prepared = m.last_runtime_prepared;
  last_runtime_at = nullable_time m.last_runtime_at;
  last_runtime_error = trim_space m.last_runtime_error;
  last_validation_status = normalize_validation_status m.last_validation_status;
  last_validation_error = trim_space m.last_validation_error;
  last_validation_at = nullable_time m.last_validation_at;
  last_applied_revision = m.last_applied_revision;
  active_config_path = trim_space m.active_config_path;
  runtime_events = stored_runtime_events now m.runtime_events;
}

unfoldable pub beat : Time → HeartbeatInput → NodeRow → NodeRow
unfolding with_runtime
beat now input row =
    let kept =
      if input.runtime_metadata_present
      then with_runtime now input.runtime input.xray_pid row.node
      else row.node in
    record row {
      node = record kept {
        status = if str_eq row.node.drain_state "drained" then "drained" else input.status;
        agent_version = input.agent_version;
        active_revision = input.active_revision;
        last_health_at = some input.sent_at;
        last_seen_at = some input.sent_at;
        updated_at = now;
      };
    }

unfoldable pub record_heartbeat : Crypto → Time → HeartbeatInput → Exec Node
unfolding is_authorized beat update_node
record_heartbeat c now input db = do
  guard (is_valid_node_status input.status) invalid_node_status
  update_node now
      (λ row. has_id input.node_id row && is_authorized (hash_string c input.node_token) row)
      (beat now input) not_found db
