-- ===== src/Panel/Nodes/Revisions/Report.antt =====
-- ReportConfigRevision of services/panel-api/internal/storage/nodes.go.
use lenker_panel.Base.{
  ℕ, String, Bool, ◌&&◌, ◌||◌, some, none, ℤ, pos, is_pos, Time, is_zero, ok, ◌>>=◌, ◌>>◌, require,
  guard, str_eq, is_empty, trim_space, if◌then◌else◌,
}
use lenker_panel.Crypto.{Crypto}
use lenker_panel.Panel.Nodes.{
  Node, NodeRow, RevisionRow, not_found, invalid_node_transition, Exec, find, update_where,
  check_updated,
}
use lenker_panel.Panel.Nodes.Normalize.{
  normalize_validation_status, normalize_runtime_mode, normalize_runtime_process_mode,
  normalize_runtime_process_state, normalize_runtime_desired_state, normalize_runtime_state,
  normalize_dry_run_status, normalize_runtime_attempt, stored_runtime_events,
}
use lenker_panel.Panel.Nodes.Lifecycle.{has_id}
use lenker_panel.Panel.Nodes.Bootstrap.{hash_string, null_string}
use lenker_panel.Panel.Nodes.Heartbeat.{RuntimeMetadata, is_authorized}
use lenker_panel.Panel.Nodes.Revisions.{ConfigRevision, scan_config_revision}

pub record ReportConfigRevisionInput : Type 0 where
  pub node_id : String
  pub node_token : String
  pub revision_id : String
  pub status : String
  pub applied_at : Time
  pub failed_at : Time
  pub error_message : String
  pub runtime : RuntimeMetadata
  pub sent_at : Time

abbrev or_time : Time → Time → Time
or_time t d = if is_zero t then d else t

unfoldable pub reported_at : Time → ReportConfigRevisionInput → Time
reported_at now input =
    or_time (if str_eq input.status "applied" then input.applied_at else input.failed_at)
      (or_time input.sent_at now)

unfoldable pub validation_status : ReportConfigRevisionInput → String
validation_status input =
    let status = normalize_validation_status input.runtime.last_validation_status in
    if is_empty status then input.status else status

unfoldable pub validation_error : ReportConfigRevisionInput → String
validation_error input =
    let error = trim_space input.runtime.last_validation_error in
    if is_empty error && str_eq input.status "failed" then trim_space input.error_message else error

-- SET of the first UPDATE, of the revision
unfoldable pub reported : Time → ReportConfigRevisionInput → RevisionRow → RevisionRow
reported at input row =
    if str_eq input.status "applied"
    then record row {
      status = "applied";
      applied_at = some at;
      failed_at = none;
      error_message = none;
    }
    else record row {
      status = "failed";
      failed_at = some at;
      error_message = null_string input.error_message;
    }

-- what both forms of the second UPDATE set, for the node
unfoldable pub with_report : Time → Time → ReportConfigRevisionInput → Node → Node
unfolding validation_status
with_report now at input node =
    let m = input.runtime in
    record node {
      runtime_mode = normalize_runtime_mode m.runtime_mode;
      runtime_process_mode = normalize_runtime_process_mode m.runtime_process_mode;
      runtime_process_state = normalize_runtime_process_state m.runtime_process_state;
      runtime_desired_state = normalize_runtime_desired_state m.runtime_desired_state;
      runtime_state = normalize_runtime_state m.runtime_state;
      last_dry_run_status = normalize_dry_run_status m.last_dry_run_status;
      last_runtime_attempt = normalize_runtime_attempt m.last_runtime_attempt;
      last_runtime_at = some (or_time m.last_runtime_at at);
      last_runtime_error = trim_space m.last_runtime_error;
      last_validation_status = validation_status input;
      last_validation_at = some (or_time m.last_validation_at at);
      runtime_events = stored_runtime_events now m.runtime_events;
      updated_at = or_time m.last_validation_at at;
    }

unfoldable pub applied_node : Time → Time → ReportConfigRevisionInput → ℕ → NodeRow → NodeRow
unfolding with_report
applied_node now at input number row = record row {
  node = record (with_report now at input row.node) {
    active_revision = pos number;
    last_runtime_prepared = input.runtime.last_runtime_prepared;
    last_validation_error = "";
    last_applied_revision =
        if is_pos input.runtime.last_applied_revision
        then input.runtime.last_applied_revision
        else pos number;
    active_config_path = trim_space input.runtime.active_config_path;
  };
}

abbrev or_kept : ℤ → ℤ → ℤ
or_kept n kept = if is_pos n then n else kept

unfoldable pub failed_node : Time → Time → ReportConfigRevisionInput → NodeRow → NodeRow
unfolding with_report validation_error
failed_node now at input row =
    let path = trim_space input.runtime.active_config_path in
    record row {
      node = record (with_report now at input row.node) {
        last_runtime_prepared =
            or_kept input.runtime.last_runtime_prepared row.node.last_runtime_prepared;
        last_validation_error = validation_error input;
        last_applied_revision =
            or_kept input.runtime.last_applied_revision row.node.last_applied_revision;
        active_config_path = if is_empty path then row.node.active_config_path else path;
      };
    }

unfoldable pub report_node : Time → Time → ReportConfigRevisionInput → ℕ → NodeRow → NodeRow
unfolding applied_node failed_node
report_node now at input number row =
    if str_eq input.status "applied"
    then applied_node now at input number row
    else failed_node now at input row

-- `cr.node_id = $1 AND cr.id = $2 AND cr.status = 'pending'`
unfoldable pub is_reported : ReportConfigRevisionInput → RevisionRow → Bool
is_reported input row =
    str_eq row.node_id input.node_id
    && str_eq row.id input.revision_id
    && str_eq row.status "pending"

abbrev pub is_final : String → Bool
is_final status = str_eq status "applied" || str_eq status "failed"

-- The join with nodes is on the node's key and its token; the second UPDATE meets the same row.
unfoldable pub report_config_revision :
    Crypto → Time → ReportConfigRevisionInput → Exec ConfigRevision
unfolding reported_at reported report_node is_reported is_authorized hash_string
    scan_config_revision
report_config_revision c now input db = do
  guard (is_final input.status) invalid_node_transition
  let at = reported_at now input
  let mine : NodeRow → Bool =
      λ row. has_id input.node_id row && is_authorized (hash_string c input.node_token) row
  _ ← require (find mine db.nodes) not_found
  row ← require (find (is_reported input) db.revisions) not_found
  check_updated mine (report_node now at input row.revision_number) db.nodes
  ok (
    scan_config_revision (reported at input row),
    record db {
      nodes = update_where mine (report_node now at input row.revision_number) db.nodes;
      revisions = update_where (is_reported input) (reported at input) db.revisions;
    },
  )
