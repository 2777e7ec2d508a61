-- ===== src/Tests/States.antt =====
-- The theorems on heartbeats, reports and the states of nodes, at concrete databases.
use lenker_panel.Base.{
  ◌≤◌, arith, ◌≡◌, refl, String, none, some, [], ◌∷◌, pos, ok, err, All, map, length, trim_space,
}
use lenker_panel.Crypto.Hex.{encode_to_string}
use lenker_panel.Panel.Nodes.{
  RuntimeEvent, NodeRow, RevisionRow, Db, find, update_where, check_node, check_updated,
  constraint_violated, not_found,
}
use lenker_panel.Panel.Nodes.Normalize.{
  normalize_runtime_event, normalize_runtime_events, scan_node, is_valid_node_status,
  normalize_runtime_mode, normalize_validation_status, normalize_runtime_process_mode,
  normalize_runtime_process_state, normalize_runtime_state, normalize_dry_run_status,
  normalize_runtime_attempt,
}
use lenker_panel.Panel.Nodes.Lifecycle.{has_id, set_states, update_node, drain}
use lenker_panel.Panel.Nodes.Bootstrap.{new_node_row, registered, hash_string}
use lenker_panel.Panel.Nodes.Heartbeat.{HeartbeatInput, is_authorized, record_heartbeat}
use lenker_panel.Panel.Nodes.Revisions.{scan_config_revision}
use lenker_panel.Panel.Nodes.Revisions.Report.{
  ReportConfigRevisionInput, report_node, reported, reported_at, report_config_revision,
}
use lenker_panel.Panel.Nodes.Revisions.Once.{report_once}
use lenker_panel.Panel.Nodes.Revisions.Settled.{IsSettled, report-IsSettled}
use lenker_panel.Panel.Nodes.Canonical.{IsShort, events_bounded}
use lenker_panel.Panel.Subscriptions.Rows.{count}
use lenker_panel.Panel.Nodes.Constraints.{local_mode_heartbeat_refused}
use lenker_panel.Panel.Nodes.States.{Stepped, to_drain, draining, run, run-Stepped}
use lenker_panel.Panel.Nodes.Steps.{Step-run}
use lenker_panel.Json.{fields}
use lenker_panel.Agent.Service.Trail.{take_last}
use lenker_panel.Tests.{constant}
use lenker_panel.Tests.Nodes.{empty, node_input, one_row, one_node, metadata, heartbeat, report}

abbrev event : RuntimeEvent
event = record {
  type = " apply_success ";
  status = "applied";
  revision_number = pos 1;
  message = "";
  runtime_mode = "dry-run-only";
  runtime_process_mode = "local";
  runtime_process_state = "ready";
  at = 0;
}

events_bounded_example :
    (normalize_runtime_events 9 (event ∷ event ∷ [])
      ≡ map (normalize_runtime_event 9) (take_last 20 (event ∷ event ∷ [])))
    × (length (normalize_runtime_events 9 (event ∷ event ∷ [])) ≤ 20)
    × All IsShort (normalize_runtime_events 9 (event ∷ event ∷ []))
events_bounded_example = events_bounded 9 (event ∷ event ∷ [])

-- A node with a token that it knows, and a pending revision.
abbrev known_row : NodeRow
known_row =
    registered "" "0.1.0" (hash_string constant "secret") 10 (new_node_row "node-1" 1 node_input)

abbrev pending : RevisionRow
pending = record {
  id = "rev-1";
  node_id = "node-1";
  revision_number = 1;
  bundle_hash = "";
  signature = "";
  signer = "lenker-dev-hmac-sha256";
  status = "pending";
  rollback_target_revision = some (pos 0);
  payload = fields [];
  created_by_admin_id = none;
  created_at = 11;
  applied_at = none;
  failed_at = none;
  rolled_back_at = none;
  error_message = none;
}

abbrev other_row : NodeRow
other_row =
    registered "" "0.1.0" (hash_string constant "other") 10 (new_node_row "node-2" 1 node_input)

abbrev known_db : Db
known_db = record empty { nodes = known_row ∷ other_row ∷ []; revisions = pending ∷ [] }

abbrev local_heartbeat : HeartbeatInput
local_heartbeat = record heartbeat {
  node_token = "secret";
  runtime = record metadata { runtime_mode = "local-process-managed" };
}

local_mode_heartbeat_refused_example :
    (name : String) × (record_heartbeat constant 17 local_heartbeat known_db
      ≡ err (constraint_violated name))
unfolding is_valid_node_status trim_space find is_authorized registered new_node_row hash_string
    encode_to_string normalize_runtime_mode
local_mode_heartbeat_refused_example =
    local_mode_heartbeat_refused constant 17 local_heartbeat known_db known_row refl refl refl refl

abbrev drained_row : NodeRow
drained_row = set_states "active" "draining" 14 one_row

abbrev drained_db : Db
drained_db = record one_node { nodes = drained_row ∷ [] }

drains : drain 14 "node-1" one_node ≡ ok (drained_row.node, drained_db)
unfolding drain find update_where registered new_node_row update_node scan_node set_states
    check_node
drains = refl

run-Stepped_example : Stepped to_drain 14 "node-1" one_node drained_row.node drained_db
run-Stepped_example = run-Stepped to_drain 14 "node-1" one_node drained_row.node drained_db drains

Step-run_example :
    run to_drain 14 "node-1" one_node
    ≡ ok (
      scan_node 14 (set_states "active" "draining" 14 one_row),
      record one_node {
        nodes = update_where (has_id "node-1") (set_states "active" "draining" 14) one_node.nodes;
      },
    )
unfolding find registered new_node_row check_node
Step-run_example =
    Step-run to_drain 14 "node-1" "active" "draining" one_node one_row (refl, tt) refl
      (draining "active" "active" refl refl)

abbrev known_report : ReportConfigRevisionInput
known_report = record report { node_token = "secret" }

abbrev settled_row : RevisionRow
settled_row = record pending { status = "applied"; applied_at = some 15 }

abbrev settled_db : Db
settled_db = record known_db {
  nodes = report_node 17 15 known_report 1 known_row ∷ other_row ∷ [];
  revisions = settled_row ∷ [];
}

reports :
    report_config_revision constant 17 known_report known_db
    ≡ ok (scan_config_revision settled_row, settled_db)
unfolding report_config_revision find update_where is_authorized registered new_node_row hash_string
    encode_to_string check_node check_updated reported reported_at report_node
    normalize_runtime_mode trim_space normalize_validation_status normalize_runtime_state
    normalize_dry_run_status normalize_runtime_attempt normalize_runtime_process_mode
    normalize_runtime_process_state
reports = refl

report-IsSettled_example :
    IsSettled constant known_report 17 known_db (scan_config_revision settled_row) settled_db
report-IsSettled_example =
    report-IsSettled constant known_report 17 known_db (scan_config_revision settled_row) settled_db
      reports

-- another node, with its own token
abbrev second_report : ReportConfigRevisionInput
second_report = record known_report { node_id = "node-2"; node_token = "other"; status = "failed" }

report_once_example : report_config_revision constant 20 second_report settled_db ≡ err not_found
unfolding count
report_once_example =
    report_once constant 17 known_report known_db (scan_config_revision settled_row) settled_db
      (omega arith) reports 20 second_report refl refl
