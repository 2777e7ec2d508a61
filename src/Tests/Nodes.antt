-- ===== src/Tests/Nodes.antt =====
-- The theorems on nodes, at concrete databases.
use lenker_panel.Base.{◌≡◌, refl, true, some, [], ◌∷◌, pos, ok, err, trim_space}
use lenker_panel.Crypto.Hex.{encode_to_string}
use lenker_panel.Panel.Nodes.{
  NodeRow, Db, find, any, check_node, update_where, bootstrap_token_used, not_found,
}
use lenker_panel.Panel.Nodes.Normalize.{scan_node, is_valid_node_status}
use lenker_panel.Panel.Nodes.Lifecycle.{set_states, update_node, disable}
use lenker_panel.Panel.Nodes.Bootstrap.{
  CreateBootstrapTokenInput, RegisterNodeInput, new_node_row, new_token_row, new_node_token,
  hash_string, spent, registered, register, holds_token,
}
use lenker_panel.Panel.Nodes.Bootstrap.SingleUse.{register_once}
use lenker_panel.Panel.Nodes.Bootstrap.Joining.{create_then_register, created-registers}
use lenker_panel.Panel.Nodes.Heartbeat.{HeartbeatInput, RuntimeMetadata, record_heartbeat}
use lenker_panel.Panel.Nodes.Revisions.{find_latest_pending_config_revision}
use lenker_panel.Panel.Nodes.Revisions.Report.{ReportConfigRevisionInput, report_config_revision}
use lenker_panel.Panel.Nodes.Lockout.{disabled_locked_out}
use lenker_panel.Tests.{constant}

abbrev pub empty : Db
empty = record {
  nodes = [];
  tokens = [];
  registrations = [];
  revisions = [];
  subscriptions = [];
  users = [];
  plans = [];
}

abbrev pub node_input : CreateBootstrapTokenInput
node_input = record {
  name = "de-1";
  region = "eu";
  country_code = "DE";
  hostname = "de-1.example";
  expires_at = 1000;
  created_by_admin_id = "";
}

-- One registered node, with one subscription for it.
abbrev pub one_row : NodeRow
one_row = registered "" "0.1.0" "hash" 10 (new_node_row "node-1" 1 node_input)

abbrev pub one_node : Db
one_node = record empty {
  nodes = one_row ∷ [];
  subscriptions =
      record {
        id = "sub-1";
        user_id = "user-1";
        plan_id = "plan-1";
        status = "active";
        preferred_region = some "eu";
        device_limit = pos 2;
        traffic_limit_bytes = some (pos 1000);
        starts_at = 0;
        expires_at = 100;
      }
      ∷ [];
  users = record { id = "user-1"; status = "active" } ∷ [];
  plans = record { id = "plan-1"; name = "Basic" } ∷ [];
}

-- A node joins beside it.
created-registers_example :
    create_then_register constant 1 "node-2" "token-2"
      (5 ∷ [])
      node_input
      10
      (6 ∷ [])
      "0.1.0"
      ""
      one_node
    ≡ ok ("node-2", "active")
unfolding any holds_token registered new_node_row hash_string new_node_token encode_to_string
created-registers_example =
    created-registers constant 1 "node-2" "token-2" (5 ∷ []) node_input one_node refl refl 10
      (6 ∷ []) "0.1.0" "" refl refl

-- A registration, and a second one with the same token.
abbrev waiting : Db
waiting = record empty {
  nodes = new_node_row "node-1" 1 node_input ∷ [];
  tokens = new_token_row "token-1" "node-1" 1 (hash_string constant "t") node_input ∷ [];
}

abbrev registration : RegisterNodeInput
registration = record {
  node_id = "";
  bootstrap_token = "t";
  agent_version = "0.1.0";
  hostname = "";
}

abbrev registered_db : Db
registered_db = record {
  nodes =
      registered "" "0.1.0" (hash_string constant (new_node_token (6 ∷ []))) 10
        (new_node_row "node-1" 1 node_input)
      ∷ [];
  tokens = spent 10 (new_token_row "token-1" "node-1" 1 (hash_string constant "t") node_input) ∷ [];
  registrations =
      record {
        node_id = "node-1";
        bootstrap_token_hash = hash_string constant "t";
        registration_status = "completed";
      }
      ∷ [];
  revisions = [];
  subscriptions = [];
  users = [];
  plans = [];
}

registers :
    register constant 10 (6 ∷ []) registration waiting
    ≡ ok (
      record {
        node =
            (registered "" "0.1.0"
              (hash_string constant (new_node_token (6 ∷ [])))
              10
              (new_node_row "node-1" 1 node_input)).node;
        node_token = new_node_token (6 ∷ []);
      },
      registered_db,
    )
unfolding register find update_where registered new_node_row new_token_row new_node_token
    hash_string update_node scan_node encode_to_string check_node any
registers = refl

register_once_example :
    register constant 12 (8 ∷ []) (record registration { node_id = "node-1" }) registered_db
    ≡ err bootstrap_token_used
register_once_example =
    register_once constant 10 (6 ∷ []) registration waiting _ registered_db registers 12 (8 ∷ [])
      (record registration { node_id = "node-1" }) refl

-- The node is disabled, then it reports in with each call.
abbrev pub metadata : RuntimeMetadata
metadata = record {
  runtime_mode = "dry-run-only";
  runtime_process_mode = "disabled";
  runtime_process_state = "ready";
  runtime_desired_state = "";
  runtime_state = "active_config_ready";
  last_dry_run_status = "passed";
  last_runtime_attempt = "ready";
  last_runtime_prepared = pos 1;
  last_runtime_at = 15;
  last_runtime_error = "";
  last_validation_status = "applied";
  last_validation_error = "";
  last_validation_at = 15;
  last_applied_revision = pos 1;
  active_config_path = "/var/lib/lenker/active/config.json";
  runtime_events = [];
}

abbrev pub heartbeat : HeartbeatInput
heartbeat = record {
  node_id = "node-1";
  node_token = "hash";
  agent_version = "0.1.0";
  status = "active";
  active_revision = pos 1;
  runtime_metadata_present = true;
  runtime = metadata;
  xray_pid = pos 0;
  sent_at = 16;
}

abbrev pub report : ReportConfigRevisionInput
report = record {
  node_id = "node-1";
  node_token = "hash";
  revision_id = "rev-1";
  status = "applied";
  applied_at = 15;
  failed_at = 0;
  error_message = "";
  runtime = metadata;
  sent_at = 16;
}

abbrev disabled_row : NodeRow
disabled_row = set_states "disabled" "active" 14 one_row

abbrev disabled_db : Db
disabled_db = record one_node { nodes = disabled_row ∷ [] }

disables : disable 14 "node-1" one_node ≡ ok (disabled_row.node, disabled_db)
unfolding disable find update_where registered new_node_row update_node scan_node set_states
    check_node
disables = refl

disabled_locked_out_example :
    (record_heartbeat constant 17 heartbeat disabled_db ≡ err not_found)
    × (report_config_revision constant 17 report disabled_db ≡ err not_found)
    × (find_latest_pending_config_revision constant "node-1" "hash" disabled_db ≡ err not_found)
unfolding is_valid_node_status trim_space
disabled_locked_out_example =
    disabled_locked_out constant 14 "node-1" one_node disabled_row.node disabled_db disables 17
      heartbeat report "hash" refl refl refl refl
