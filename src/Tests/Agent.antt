-- ===== src/Tests/Agent.antt =====
-- The theorems on the agent's applying, polling and restarting, at a concrete machine.
use lenker_panel.Base.{
  ◌≡◌, ◌+◌, ◌⊎◌, refl, String, true, false, none, some, [], ◌∷◌, ◌++◌, pos, ok, append, arith,
  is_blank, trim_space,
}
use lenker_panel.Crypto.Hex.{encode_to_string}
use lenker_panel.Json.{Fields, end}
use lenker_panel.Agent.Model.{Identity, Status, RuntimeEvent, ConfigRevision}
use lenker_panel.Agent.Service.{new_service, limited}
use lenker_panel.Agent.Machine.{Host, World, document}
use lenker_panel.Agent.Machine.Store.{Separates}
use lenker_panel.Agent.Machine.Outcomes.{Ends}
use lenker_panel.Agent.Applying.{apply_config_revision_with_context}
use lenker_panel.Agent.Applying.Ended.{IsSaved, Ended, apply-Ended}
use lenker_panel.Agent.Polling.{poll_pending_config_revision}
use lenker_panel.Agent.Polling.Reported.{IsTaken, IsRefused, SaysApplied, SaysFailed, poll-Says}
use lenker_panel.Agent.Persisting.{persisted, assign_all}
use lenker_panel.Agent.Restoring.{start}
use lenker_panel.Agent.Restoring.Restart.{IsStorable, Agrees, start-Agrees}
use lenker_panel.Json.Wire.{wire_fields}
use lenker_panel.Panel.Render.{default_reality_config}
use lenker_panel.Panel.Render.Payload.{render_vless_reality_payload_with_reality}
use lenker_panel.Panel.Nodes.Revisions.Create.{dummy_render_input}
use lenker_panel.Tests.Nodes.{one_row, one_node}
use lenker_panel.Tests.{constant}

abbrev local_agent : Identity
local_agent = record {
  node_id = "node-1";
  bootstrap_token = "";
  node_token = "token";
  panel_url = "";
  state_dir = "/state";
  xray_bin = "xray";
  process_mode = "local";
}

abbrev pending : ConfigRevision
pending = record {
  id = "revision-1";
  node_id = "node-1";
  revision_number = pos 1;
  status = "pending";
  bundle_hash = encode_to_string (constant.sum end);
  signature = encode_to_string (constant.mac "");
  signer = "lenker-dev-hmac-sha256";
  rollback_target_revision = pos 0;
  bundle = some (
      wire_fields (
        render_vless_reality_payload_with_reality
          (dummy_render_input constant 20 one_row.node "node-1" 1 one_node)
          default_reality_config));
  created_at = 0;
  applied_at = 0;
}

-- Every file operation works; a time is written as one letter and read as zero.
abbrev machine : Host
machine = record {
  fails = λ n. false;
  clock = λ n. n + 1;
  join = λ dir name. append dir (append "/" name);
  time_text = λ t. "t";
  parse_time = λ s. some 0;
  xray = none;
  process_mode = "local";
  started = ok (record { process_state = "ready"; attempt = "ready"; error_message = ""; at = 7 });
  cancelled = none;
  pending = ok (some pending);
  reported = λ r. none;
}

append-injective : (s a b : String) → append s a ≡ append s b → a ≡ b
append-injective String.[] a b e = e
append-injective (String.◌∷◌ c s) a b e = append-injective s a b (cc)

separates : Separates machine
separates dir a b e = append-injective "/" a b (append-injective dir _ _ e)

abbrev begun : World
begun = record {
  service = new_service local_agent;
  files = [];
  operations = 0;
  readings = 0;
  reports = [];
}

apply-Ended_example :
    Ends
      (λ _ s fs rs.
        (config : Fields) × IsSaved machine begun.service begun.reports pending config s fs rs)
      (Ended machine begun.service begun.reports pending)
      (apply_config_revision_with_context machine constant pending begun)
unfolding new_service is_blank
apply-Ended_example = apply-Ended machine constant pending begun separates refl

poll-Says_example :
    Ends
      (λ b s fs rs.
        (b ≡ true) × SaysApplied machine begun.service begun.reports pending IsTaken s fs rs)
      (λ s fs rs.
        SaysApplied machine begun.service begun.reports pending IsRefused s fs rs
        ⊎ SaysFailed machine begun.service begun.reports pending s fs rs)
      (poll_pending_config_revision machine constant true 5 begun)
unfolding new_service is_blank
poll-Says_example = poll-Says machine constant 5 pending begun separates refl refl refl refl

abbrev apply_event : RuntimeEvent
apply_event = record {
  type = "apply_success";
  status = "applied";
  revision_number = pos 1;
  message = "";
  runtime_mode = "future-process-managed";
  runtime_process_mode = "local";
  runtime_process_state = "ready";
  at = 0;
}

-- the status of an earlier run
abbrev earlier : Status
earlier = record begun.service.status {
  active_revision = pos 1;
  last_applied_revision = pos 1;
  staged_revision = pos 1;
  last_runtime_prepared = pos 1;
  runtime_state = "active_config_ready";
  last_validation_status = "applied";
  config_artifact_path = "/state/active/config.json";
  metadata_artifact_path = "/state/active/metadata.json";
  runtime_events = apply_event ∷ [];
}

earlier-IsStorable : IsStorable machine earlier
unfolding new_service trim_space is_blank
earlier-IsStorable = record {
  positive = refl;
  active = omega arith;
  applied = omega arith;
  staged = omega arith;
  rollback = omega arith;
  candidate = omega arith;
  prepared = omega arith;
  state = (refl, refl);
  process_state = (refl, refl);
  desired = (refl, refl);
  dry_run = (refl, refl);
  attempt = (refl, refl);
  error = refl;
  transition_at = (refl, refl);
  validation = refl;
  validation_error = refl;
  validation_at = (refl, refl);
  config_path = (refl, refl);
  metadata_path = (refl, refl);
  events = (
    record {
      type = refl;
      named = refl;
      status = refl;
      revision_number = omega arith;
      message = refl;
      runtime_mode = refl;
      runtime_process_mode = refl;
      runtime_process_state = refl;
      at = (refl, refl);
    },
    tt,
  );
  few_events = omega arith;
}

abbrev rebooted : World
rebooted = record begun {
  files =
      ("/state/active/config.json", document end)
      ∷ ("/state/active/metadata.json", document end)
      ∷ ("/state/state.json", document (assign_all machine (persisted machine earlier) end))
      ∷ [];
}

start-Agrees_example :
    Agrees earlier (start machine local_agent rebooted).service.status
    × ((e : RuntimeEvent) × (e.type ≡ "runtime_state_restore")
        × (e.revision_number ≡ pos 1)
        × ((start machine local_agent rebooted).service.status.runtime_events
            ≡ limited (earlier.runtime_events ++ e ∷ [])))
unfolding trim_space
start-Agrees_example =
    start-Agrees machine local_agent earlier end end end rebooted (λ n. refl) earlier-IsStorable
      refl refl refl refl
