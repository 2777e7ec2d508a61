-- ===== src/Tests/Service.antt =====
-- The theorem on the trail of runtime events, at a concrete service.
use lenker_panel.Base.{◌≡◌, [], ◌∷◌, ◌++◌, pos, arith}
use lenker_panel.Agent.Model.{Identity, RuntimeEvent}
use lenker_panel.Agent.Service.{new_service}
use lenker_panel.Agent.Service.Trail.{take_last, append_all, all_completed, trail-last}

abbrev fresh : Identity
fresh = record {
  node_id = "node-1";
  bootstrap_token = "";
  node_token = "token";
  panel_url = "";
  state_dir = "/state";
  xray_bin = "xray";
  process_mode = "local";
}

abbrev applied : RuntimeEvent
applied = record {
  type = "apply_success";
  status = "success";
  revision_number = pos 1;
  message = " done ";
  runtime_mode = "";
  runtime_process_mode = "";
  runtime_process_state = "";
  at = 0;
}

trail-last_example :
    (append_all ((7, applied) ∷ (9, applied) ∷ []) (new_service fresh).status).runtime_events
    ≡ take_last 20 (
        (new_service fresh).status.runtime_events
        ++ all_completed (new_service fresh).status ((7, applied) ∷ (9, applied) ∷ []))
unfolding new_service
trail-last_example =
    trail-last ((7, applied) ∷ (9, applied) ∷ []) (new_service fresh).status (omega arith)
