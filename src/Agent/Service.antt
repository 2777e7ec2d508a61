-- ===== src/Agent/Service.antt =====
-- The agent's state and the operations on it: services/node-agent/internal/agent/service.go, up to
-- ApplyConfigRevisionMetadata. The map of revisions is a list of them, one for each number. `now` is
-- what time.Now answers. The supervisor and the validator of a service are left out here.
pub mod Trail
use lenker_panel.Base.{
  ℕ, zero, suc, ◌-◌, String, Bool, true, false, not, List, [], ◌∷◌, ◌++◌, length, drop, ltb, Option,
  some, none, Result, ok, err, ◌>>=◌, ◌>>◌, Time, ℤ, pos, int_eq, is_zero, str_eq, is_empty,
  is_blank, trim_space, if◌then◌else◌,
}
use lenker_panel.Crypto.{Crypto}
use lenker_panel.Agent.Model.{
  Identity, Status, RuntimeEvent, ConfigRevision, AgentError, bootstrap_token_required,
}
use lenker_panel.Agent.Runtime.{
  RuntimeTransition, normalize_runtime_process_mode, runtime_mode_for_identity, or_text, or_time,
}
use lenker_panel.Agent.Verify.{validate_config_revision}

pub record Service : Type 0 where
  pub identity : Identity
  pub status : Status
  pub config_revisions : List ConfigRevision

-- NewService before its options and before the stored state is read
unfoldable pub new_service : Identity → Service
new_service identity =
    let registered = not (is_empty identity.node_id) in
    let process_mode = normalize_runtime_process_mode identity.process_mode in
    record {
      identity = identity;
      status = record {
        node_id = identity.node_id;
        status = if registered then "active" else "bootstrapping";
        registered = registered;
        panel_url = identity.panel_url;
        last_heartbeat_at = 0;
        xray_dry_run_enabled = not (is_blank identity.xray_bin);
        runtime_mode = runtime_mode_for_identity identity.xray_bin process_mode;
        runtime_process_mode = process_mode;
        runtime_process_state = "disabled";
        runtime_desired_state = "validated-config-ready";
        runtime_state = "not_prepared";
        last_dry_run_status = "not_configured";
        last_runtime_attempt_status = "skipped";
        last_runtime_prepared = pos 0;
        last_runtime_transition_at = 0;
        last_runtime_error = "";
        active_revision = pos 0;
        last_applied_revision = pos 0;
        last_rollback_revision = pos 0;
        staged_revision = pos 0;
        rollback_candidate_revision = pos 0;
        last_validation_status = "";
        last_validation_error = "";
        last_validation_at = 0;
        config_artifact_path = "";
        metadata_artifact_path = "";
        runtime_events = [];
      };
      config_revisions = [];
    }

unfoldable pub mark_heartbeat_sent : Time → Status → Status
mark_heartbeat_sent at s = record s {
  last_heartbeat_at = at;
  status = if str_eq s.status "pending" then "active" else s.status;
}

unfoldable pub track_applied_revision : ConfigRevision → Status → Status
track_applied_revision revision s = record s {
  active_revision = revision.revision_number;
  last_applied_revision = revision.revision_number;
}

unfoldable pub track_validation_result :
    (now : Time) (validation_status message : String) → Time → Status → Status
track_validation_result now validation_status message at s = record s {
  last_validation_status = validation_status;
  last_validation_error = trim_space message;
  last_validation_at = or_time at now;
}

unfoldable pub track_runtime_prepared :
    (now : Time)
    → ConfigRevision
    → (config_path metadata_path dry_run_status : String) → RuntimeTransition
    → Status
    → Status
track_runtime_prepared now revision config_path metadata_path dry_run_status transition s =
    record s {
      runtime_state = or_text transition.state "active_config_ready";
      runtime_process_mode =
          normalize_runtime_process_mode
            (or_text (or_text transition.process_mode s.runtime_process_mode) "disabled");
      runtime_process_state = or_text transition.process_state "disabled";
      last_dry_run_status = dry_run_status;
      last_runtime_attempt_status = or_text transition.attempt "skipped";
      last_runtime_prepared = revision.revision_number;
      last_runtime_transition_at = or_time transition.at now;
      last_runtime_error = trim_space transition.error_message;
      config_artifact_path = config_path;
      metadata_artifact_path = metadata_path;
    }

unfoldable pub track_runtime_failure :
    (now : Time) (message : String) → Time → (dry_run_status : String) → Status → Status
track_runtime_failure now message at dry_run_status s =
    let mode = or_text s.runtime_process_mode "disabled" in
    record s {
      runtime_state = "validation_failed";
      runtime_process_mode = mode;
      runtime_process_state = if str_eq mode "local" then "failed" else "disabled";
      last_dry_run_status = or_text (or_text dry_run_status s.last_dry_run_status) "not_configured";
      last_runtime_attempt_status = "failed";
      last_runtime_transition_at = or_time at now;
      last_runtime_error = trim_space message;
    }

-- an event with what AppendRuntimeEvent fills in
unfoldable pub completed : Status → Time → RuntimeEvent → RuntimeEvent
completed s now event = record event {
  at = or_time event.at now;
  message = trim_space event.message;
  runtime_mode = or_text event.runtime_mode s.runtime_mode;
  runtime_process_mode = or_text event.runtime_process_mode s.runtime_process_mode;
  runtime_process_state = or_text event.runtime_process_state s.runtime_process_state;
}

-- `if len(s.status.RuntimeEvents) > runtimeEventTrailLimit …`
unfoldable pub limited : List RuntimeEvent → List RuntimeEvent
limited events = if ltb 20 (length events) then drop (length events - 20) events else events

unfoldable pub append_runtime_event : (now : Time) → RuntimeEvent → Status → Status
append_runtime_event now event s = record s {
  runtime_events = limited (s.runtime_events ++ completed s now event ∷ []);
}

-- `s.configRevisions[revision.RevisionNumber] = revision`
unfoldable pub put_revision : ConfigRevision → List ConfigRevision → List ConfigRevision
put_revision revision [] = revision ∷ []
put_revision revision (r ∷ rs) =
    let rest = put_revision revision rs in
    if int_eq r.revision_number revision.revision_number then revision ∷ rs else r ∷ rest

module _ (c : Crypto) where
  unfoldable pub validate_and_store_config_revision :
      ConfigRevision → Service → Result AgentError Service
  validate_and_store_config_revision revision s = do
    validate_config_revision c s.identity.node_id revision
    ok (record s {
      config_revisions = put_revision revision s.config_revisions;
      status = record s.status { last_rollback_revision = revision.rollback_target_revision };
    })

  unfoldable pub apply_config_revision_metadata :
      ConfigRevision → Service → Result AgentError Service
  apply_config_revision_metadata revision s = do
    stored ← validate_and_store_config_revision revision s
    ok (record stored { status = track_applied_revision revision stored.status })
