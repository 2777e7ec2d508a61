-- ===== src/Agent/Applying.antt =====
-- ApplyConfigRevisionWithContext of services/node-agent/internal/agent/service.go, with its messages.
pub mod Staged
pub mod Activated
pub mod Ended
use lenker_panel.Base.{
  String, Option, none, some, ok, err, ℤ, Time, is_zero, str_eq, is_empty, append, if◌then◌else◌,
}
use lenker_panel.Crypto.{Crypto}
use lenker_panel.Json.Gate.{reason}
use lenker_panel.Agent.Model.{
  RuntimeEvent, ConfigRevision, AgentError, invalid_config_revision, invalid_config_bundle_hash,
  invalid_config_signature, invalid_config_payload, state_dir_required, config_artifact_write,
  invalid_xray_config, xray_dry_run_failed,
}
use lenker_panel.Agent.Runtime.{
  RuntimeTransition, prepare_active_config, dry_run_status_for_validator,
}
use lenker_panel.Agent.Service.{
  validate_and_store_config_revision, track_applied_revision, track_runtime_prepared,
  track_validation_result,
}
use lenker_panel.Agent.Machine.{
  Host, World, Action, gets, on_error, ◌>>=◌, ◌>>◌, modify, with_status, counted, time_now,
  append_event,
}
use lenker_panel.Agent.Staging.{ConfigArtifact, is_set, serialize_config_revision}
use lenker_panel.Agent.Persisting.{persist_runtime_state, validate_xray_dry_run}

-- the reason, if there is one
abbrev after_colon : String → String
after_colon r = if is_empty r then "" else append ":" r

unfoldable pub config_revision_error_message : AgentError → String
config_revision_error_message invalid_config_bundle_hash = "invalid config bundle hash"
config_revision_error_message invalid_config_signature = "invalid config bundle signature"
config_revision_error_message (invalid_xray_config e) =
    append "invalid_xray_config" (after_colon (reason e))
config_revision_error_message (xray_dry_run_failed r) = append "xray_dry_run_failed" (after_colon r)
config_revision_error_message invalid_config_payload = "invalid config payload"
config_revision_error_message invalid_config_revision = "invalid config revision"
config_revision_error_message state_dir_required = "state dir is required"
config_revision_error_message config_artifact_write = "config artifact write failed"
config_revision_error_message _ = "config revision apply failed"

-- an event of ApplyConfigRevisionWithContext
abbrev pub event : (type status : String) → ℤ → (message : String) → Time → RuntimeEvent
event type status number message at = record {
  type = type;
  status = status;
  revision_number = number;
  message = message;
  runtime_mode = "";
  runtime_process_mode = "";
  runtime_process_state = "";
  at = at;
}

module _ (host : Host) where
  -- the event for an error, which is then returned
  unfoldable pub record_failure : (type : String) → ConfigRevision → AgentError → World → World
  record_failure type revision e =
      append_event host
        (event type "failed" revision.revision_number (config_revision_error_message e) 0)

  -- the event of a transition that has failed
  unfoldable pub after_prepare :
      ConfigRevision → RuntimeTransition × Option AgentError → Action RuntimeTransition
  after_prepare revision (transition, none) w = (ok transition, w)
  after_prepare revision (transition, some e) w =
      let failure =
        event "apply_failure" "failed" revision.revision_number (config_revision_error_message e)
          0 in
      (
        err e,
        append_event host
            (record failure {
              runtime_process_mode = transition.process_mode;
              runtime_process_state = transition.process_state;
            })
            w,
      )

  -- PrepareActiveConfig of the service's supervisor
  unfoldable pub prepare : ConfigRevision → Action RuntimeTransition
  prepare revision = do
    at ← time_now host
    mode ← gets (λ w. w.service.status.runtime_process_mode)
    after_prepare revision
        (prepare_active_config host.cancelled at host.process_mode mode at host.started)

  -- the events of a revision that has been applied
  unfoldable pub record_success : ConfigRevision → RuntimeTransition → World → World
  record_success revision transition w =
      let intent =
        event "process_prepare_start_intent" "ready" revision.revision_number
          "local process prepare/start intent recorded" transition.at in
      append_event host (event "apply_success" "applied" revision.revision_number "" transition.at)
        (if str_eq w.service.status.runtime_process_mode "local"
          then append_event host intent w
          else w)

  unfoldable pub track_prepared :
      ConfigRevision
      → ConfigArtifact
      → (dry_run_status : String) → RuntimeTransition
      → World
      → World
  track_prepared revision artifact dry_run_status transition w =
      with_status
        (λ s.
          track_runtime_prepared (host.clock w.readings) revision artifact.config_path
            artifact.metadata_path dry_run_status transition (track_applied_revision revision s))
        (counted (is_zero transition.at) w)

  module _ (c : Crypto) where
    unfoldable pub store_revision : ConfigRevision → Action (Unit {0})
    unfolding validate_and_store_config_revision
    store_revision revision w = elim (validate_and_store_config_revision c revision w.service) [
      | ok s ↦ (ok tt, record w { service = s })
      | err e ↦ (err e, w)
    ]

    unfoldable pub apply_config_revision_with_context : ConfigRevision → Action (Unit {0})
    apply_config_revision_with_context revision = do
      on_error (store_revision revision) (record_failure "validation_failure" revision)
      on_error (validate_xray_dry_run host revision) (record_failure "dry_run_failure" revision)
      artifact ←
          on_error (serialize_config_revision host revision)
            (record_failure "apply_failure" revision)
      transition ← prepare revision
      modify (
          track_prepared revision artifact (dry_run_status_for_validator (is_set host.xray))
            transition)
      modify (record_success revision transition)
      at ← time_now host
      modify (with_status (track_validation_result at "applied" "" at))
      on_error (persist_runtime_state host artifact) (record_failure "apply_failure" revision)
