-- ===== src/Agent/Polling.antt =====
-- Fetching revisions and reporting on them: services/node-agent/internal/agent/service.go,
-- FetchAndApplyPendingConfigRevision and PollPendingConfigRevision.
pub mod Reported
use lenker_panel.Base.{
  String, Bool, true, false, not, Option, none, some, ◌∷◌, ok, err, pos, Time, is_zero, Result,
  guard, is_empty, if◌then◌else◌,
}
use lenker_panel.Crypto.{Crypto}
use lenker_panel.Agent.Model.{
  Status, ConfigRevision, AgentError, node_id_required, node_token_required,
  unexpected_panel_response, xray_dry_run_failed,
}
use lenker_panel.Agent.Runtime.{dry_run_status_for_validator}
use lenker_panel.Agent.Service.{
  apply_config_revision_metadata, track_validation_result, track_runtime_failure,
}
use lenker_panel.Agent.Machine.{
  ConfigRevisionReport, Host, World, Action, pure, raise, returned, gets, ◌>>=◌, ◌>>◌, modify,
  with_status, time_now,
}
use lenker_panel.Agent.Applying.{config_revision_error_message, apply_config_revision_with_context}
use lenker_panel.Agent.Staging.{is_set}

unfoldable pub dry_run_status_for_error : AgentError → (has_validator : Bool) → String
unfolding dry_run_status_for_validator
dry_run_status_for_error (xray_dry_run_failed r) has_validator = "failed"
dry_run_status_for_error _ has_validator = dry_run_status_for_validator has_validator

unfoldable pub failed_report : Status → String → Time → ConfigRevisionReport
failed_report s message at = record {
  status = "failed";
  applied_at = 0;
  failed_at = at;
  error_message = message;
  active_revision = pos 0;
  runtime_mode = s.runtime_mode;
  runtime_process_mode = s.runtime_process_mode;
  runtime_process_state = s.runtime_process_state;
  runtime_desired_state = s.runtime_desired_state;
  runtime_state = s.runtime_state;
  last_dry_run_status = s.last_dry_run_status;
  last_runtime_attempt = s.last_runtime_attempt_status;
  last_runtime_prepared = s.last_runtime_prepared;
  last_runtime_at = s.last_runtime_transition_at;
  last_runtime_error = s.last_runtime_error;
  last_validation_status = "failed";
  last_validation_error = message;
  last_validation_at = at;
  last_applied_revision = s.last_applied_revision;
  active_config_path = s.config_artifact_path;
  runtime_events = s.runtime_events;
  sent_at = at;
}

unfoldable pub applied_report : Status → ConfigRevision → Time → ConfigRevisionReport
applied_report s revision at = record {
  status = "applied";
  applied_at = at;
  failed_at = 0;
  error_message = "";
  active_revision = revision.revision_number;
  runtime_mode = s.runtime_mode;
  runtime_process_mode = s.runtime_process_mode;
  runtime_process_state = s.runtime_process_state;
  runtime_desired_state = s.runtime_desired_state;
  runtime_state = s.runtime_state;
  last_dry_run_status = s.last_dry_run_status;
  last_runtime_attempt = s.last_runtime_attempt_status;
  last_runtime_prepared = s.last_runtime_prepared;
  last_runtime_at = s.last_runtime_transition_at;
  last_runtime_error = s.last_runtime_error;
  last_validation_status = "applied";
  last_validation_error = "";
  last_validation_at = at;
  last_applied_revision = s.last_applied_revision;
  active_config_path = s.config_artifact_path;
  runtime_events = s.runtime_events;
  sent_at = at;
}

abbrev pub answer : Option AgentError → Result AgentError (Unit {0})
answer none = ok tt
answer (some e) = err e

module _ (host : Host) where
  -- what both ways to fetch do first: the revision that is pending, if there is one
  unfoldable pub fetch : (has_client : Bool) → Action (Option ConfigRevision)
  fetch has_client = do
    returned (guard has_client unexpected_panel_response)
    identity ← gets (λ w. w.service.identity)
    returned (guard (not (is_empty identity.node_id)) node_id_required)
    returned (guard (not (is_empty identity.node_token)) node_token_required)
    returned host.pending

  -- client.ReportConfigRevision: the report has been sent, whatever the answer
  unfoldable pub report : ConfigRevision → (Status → ConfigRevisionReport) → Action (Unit {0})
  report revision make w =
      let sent = make w.service.status in
      (answer (host.reported sent), record w { reports = (revision.id, sent) ∷ w.reports })

  -- what a failure of applying does to the status
  unfoldable pub track_failure : Time → AgentError → World → World
  track_failure at e =
      let message = config_revision_error_message e in
      with_status (λ s.
        track_runtime_failure at message at (dry_run_status_for_error e (is_set host.xray))
          (track_validation_result at "failed" message at s))

  unfoldable pub report_time : Time → Action Time
  report_time now = if is_zero now then time_now host else pure now

  -- PollPendingConfigRevision from the outcome of applying on
  unfoldable pub settle : ConfigRevision → Time → Result AgentError (Unit {0}) → Action Bool
  settle revision at (err e) = do
    modify (track_failure at e)
    report revision (λ s. failed_report s (config_revision_error_message e) at)
    raise e
  settle revision at (ok _) = do
    modify (with_status (track_validation_result at "applied" "" at))
    report revision (λ s. applied_report s revision at)
    pure true

  module _ (c : Crypto) where
    -- whether a revision was stored
    unfoldable pub fetch_and_apply_pending_config_revision : (has_client : Bool) → Action Bool
    fetch_and_apply_pending_config_revision has_client = fetch has_client >>= stored
      where
        stored : Option ConfigRevision → Action Bool
        stored none w = (ok false, w)
        stored (some revision) w = elim (apply_config_revision_metadata c revision w.service) [
          | ok s ↦ (ok true, record w { service = s })
          | err e ↦ (err e, w)
        ]

    unfoldable pub attempt : ConfigRevision → Action (Result AgentError (Unit {0}))
    unfolding apply_config_revision_with_context
    attempt revision w =
        let (r, w') = apply_config_revision_with_context host c revision w in (ok r, w')

    -- after a revision has been fetched
    unfoldable pub apply_and_report : Time → ConfigRevision → Action Bool
    apply_and_report now revision = do
      at ← report_time now
      outcome ← attempt revision
      settle revision at outcome

    -- whether a revision was applied
    unfoldable pub poll_pending_config_revision : (has_client : Bool) (now : Time) → Action Bool
    poll_pending_config_revision has_client now = fetch has_client >>= polled
      where
        polled : Option ConfigRevision → Action Bool
        polled none = pure false
        polled (some revision) = apply_and_report now revision
