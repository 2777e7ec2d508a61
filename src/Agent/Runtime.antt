-- ===== src/Agent/Runtime.antt =====
-- The runtime modes and the preparing supervisor: services/node-agent/internal/agent/runtime.go. The
-- context of a request is whether it has been cancelled; what the process runner answers is an argument.
use lenker_panel.Base.{
  String, Bool, not, Option, none, some, Result, ok, err, Time, is_zero, str_eq, is_empty, is_blank,
  trim_space, if◌then◌else◌,
}
use lenker_panel.Agent.Model.{AgentError}

unfoldable pub normalize_runtime_process_mode : String → String
normalize_runtime_process_mode value =
    if str_eq (trim_space value) "local" then "local" else "disabled"

unfoldable pub runtime_mode_for_identity : (xray_bin process_mode : String) → String
unfolding normalize_runtime_process_mode is_blank
runtime_mode_for_identity xray_bin process_mode =
    if str_eq (normalize_runtime_process_mode process_mode) "local"
    then "future-process-managed"
    else if not (is_blank xray_bin)
    then "dry-run-only"
    else "no-process"

unfoldable pub dry_run_status_for_validator : (has_validator : Bool) → String
dry_run_status_for_validator has_validator = if has_validator then "passed" else "not_configured"

pub record RuntimeTransition : Type 0 where
  pub process_mode : String
  pub process_state : String
  pub state : String
  pub attempt : String
  pub error_message : String
  pub at : Time

pub record RuntimeProcessResult : Type 0 where
  pub process_state : String
  pub attempt : String
  pub error_message : String
  pub at : Time

abbrev pub or_text : String → String → String
or_text s d = if is_empty s then d else s

abbrev pub or_time : Time → Time → Time
or_time t d = if is_zero t then d else t

-- LocalProcessRunnerSkeleton.PrepareStart
unfoldable pub local_prepare_start :
    (cancelled : Option AgentError) (now at : Time) → Result AgentError RuntimeProcessResult
local_prepare_start (some e) now at = err e
local_prepare_start none now at =
    ok (record {
      process_state = "ready";
      attempt = "ready";
      error_message = "";
      at = or_time at now;
    })

-- the transition of a process that could not be prepared; the error is returned beside it
unfoldable pub failed_transition : (reason : String) → Time → RuntimeTransition
failed_transition reason at = record {
  process_mode = "local";
  process_state = "failed";
  state = "prepare_failed";
  attempt = "failed";
  error_message = trim_space reason;
  at = at;
}

unfoldable pub ready_transition : RuntimeProcessResult → Time → RuntimeTransition
ready_transition result at = record {
  process_mode = "local";
  process_state = or_text result.process_state "ready";
  state = "active_config_ready";
  attempt = or_text result.attempt "ready";
  error_message = trim_space result.error_message;
  at = or_time result.at at;
}

-- PrepareActiveConfig of NoProcessRuntimeSupervisor: the transition, and the error if there is one.
-- `started` is the answer of the runner, with the text of its error.
unfoldable pub prepare_active_config :
    (cancelled : Option AgentError) (now : Time) (own_process_mode requested_process_mode : String)
    (at : Time) (started : Result (AgentError × String) RuntimeProcessResult)
    → RuntimeTransition × Option AgentError
unfolding normalize_runtime_process_mode failed_transition ready_transition
prepare_active_config (some e) now own requested at started = (
  record {
    process_mode = "";
    process_state = "";
    state = "";
    attempt = "";
    error_message = "";
    at = 0;
  },
  some e,
)
prepare_active_config none now own requested at started =
    let mode =
      if is_empty requested
      then normalize_runtime_process_mode own
      else normalize_runtime_process_mode requested in
    if str_eq mode "local" then local started else (
      record {
        process_mode = "disabled";
        process_state = "disabled";
        state = "active_config_ready";
        attempt = "skipped";
        error_message = "";
        at = or_time at now;
      },
      none,
    )
  where
    local :
        Result (AgentError × String) RuntimeProcessResult → RuntimeTransition × Option AgentError
    local (err (e, reason)) = (failed_transition reason (or_time at now), some e)
    local (ok result) = (ready_transition result (or_time at now), none)
