-- ===== src/Agent/Restoring.antt =====
-- RestoreRuntimeState of services/node-agent/internal/agent/service.go: what a service reads from its
-- files when it starts. A text of a state.json that is null is not modelled.
pub mod Decoded
pub mod Events
pub mod Restart
use lenker_panel.Base.{
  ◌+◌, String, Bool, true, false, Option, none, some, List, [], ◌∷◌, ◌++◌, ok, err, Result, ℤ, pos,
  is_pos, Time, is_empty, is_blank, trim_space, if◌then◌else◌,
}
use lenker_panel.Json.{Value, Fields, get, as_object, as_array, as_text, number_as_int}
use lenker_panel.Agent.Model.{Identity, Status, RuntimeEvent, AgentError}
use lenker_panel.Agent.Runtime.{
  dry_run_status_for_validator, normalize_runtime_process_mode, runtime_mode_for_identity, or_text,
}
use lenker_panel.Agent.Service.{limited, new_service}
use lenker_panel.Agent.Machine.{
  blank, empty, is_json, unmarshal, Host, World, Action, pure, modify, ◌>>=◌, ◌>>◌, with_status,
  Read, contents, not_exist, unreadable, read_file, append_event,
}
use lenker_panel.Agent.Staging.{
  is_set, or_empty, or_zero, active_config, active_metadata, state_file,
}
use lenker_panel.Agent.Applying.{event}

abbrev or_int : Option ℤ → ℤ → ℤ
or_int none d = d
or_int (some n) d = n

unfoldable pub int_from_state : Fields → String → ℤ → ℤ
int_from_state state key fallback = or_int (number_as_int (get key state)) fallback

unfoldable pub string_from_state : Fields → String → String
string_from_state state key = trim_space (or_empty (as_text (get key state)))

unfoldable pub string_from_state_default : Fields → String → String → String
unfolding string_from_state
string_from_state_default state key fallback = or_text (string_from_state state key) fallback

-- `activeRevision`, if it is positive
abbrev pub active_revision_of : Fields → ℤ
active_revision_of state =
    or_int (number_as_int (get "active_revision" state))
      (or_zero (number_as_int (get "revision_number" state)))

-- the result of a boolean function that reads files
abbrev pub after_true : (Bool → World → World) → Result AgentError Bool × World → World
after_true f (ok b, w) = f b w
after_true f (err e, w) = w

abbrev pub when_true : Action Bool → (Bool → World → World) → World → World
when_true m f w = after_true f (m w)

module _ (host : Host) where
  abbrev parsed : Option Time → Time
  parsed none = 0
  parsed (some t) = t

  unfoldable pub time_from_state : Fields → String → Time
  time_from_state state key =
      let s = or_empty (as_text (get key state)) in
      if is_blank s then 0 else parsed (host.parse_time s)

  unfoldable pub event_from_state : Fields → RuntimeEvent
  unfolding string_from_state int_from_state time_from_state
  event_from_state m = record {
    type = string_from_state m "type";
    status = string_from_state m "status";
    revision_number = int_from_state m "revision_number" (pos 0);
    message = string_from_state m "message";
    runtime_mode = string_from_state m "runtime_mode";
    runtime_process_mode = string_from_state m "runtime_process_mode";
    runtime_process_state = string_from_state m "runtime_process_state";
    at = time_from_state m "at";
  }

  abbrev pub with_event : Option Fields → List RuntimeEvent → List RuntimeEvent
  with_event none events = events
  with_event (some m) events =
      if is_empty (event_from_state m).type then events else event_from_state m ∷ events

  abbrev pub collected : List Value → List RuntimeEvent
  collected [] = []
  collected (v ∷ vs) = with_event (as_object v) (collected vs)

  abbrev pub elements : Option (List Value) → List Value
  elements none = []
  elements (some vs) = vs

  unfoldable pub runtime_events_from_state : Value → List RuntimeEvent
  unfolding event_from_state limited
  runtime_events_from_state value = limited (collected (elements (as_array value)))

  -- the assignments of applyRuntimeStateMap
  unfoldable pub restored_status : Fields → (config_path metadata_path : String) → Status → Status
  unfolding int_from_state string_from_state_default string_from_state time_from_state
      runtime_events_from_state normalize_runtime_process_mode
  restored_status state config_path metadata_path s =
      let active = active_revision_of state in
      let rollback_target = int_from_state state "rollback_target_revision" (pos 0) in
      record s {
        active_revision = active;
        last_applied_revision = int_from_state state "last_applied_revision" active;
        staged_revision = int_from_state state "staged_revision" active;
        last_rollback_revision = int_from_state state "last_rollback_revision" rollback_target;
        rollback_candidate_revision =
            int_from_state state "rollback_candidate_revision" rollback_target;
        last_runtime_prepared = int_from_state state "last_runtime_prepared_revision" active;
        runtime_state = string_from_state_default state "runtime_state" "active_config_ready";
        runtime_mode = string_from_state_default state "runtime_mode" s.runtime_mode;
        runtime_process_mode =
            normalize_runtime_process_mode
              (string_from_state_default state "runtime_process_mode" s.runtime_process_mode);
        runtime_process_state =
            string_from_state_default state "runtime_process_state" s.runtime_process_state;
        runtime_desired_state =
            string_from_state_default state "runtime_desired_state" "validated-config-ready";
        last_dry_run_status =
            string_from_state_default state "last_dry_run_status" s.last_dry_run_status;
        last_runtime_attempt_status =
            string_from_state_default state "last_runtime_attempt_status" "skipped";
        last_runtime_error = string_from_state state "last_runtime_error";
        last_runtime_transition_at = time_from_state state "last_runtime_transition_at";
        last_validation_status = string_from_state state "last_validation_status";
        last_validation_error = string_from_state state "last_validation_error";
        last_validation_at = time_from_state state "last_validation_at";
        config_artifact_path = config_path;
        metadata_artifact_path = metadata_path;
        runtime_events = runtime_events_from_state (get "runtime_events" state);
      }

  unfoldable pub valid_json_file : String → Action Bool
  valid_json_file path = do
    read ← read_file host path
    pure (elim read [ contents body ↦ is_json body | not_exist ↦ false | unreadable ↦ false ])

  unfoldable pub config_path_of : Fields → String → String
  unfolding string_from_state
  config_path_of state dir =
      or_text (string_from_state state "config_artifact_path")
        (or_text (string_from_state state "active_config_path") (active_config host dir))

  unfoldable pub metadata_path_of : Fields → String → String
  unfolding string_from_state
  metadata_path_of state dir =
      or_text (string_from_state state "metadata_artifact_path") (active_metadata host dir)

  -- `!validJSONFile(configPath) || !validJSONFile(metadataPath)`, then the assignments
  unfoldable pub apply_valid : Fields → (config_path metadata_path : String) → Action Bool
  apply_valid state config_path metadata_path = do
    config_valid ← valid_json_file config_path
    metadata_valid ← if config_valid then valid_json_file metadata_path else pure false
    modify (λ w.
        if metadata_valid
        then with_status (restored_status state config_path metadata_path) w
        else w)
    pure metadata_valid

  unfoldable pub apply_runtime_state_map : Fields → String → Action Bool
  apply_runtime_state_map state dir =
      if is_pos (active_revision_of state)
      then apply_valid state (config_path_of state dir) (metadata_path_of state dir)
      else pure false

  unfoldable pub mark_runtime_restore_degraded : (message : String) → World → World
  mark_runtime_restore_degraded message w =
      let marked =
        with_status
          (λ s. record s {
            runtime_state = "prepare_failed";
            last_runtime_attempt_status = "failed";
            last_runtime_error = message;
            last_runtime_transition_at = host.clock w.readings;
          })
          (record w { readings = w.readings + 1 }) in
      append_event host (event "runtime_state_restore_degraded" "degraded" (pos 0) message 0) marked

  unfoldable pub record_restore : (message : String) → World → World
  record_restore message w =
      append_event host
        (event "runtime_state_restore" "restored" w.service.status.active_revision message 0) w

  -- the events before the restored ones
  abbrev pub with_existing : List RuntimeEvent → List RuntimeEvent → List RuntimeEvent
  with_existing [] events = events
  with_existing (e ∷ es) events = limited ((e ∷ es) ++ events)

  unfoldable pub completed_from_metadata : List RuntimeEvent → Status → Status
  unfolding limited dry_run_status_for_validator
  completed_from_metadata existing s = record s {
    runtime_events = with_existing existing s.runtime_events;
    runtime_state = "active_config_ready";
    last_runtime_attempt_status = or_text s.last_runtime_attempt_status "skipped";
    last_dry_run_status =
        or_text s.last_dry_run_status (dry_run_status_for_validator (is_set host.xray));
    last_validation_status = or_text s.last_validation_status "restored";
  }

  unfoldable pub finish_from_metadata : List RuntimeEvent → Bool → World → World
  finish_from_metadata existing false w =
      mark_runtime_restore_degraded "runtime_state_restore_failed:active_metadata_incomplete" w
  finish_from_metadata existing true w =
      record_restore "runtime state restored from active metadata"
        (with_status (completed_from_metadata existing) w)

  unfoldable pub from_active_metadata : String → Read → World → World
  from_active_metadata dir not_exist w = w
  from_active_metadata dir unreadable w =
      mark_runtime_restore_degraded "runtime_state_restore_failed:active_metadata_unreadable" w
  from_active_metadata dir (contents body) w = elim (unmarshal body) [
    | none ↦
        mark_runtime_restore_degraded "runtime_state_restore_failed:active_metadata_malformed" w
    | some m ↦
        when_true (apply_runtime_state_map m dir)
          (finish_from_metadata w.service.status.runtime_events) w
  ]

  unfoldable pub restore_runtime_state_from_active_metadata : String → World → World
  restore_runtime_state_from_active_metadata dir w =
      let (r, w') = read_file host (active_metadata host dir) w in
      elim r [ ok read ↦ from_active_metadata dir read w' | err e ↦ w' ]

  unfoldable pub finish_from_state : String → Bool → World → World
  finish_from_state dir true w = record_restore "runtime state restored from state.json" w
  finish_from_state dir false w =
      restore_runtime_state_from_active_metadata dir
        (mark_runtime_restore_degraded "runtime_state_restore_failed:incomplete_state" w)

  unfoldable pub from_state : String → Read → World → World
  from_state dir not_exist w = restore_runtime_state_from_active_metadata dir w
  from_state dir unreadable w =
      restore_runtime_state_from_active_metadata dir
        (mark_runtime_restore_degraded "runtime_state_restore_failed:state_unreadable" w)
  from_state dir (contents empty) w = restore_runtime_state_from_active_metadata dir w
  from_state dir (contents blank) w = restore_runtime_state_from_active_metadata dir w
  from_state dir (contents body) w = elim (unmarshal body) [
    | none ↦
        restore_runtime_state_from_active_metadata dir
          (mark_runtime_restore_degraded "runtime_state_restore_failed:malformed_state" w)
    | some m ↦ when_true (apply_runtime_state_map m dir) (finish_from_state dir) w
  ]

  unfoldable pub restore_runtime_state : World → World
  restore_runtime_state w =
      let dir = trim_space w.service.identity.state_dir in
      if is_empty dir
      then w
      else let (r, w') = read_file host (state_file host dir) w in
        elim r [ ok read ↦ from_state dir read w' | err e ↦ w' ]

  -- NewService, on these files and with no options
  unfoldable pub start : Identity → World → World
  start identity w =
      let process_mode = normalize_runtime_process_mode identity.process_mode in
      with_status
        (λ s. record s {
          runtime_process_mode = process_mode;
          runtime_mode = runtime_mode_for_identity identity.xray_bin process_mode;
        })
        (restore_runtime_state (record w { service = new_service identity }))
