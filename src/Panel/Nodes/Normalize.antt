-- ===== src/Panel/Nodes/Normalize.antt =====
-- The normalize… functions of services/panel-api/internal/storage/nodes.go, isValidNodeStatus and
-- the reading of a row by scanNode.
use lenker_panel.Base.{
  ℕ, String, Bool, Option, none, some, List, [], ◌∷◌, pos, is_neg, map, length, drop, ◌-◌, ltb,
  Time, is_zero, str_eq, is_empty, trim_space, byte_length, cut, if◌then◌else◌,
}
use lenker_panel.Json.Gate.{contains}
use lenker_panel.Panel.Nodes.{RuntimeEvent, Node, NodeRow}

-- `switch value { case "a": return "a" … default: return d }`
unfoldable pub one_of : List String → String → String → String
one_of [] d value = d
one_of (k ∷ ks) d value = if str_eq value k then k else one_of ks d value

unfoldable pub is_valid_node_status : String → Bool
is_valid_node_status status =
    contains ("pending" ∷ "active" ∷ "unhealthy" ∷ "drained" ∷ "disabled" ∷ []) (trim_space status)

unfoldable pub normalize_validation_status : String → String
unfolding one_of
normalize_validation_status status = one_of ("applied" ∷ "failed" ∷ []) "" (trim_space status)

unfoldable pub normalize_runtime_mode : String → String
unfolding one_of
normalize_runtime_mode value =
    one_of ("dry-run-only" ∷ "future-process-managed" ∷ "local-process-managed" ∷ []) "no-process"
      (trim_space value)

unfoldable pub normalize_runtime_process_mode : String → String
unfolding one_of
normalize_runtime_process_mode value = one_of ("local" ∷ []) "disabled" (trim_space value)

unfoldable pub normalize_runtime_process_state : String → String
unfolding one_of
normalize_runtime_process_state value =
    one_of ("ready" ∷ "failed" ∷ "running" ∷ "stopped" ∷ "restarting" ∷ []) "disabled"
      (trim_space value)

unfoldable pub normalize_runtime_event_type : String → String
unfolding one_of
normalize_runtime_event_type value =
    one_of
      ("apply_success" ∷ "apply_failure" ∷ "validation_failure" ∷ "dry_run_failure"
        ∷ "process_prepare_start_intent" ∷ "runtime_state_restore"
        ∷ "runtime_state_restore_degraded" ∷ [])
      "runtime_event" (trim_space value)

unfoldable pub normalize_runtime_event_status : String → String
unfolding one_of
normalize_runtime_event_status value =
    one_of ("applied" ∷ "failed" ∷ "ready" ∷ "restored" ∷ []) "" (trim_space value)

-- the message that trimming gave, at most 240 bytes of it
unfoldable pub shorten : String → String
shorten message = if ltb 240 (byte_length message) then trim_space (cut 240 message) else message

unfoldable pub compact_runtime_event_message : String → String
unfolding shorten
compact_runtime_event_message value = shorten (trim_space value)

unfoldable pub normalize_runtime_desired_state : String → String
normalize_runtime_desired_state value =
    if is_empty (trim_space value) then "validated-config-ready" else trim_space value

unfoldable pub normalize_runtime_state : String → String
unfolding one_of
normalize_runtime_state value =
    one_of ("active_config_ready" ∷ "validation_failed" ∷ "prepare_failed" ∷ []) "not_prepared"
      (trim_space value)

unfoldable pub normalize_dry_run_status : String → String
unfolding one_of
normalize_dry_run_status value =
    one_of ("passed" ∷ "failed" ∷ []) "not_configured" (trim_space value)

unfoldable pub normalize_runtime_attempt : String → String
unfolding one_of
normalize_runtime_attempt value = one_of ("ready" ∷ "failed" ∷ []) "skipped" (trim_space value)

unfoldable pub nullable_time : Time → Option Time
nullable_time value = if is_zero value then none else some value

-- the body of the loop of normalizeRuntimeEvents
unfoldable pub normalize_runtime_event : Time → RuntimeEvent → RuntimeEvent
unfolding normalize_runtime_event_type normalize_runtime_event_status compact_runtime_event_message
    normalize_runtime_mode normalize_runtime_process_mode normalize_runtime_process_state
normalize_runtime_event now event = record {
  type = normalize_runtime_event_type event.type;
  status = normalize_runtime_event_status event.status;
  revision_number = if is_neg event.revision_number then pos 0 else event.revision_number;
  message = compact_runtime_event_message event.message;
  runtime_mode = normalize_runtime_mode event.runtime_mode;
  runtime_process_mode = normalize_runtime_process_mode event.runtime_process_mode;
  runtime_process_state = normalize_runtime_process_state event.runtime_process_state;
  at = if is_zero event.at then now else event.at;
}

abbrev pub runtime_events_limit : ℕ
runtime_events_limit = 20

unfoldable pub normalize_runtime_events : Time → List RuntimeEvent → List RuntimeEvent
unfolding normalize_runtime_event
normalize_runtime_events now events = map (normalize_runtime_event now) (
    if ltb runtime_events_limit (length events)
    then drop (length events - runtime_events_limit) events
    else events)

-- the column's value, runtimeEventsJSON, read again
unfoldable pub stored_runtime_events : Time → List RuntimeEvent → List RuntimeEvent
unfolding normalize_runtime_events
stored_runtime_events now events = normalize_runtime_events now events

unfoldable pub scan_node : Time → NodeRow → Node
unfolding normalize_runtime_events
scan_node now row = record row.node {
  runtime_events = normalize_runtime_events now row.node.runtime_events;
}
