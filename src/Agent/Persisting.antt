-- ===== src/Agent/Persisting.antt =====
-- PersistRuntimeState and ValidateXrayDryRun of services/node-agent/internal/agent/service.go.
use lenker_panel.Base.{
  String, Option, none, some, List, [], ◌∷◌, map, ok, err, Result, require, ℤ, int_eq, pos, str_eq,
  is_empty, is_blank, if◌then◌else◌,
}
use lenker_panel.Json.{Value, null, int, text, obj, Fields, end, field, put, array}
use lenker_panel.Agent.Model.{
  Status, RuntimeEvent, ConfigRevision, AgentError, invalid_config_payload, xray_dry_run_failed,
  config_artifact_write,
}
use lenker_panel.Agent.Machine.{
  document, empty, unmarshal, Host, Action, pure, returned, gets, ◌>>=◌, ◌>>◌, Read, contents,
  not_exist, unreadable, operation, write_file_atomic, read_file,
}
use lenker_panel.Agent.Staging.{ConfigArtifact, state_dir, config_of}

-- a field with `omitempty`
unfoldable pub unless_empty : String → String → Fields → Fields
unless_empty key s m = if is_empty s then m else field key (text s) m

unfoldable pub unless_zero : String → ℤ → Fields → Fields
unless_zero key n m = if int_eq n (pos 0) then m else field key (int n) m

-- what Unmarshal gives for the file that state.json was, or a new map
abbrev pub old_state : Read → Result AgentError Fields
old_state (contents empty) = ok end
old_state (contents body) = require (unmarshal body) invalid_config_payload
old_state not_exist = ok end
old_state unreadable = err config_artifact_write

abbrev pub refusal : Option String → Result AgentError (Unit {0})
refusal none = ok tt
refusal (some reason) = err (xray_dry_run_failed reason)

module _ (host : Host) where
  -- the tags of RuntimeEvent in model.go
  unfoldable pub event_value : RuntimeEvent → Value
  event_value e = obj (
      field "type" (text e.type) (
        field "status" (text e.status) (
          unless_zero "revision_number" e.revision_number (
            unless_empty "message" e.message (
              unless_empty "runtime_mode" e.runtime_mode (
                unless_empty "runtime_process_mode" e.runtime_process_mode (
                  unless_empty "runtime_process_state" e.runtime_process_state
                    (field "at" (text (host.time_text e.at)) end))))))))

  -- no events are a nil slice
  unfoldable pub events_value : List RuntimeEvent → Value
  unfolding event_value
  events_value [] = null
  events_value (e ∷ es) = array (map event_value (e ∷ es))

  -- the assignments of PersistRuntimeState, from the first to the last
  unfoldable pub persisted : Status → List (String × Value)
  unfolding events_value
  persisted s =
      ("runtime_mode", text s.runtime_mode)
      ∷ ("runtime_process_mode", text s.runtime_process_mode)
      ∷ ("runtime_process_state", text s.runtime_process_state)
      ∷ ("runtime_desired_state", text s.runtime_desired_state)
      ∷ ("runtime_state", text s.runtime_state)
      ∷ ("last_dry_run_status", text s.last_dry_run_status)
      ∷ ("last_runtime_attempt_status", text s.last_runtime_attempt_status)
      ∷ ("last_runtime_prepared_revision", int s.last_runtime_prepared)
      ∷ ("last_runtime_transition_at", text (host.time_text s.last_runtime_transition_at))
      ∷ ("last_runtime_error", text s.last_runtime_error)
      ∷ ("active_revision", int s.active_revision)
      ∷ ("staged_revision", int s.staged_revision)
      ∷ ("last_applied_revision", int s.last_applied_revision)
      ∷ ("last_rollback_revision", int s.last_rollback_revision)
      ∷ ("rollback_candidate_revision", int s.rollback_candidate_revision)
      ∷ ("last_validation_status", text s.last_validation_status)
      ∷ ("last_validation_error", text s.last_validation_error)
      ∷ ("last_validation_at", text (host.time_text s.last_validation_at))
      ∷ ("config_artifact_path", text s.config_artifact_path)
      ∷ ("metadata_artifact_path", text s.metadata_artifact_path)
      ∷ ("runtime_events", events_value s.runtime_events)
      ∷ (
        "process_control",
        text (if str_eq s.runtime_process_mode "local" then "local-skeleton" else "unavailable"),
      )
      ∷ []

  abbrev pub assign_all : List (String × Value) → Fields → Fields
  assign_all [] m = m
  assign_all ((k, v) ∷ r) m = assign_all r (put k v m)

  unfoldable pub persist_runtime_state : ConfigArtifact → Action (Unit {0})
  persist_runtime_state artifact = if is_blank artifact.state_path then pure tt else do
    read ← read_file host artifact.state_path
    state ← returned (old_state read)
    s ← gets (λ w. w.service.status)
    write_file_atomic host artifact.state_path (document (assign_all (persisted s) state))

  -- with the service's validator; the candidate file is removed at the end, whatever happens
  unfoldable pub dry_run : Option (Fields → Option String) → ConfigRevision → Action (Unit {0})
  dry_run none revision = pure tt
  dry_run (some validate) revision = do
    _ ← state_dir host
    config ← config_of host revision
    operation host
    operation host
    operation host
    operation host
    operation host
    returned (refusal (validate config))

  unfoldable pub validate_xray_dry_run : ConfigRevision → Action (Unit {0})
  unfolding dry_run
  validate_xray_dry_run revision = dry_run host.xray revision
