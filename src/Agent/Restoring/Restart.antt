-- ===== src/Agent/Restoring/Restart.antt =====
-- A service that starts on the state.json of an earlier one.
use lenker_panel.Agent.Restoring.Decoded.{
  IsTrimmed, IsExactInt, IsTimeText, IsStorableEvent, decoded, int-decoded, text-decoded,
  default-decoded, time-decoded, get-decoded,
}
use lenker_panel.Agent.Restoring.Events.{runtime_events-written}
use lenker_panel.Base.{
  ◌+◌, ◌≡◌, refl, ◌∙◌, ap, ℕ, ◌≤◌, String, true, false, some, List, [], ◌∷◌, ◌++◌, is_pos, All,
  length, is_empty, trim_space, ok,
}
use lenker_panel.Json.{Fields}
use lenker_panel.Agent.Model.{Identity, Status, RuntimeEvent}
use lenker_panel.Agent.Runtime.{normalize_runtime_process_mode, runtime_mode_for_identity}
use lenker_panel.Agent.Service.{limited, new_service, append_runtime_event, completed}
use lenker_panel.Agent.Machine.{
  Body, document, Host, World, look_up, with_status, contents, read_file, pure, modify, ◌>>=◌, ◌>>◌,
  append_event,
}
use lenker_panel.Agent.Staging.{state_file}
use lenker_panel.Agent.Persisting.{persisted, assign_all}
use lenker_panel.Agent.Applying.{event}
use lenker_panel.Agent.Restoring.{
  active_revision_of, restored_status, valid_json_file, config_path_of, metadata_path_of,
  apply_valid, runtime_events_from_state, int_from_state, after_true, apply_runtime_state_map,
  record_restore, finish_from_state, from_state, restore_runtime_state, start,
}

-- A status that state.json gives back: its revision is positive, the numbers are exact as float64, the
-- texts are trimmed, those with a default are not empty, and the times and events can be read again.
pub record IsStorable (host : Host) (s : Status) : Type 0 where
  pub positive : is_pos s.active_revision ≡ true
  pub active : IsExactInt s.active_revision
  pub applied : IsExactInt s.last_applied_revision
  pub staged : IsExactInt s.staged_revision
  pub rollback : IsExactInt s.last_rollback_revision
  pub candidate : IsExactInt s.rollback_candidate_revision
  pub prepared : IsExactInt s.last_runtime_prepared
  pub state : IsTrimmed s.runtime_state × (is_empty s.runtime_state ≡ false)
  pub process_state : IsTrimmed s.runtime_process_state × (is_empty s.runtime_process_state ≡ false)
  pub desired : IsTrimmed s.runtime_desired_state × (is_empty s.runtime_desired_state ≡ false)
  pub dry_run : IsTrimmed s.last_dry_run_status × (is_empty s.last_dry_run_status ≡ false)
  pub attempt :
      IsTrimmed s.last_runtime_attempt_status × (is_empty s.last_runtime_attempt_status ≡ false)
  pub error : IsTrimmed s.last_runtime_error
  pub transition_at : IsTimeText host s.last_runtime_transition_at
  pub validation : IsTrimmed s.last_validation_status
  pub validation_error : IsTrimmed s.last_validation_error
  pub validation_at : IsTimeText host s.last_validation_at
  pub config_path : IsTrimmed s.config_artifact_path × (is_empty s.config_artifact_path ≡ false)
  pub metadata_path :
      IsTrimmed s.metadata_artifact_path × (is_empty s.metadata_artifact_path ≡ false)
  pub events : All (IsStorableEvent host) s.runtime_events
  pub few_events : length s.runtime_events ≤ 20

-- `t` has what `s` said about revisions, runtime and validation
pub record Agrees (s t : Status) : Type 0 where
  pub active : t.active_revision ≡ s.active_revision
  pub applied : t.last_applied_revision ≡ s.last_applied_revision
  pub staged : t.staged_revision ≡ s.staged_revision
  pub rollback : t.last_rollback_revision ≡ s.last_rollback_revision
  pub candidate : t.rollback_candidate_revision ≡ s.rollback_candidate_revision
  pub prepared : t.last_runtime_prepared ≡ s.last_runtime_prepared
  pub state : t.runtime_state ≡ s.runtime_state
  pub process_state : t.runtime_process_state ≡ s.runtime_process_state
  pub desired : t.runtime_desired_state ≡ s.runtime_desired_state
  pub dry_run : t.last_dry_run_status ≡ s.last_dry_run_status
  pub attempt : t.last_runtime_attempt_status ≡ s.last_runtime_attempt_status
  pub error : t.last_runtime_error ≡ s.last_runtime_error
  pub transition_at : t.last_runtime_transition_at ≡ s.last_runtime_transition_at
  pub validation : t.last_validation_status ≡ s.last_validation_status
  pub validation_error : t.last_validation_error ≡ s.last_validation_error
  pub validation_at : t.last_validation_at ≡ s.last_validation_at
  pub config_path : t.config_artifact_path ≡ s.config_artifact_path
  pub metadata_path : t.metadata_artifact_path ≡ s.metadata_artifact_path

module _ (host : Host) (s : Status) (m : Fields) (h : IsStorable host s) where
  abbrev stored : Fields
  stored = decoded host (persisted host s) m

  active-stored : active_revision_of stored ≡ s.active_revision
  unfolding int_from_state persisted
  active-stored =
      int-decoded host (persisted host s) m "active_revision" s.active_revision _ refl h.active

  restored-Agrees :
      (t : Status)
      → Agrees s (restored_status host stored s.config_artifact_path s.metadata_artifact_path t)
  unfolding restored_status persisted
  restored-Agrees t =
      let kvs = persisted host s in
      let number = int-decoded host kvs m in
      let line = text-decoded host kvs m in
      let filled = default-decoded host kvs m in
      let at = time-decoded host kvs m in
      record {
        active = active-stored;
        applied = number "last_applied_revision" s.last_applied_revision _ refl h.applied;
        staged = number "staged_revision" s.staged_revision _ refl h.staged;
        rollback = number "last_rollback_revision" s.last_rollback_revision _ refl h.rollback;
        candidate =
            number "rollback_candidate_revision" s.rollback_candidate_revision _ refl h.candidate;
        prepared =
            number "last_runtime_prepared_revision" s.last_runtime_prepared _ refl h.prepared;
        state = filled "runtime_state" s.runtime_state _ refl h.state.0 h.state.1;
        process_state =
            filled "runtime_process_state" s.runtime_process_state _ refl h.process_state.0
              h.process_state.1;
        desired =
            filled "runtime_desired_state" s.runtime_desired_state _ refl h.desired.0 h.desired.1;
        dry_run = filled "last_dry_run_status" s.last_dry_run_status _ refl h.dry_run.0 h.dry_run.1;
        attempt =
            filled "last_runtime_attempt_status" s.last_runtime_attempt_status _ refl h.attempt.0
              h.attempt.1;
        error = line "last_runtime_error" s.last_runtime_error refl h.error;
        transition_at =
            at "last_runtime_transition_at" s.last_runtime_transition_at refl h.transition_at;
        validation = line "last_validation_status" s.last_validation_status refl h.validation;
        validation_error =
            line "last_validation_error" s.last_validation_error refl h.validation_error;
        validation_at = at "last_validation_at" s.last_validation_at refl h.validation_at;
        config_path = refl;
        metadata_path = refl;
      }

  restored-events :
      (t : Status)
      → (restored_status host stored s.config_artifact_path s.metadata_artifact_path
          t).runtime_events
        ≡ s.runtime_events
  unfolding restored_status persisted
  restored-events t =
      ap (runtime_events_from_state host) (get-decoded host (persisted host s) m "runtime_events")
      ∙ runtime_events-written host s.runtime_events h.events h.few_events

  config_path-stored : (dir : String) → config_path_of host stored dir ≡ s.config_artifact_path
  unfolding config_path_of persisted
  config_path-stored dir =
      rw
        (
          text-decoded host (persisted host s) m "config_artifact_path" s.config_artifact_path refl
              h.config_path.0,
          h.config_path.1,
        )
        refl

  metadata_path-stored :
      (dir : String) → metadata_path_of host stored dir ≡ s.metadata_artifact_path
  unfolding metadata_path_of persisted
  metadata_path-stored dir =
      rw
        (
          text-decoded host (persisted host s) m "metadata_artifact_path" s.metadata_artifact_path
              refl h.metadata_path.0,
          h.metadata_path.1,
        )
        refl

abbrev counted_operation : World → World
counted_operation w = record w { operations = w.operations + 1 }

module _ (host : Host) (works : (n : ℕ) → host.fails n ≡ false) where
  read_file-works :
      (path : String) (body : Body) (w : World)
      → look_up path w.files ≡ some body
      → read_file host path w ≡ (ok (contents body), counted_operation w)
  unfolding read_file
  read_file-works path body w e = rw (works w.operations, e) refl

  valid_json_file-works :
      (path : String) (m : Fields) (w : World)
      → look_up path w.files ≡ some (document m)
      → valid_json_file host path w ≡ (ok true, counted_operation w)
  unfolding valid_json_file ◌>>=◌ read_file pure
  valid_json_file-works path m w e = rw (works w.operations, e) refl

  apply_valid-works :
      (state : Fields) (config_path metadata_path : String) (config metadata : Fields) (w : World)
      → look_up config_path w.files ≡ some (document config)
      → look_up metadata_path w.files ≡ some (document metadata)
      → apply_valid host state config_path metadata_path w ≡ (
        ok true,
        with_status
            (restored_status host state config_path metadata_path)
            (counted_operation (counted_operation w)),
      )
  unfolding apply_valid valid_json_file ◌>>=◌ ◌>>◌ pure modify read_file
  apply_valid-works state config_path metadata_path config metadata w e f =
      rw (works w.operations, e, works (w.operations + 1), f) refl

  module _ (s : Status) (m : Fields) (h : IsStorable host s) where
    abbrev map_of : Fields
    map_of = decoded host (persisted host s) m

    abbrev HasFiles : World → Type 0
    HasFiles w =
        (config : Fields) × (metadata : Fields) × (look_up s.config_artifact_path w.files
          ≡ some (document config))
        × (look_up s.metadata_artifact_path w.files ≡ some (document metadata))

    -- the world after the map has been applied
    abbrev with_map : World → World
    with_map w =
        with_status (restored_status host map_of s.config_artifact_path s.metadata_artifact_path)
          (counted_operation (counted_operation w))

    map-works :
        (dir : String) (w : World)
        → HasFiles w
        → apply_runtime_state_map host map_of dir w ≡ (ok true, with_map w)
    unfolding apply_runtime_state_map
    map-works dir w (config, metadata, e, f) =
        rw
          (
            active-stored host s m h,
            h.positive,
            config_path-stored host s m h dir,
            metadata_path-stored host s m h dir,
          )
          (apply_valid-works map_of s.config_artifact_path s.metadata_artifact_path config metadata
            w e f)

    from_state-works :
        (dir : String) (w : World)
        → HasFiles w
        → from_state host dir (contents (document (assign_all host (persisted host s) m))) w
          ≡ record_restore host "runtime state restored from state.json" (with_map w)
    unfolding from_state finish_from_state
    from_state-works dir w files =
        ap (after_true (finish_from_state host dir)) (map-works dir w files)

    restore-works :
        (w : World)
        → is_empty (trim_space w.service.identity.state_dir) ≡ false
        → look_up (state_file host (trim_space w.service.identity.state_dir)) w.files
          ≡ some (document (assign_all host (persisted host s) m))
        → HasFiles w
        → restore_runtime_state host w
          ≡ record_restore host "runtime state restored from state.json"
              (with_map (counted_operation w))
    unfolding restore_runtime_state read_file
    restore-works w dir e files =
        rw (dir, works w.operations, e)
          (from_state-works (trim_space w.service.identity.state_dir) (counted_operation w) files)

start-eq :
    (host : Host) (identity : Identity) (w : World)
    → start host identity w
      ≡ with_status
          (λ s. record s {
            runtime_process_mode = normalize_runtime_process_mode identity.process_mode;
            runtime_mode =
                runtime_mode_for_identity identity.xray_bin
                  (normalize_runtime_process_mode identity.process_mode);
          })
          (restore_runtime_state host (record w { service = new_service identity }))
unfolding start
start-eq host identity w = refl

started :
    (host : Host) (works : (n : ℕ) → host.fails n ≡ false) (s : Status) (m : Fields)
    (h : IsStorable host s) (identity : Identity) (w : World)
    → is_empty (trim_space identity.state_dir) ≡ false
    → look_up (state_file host (trim_space identity.state_dir)) w.files
      ≡ some (document (assign_all host (persisted host s) m))
    → HasFiles host works s m h w
    → restore_runtime_state host (record w { service = new_service identity })
      ≡ record_restore host "runtime state restored from state.json" (
          with_map host works s m h
            (counted_operation (record w { service = new_service identity })))
unfolding new_service
started host works s m h identity w dir state files =
    restore-works host works s m h (record w { service = new_service identity }) dir state files

-- what the event and the modes add
finished-Agrees :
    (host : Host) (s : Status) (m : Fields) (h : IsStorable host s) (identity : Identity)
    (w : World)
    → let last =
        with_status
          (λ t. record t {
            runtime_process_mode = normalize_runtime_process_mode identity.process_mode;
            runtime_mode =
                runtime_mode_for_identity identity.xray_bin
                  (normalize_runtime_process_mode identity.process_mode);
          })
          (record_restore host "runtime state restored from state.json" (
            with_status
              (restored_status host
                (stored host s m h)
                s.config_artifact_path
                s.metadata_artifact_path)
              w)) in
      Agrees s last.service.status
      × ((e : RuntimeEvent) × (e.type ≡ "runtime_state_restore")
          × (e.revision_number ≡ s.active_revision)
          × (last.service.status.runtime_events ≡ limited (s.runtime_events ++ e ∷ [])))
unfolding record_restore append_event append_runtime_event completed
finished-Agrees host s m h identity w =
    let t = w.service.status in
    let a = restored-Agrees host s m h t in
    let after =
      restored_status host (stored host s m h) s.config_artifact_path s.metadata_artifact_path t in
    let e = completed after (host.clock w.readings) (
      event "runtime_state_restore" "restored" after.active_revision
        "runtime state restored from state.json" 0) in
    (
      record {
        active = a.active;
        applied = a.applied;
        staged = a.staged;
        rollback = a.rollback;
        candidate = a.candidate;
        prepared = a.prepared;
        state = a.state;
        process_state = a.process_state;
        desired = a.desired;
        dry_run = a.dry_run;
        attempt = a.attempt;
        error = a.error;
        transition_at = a.transition_at;
        validation = a.validation;
        validation_error = a.validation_error;
        validation_at = a.validation_at;
        config_path = a.config_path;
        metadata_path = a.metadata_path;
      },
      (
        e,
        refl,
        a.active,
        ap (λ (es : List RuntimeEvent). limited (es ++ e ∷ [])) (restored-events host s m h t),
      ),
    )

-- A service that starts where an earlier one stored its status in state.json, with the files that this
-- status names in place and readable, agrees with it on revisions, runtime and validation, and its
-- events are those of the earlier one and one that says that the state was restored, the last twenty
-- of them. The status has what a text gives back: exact numbers, trimmed texts, readable times.
pub start-Agrees :
    (host : Host) (identity : Identity) (s : Status) (m config metadata : Fields) (w : World)
    → ((n : ℕ) → host.fails n ≡ false)
    → IsStorable host s
    → is_empty (trim_space identity.state_dir) ≡ false
    → look_up (state_file host (trim_space identity.state_dir)) w.files
      ≡ some (document (assign_all host (persisted host s) m))
    → look_up s.config_artifact_path w.files ≡ some (document config)
    → look_up s.metadata_artifact_path w.files ≡ some (document metadata)
    → Agrees s (start host identity w).service.status
      × ((e : RuntimeEvent) × (e.type ≡ "runtime_state_restore")
          × (e.revision_number ≡ s.active_revision)
          × ((start host identity w).service.status.runtime_events
              ≡ limited (s.runtime_events ++ e ∷ [])))
start-Agrees host identity s m config metadata w works h dir state e f =
    rw
      (
        start-eq host identity w,
        started host works s m h identity w dir state (config, metadata, e, f),
      )
      (finished-Agrees host s m h identity _)
