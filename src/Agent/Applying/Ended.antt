-- ===== src/Agent/Applying/Ended.antt =====
-- How ApplyConfigRevisionWithContext ends.
use lenker_panel.Base.{
  ◌≡◌, refl, ◌⊎◌, inl, inr, String, false, Option, none, some, ok, err, Result, ◌>>=◌ as ◌and_then◌,
  str_eq, is_blank, trim_space, Time, eq_refl, Bool-cases,
}
use lenker_panel.Crypto.{Crypto}
use lenker_panel.Json.{Fields, get, as_object}
use lenker_panel.Agent.Model.{ConfigRevision, Status, AgentError}
use lenker_panel.Agent.Verify.{validate_config_revision}
use lenker_panel.Agent.Runtime.{RuntimeTransition, dry_run_status_for_validator}
use lenker_panel.Agent.Service.{
  Service, validate_and_store_config_revision, append_runtime_event, track_applied_revision,
  track_runtime_prepared, track_validation_result,
}
use lenker_panel.Agent.Machine.{
  document, Files, Host, World, with_status, look_up, with_file, append_event, returned, on_error,
  ◌>>=◌, ◌>>◌, modify, time_now,
}
use lenker_panel.Agent.Machine.Store.{look_up-with_file, Separates, join-other}
use lenker_panel.Agent.Machine.Outcomes.{
  Reports, Claim, At, Ends, Ensures, Implies, fails-Ensures, given-Ensures, exists-Ensures,
  from-Ensures, conclude-Ensures, bind-Ensures, then-Ensures, pure-Ensures, gets-Ensures,
  status-Ensures, returned-Ensures, on_error-Ensures, modify-Ensures, operation-Ensures,
  time_now-Ensures, write_file_atomic-Ensures, read_file-Ensures,
}
use lenker_panel.Agent.Staging.{
  ConfigArtifact, entries, artifact_of, active_config, state_file, is_set,
}
use lenker_panel.Agent.Persisting.{
  dry_run, persisted, assign_all, old_state, refusal, persist_runtime_state, validate_xray_dry_run,
}
use lenker_panel.Agent.Applying.{
  record_failure, after_prepare, prepare, record_success, track_prepared, store_revision,
  apply_config_revision_with_context,
}
use lenker_panel.Agent.Applying.Staged.{
  Kept, dir_of, state_dir-Ensures, config_of-Ensures, artifact,
}
use lenker_panel.Agent.Applying.Activated.{IsActivated, serialize-Ensures}

module _ (host : Host) (s0 : Service) (rs0 : Reports) (revision : ConfigRevision) where
  abbrev pub dir : String
  dir = dir_of s0

  abbrev own : ConfigArtifact
  own = artifact host s0 rs0 revision

  -- the service says that the revision is active, and the active file holds its configuration
  abbrev pub IsApplied : Fields → Claim
  IsApplied config s fs rs =
      (s.identity ≡ s0.identity)
      × (s.status.active_revision ≡ revision.revision_number)
      × (s.status.last_applied_revision ≡ revision.revision_number)
      × (s.status.last_runtime_prepared ≡ revision.revision_number)
      × (s.status.config_artifact_path ≡ active_config host dir)
      × (rs ≡ rs0)
      × (as_object (get "config" (entries revision.bundle)) ≡ some config)
      × (look_up (active_config host dir) fs ≡ some (document config))

  abbrev pub Start : Claim
  Start = Kept s0 rs0

  stored :
      (r : Result AgentError (Unit {0})) (w : World) (after : Service)
      → At Start w
      → At Start (record w { service = after })
      → Ends
          (λ _. Start)
          Start
          (elim (r and_then λ _. ok after) as (λ _. Result AgentError (Unit {0}) × World) [
            | ok s ↦ (ok tt, record w { service = s })
            | err e ↦ (err e, w)
          ])
  stored (ok _) w after h k = k
  stored (err e) w after h k = h

  refused : (r : Result AgentError (Unit {0})) → Ensures Start (returned r) (λ _. Start) Start
  refused r = conclude-Ensures _ _ (λ a s fs rs h. h.1) (returned-Ensures r (λ s fs rs h. h))

  kept_on_failure :
      (type : String) (e : AgentError) (w : World)
      → At Start w
      → At Start (record_failure host type revision e w)
  unfolding record_failure append_event append_runtime_event
  kept_on_failure type e w h = h

  store-Ensures : (c : Crypto) → Ensures Start (store_revision host c revision) (λ _. Start) Start
  unfolding store_revision validate_and_store_config_revision
  store-Ensures c = record {
    run = λ w h. stored (validate_config_revision c w.service.identity.node_id revision) w _ h h;
  }

  dry_run-Ensures :
      (o : Option (Fields → Option String))
      → Ensures Start (dry_run host o revision) (λ _. Start) Start
  unfolding dry_run
  dry_run-Ensures none = pure-Ensures _ _ (λ s fs rs h. h)
  dry_run-Ensures (some validate) =
      let same : Implies Start Start = λ s fs rs h. h in
      let go = operation-Ensures {P = Start} {E = Start} host same in
      bind-Ensures (λ _. Start) _ _
        (conclude-Ensures _ _ (λ a s fs rs h. h.0) (state_dir-Ensures host Start Start same))
        λ _.
          bind-Ensures (λ _. Start) _ _
            (conclude-Ensures _ _ (λ a s fs rs h. h.0)
              (config_of-Ensures host Start Start revision same))
            λ config. then-Ensures Start _ _ go (
              then-Ensures Start _ _ go (
                then-Ensures Start _ _ go (
                  then-Ensures Start _ _ go
                    (then-Ensures Start _ _ go (refused (refusal (validate config)))))))

  validate-Ensures : Ensures Start (validate_xray_dry_run host revision) (λ _. Start) Start
  unfolding validate_xray_dry_run
  validate-Ensures = dry_run-Ensures host.xray

  -- the claims of what SerializeConfigRevision leaves stand after the supervisor has been asked
  module _ (config : Fields) where
    abbrev Active : Claim
    Active = IsActivated host s0 rs0 revision config

    after_prepare-Ensures :
        (p : RuntimeTransition × Option AgentError)
        → Ensures Active (after_prepare host revision p) (λ _. Active) Start
    unfolding after_prepare append_event append_runtime_event
    after_prepare-Ensures (transition, none) = record { run = λ w h. h }
    after_prepare-Ensures (transition, some e) = record { run = λ w h. h.0 }

    prepare-Ensures : Ensures Active (prepare host revision) (λ _. Active) Start
    unfolding prepare
    prepare-Ensures =
        bind-Ensures _ _ _ (time_now-Ensures host)
          λ at. bind-Ensures _ _ _ (gets-Ensures _) λ mode. after_prepare-Ensures _

    track-Ensures :
        (status : String) (transition : RuntimeTransition)
        → Ensures Active
            (modify (track_prepared host revision own status transition))
            (λ _. IsApplied config)
            Start
    unfolding track_prepared track_runtime_prepared track_applied_revision artifact_of
    track-Ensures status transition =
        modify-Ensures _ _ (λ w h. (h.0.0.0, refl, refl, refl, refl, h.0.1, h.1, h.2))

    abbrev pub Applied : Claim
    Applied = IsApplied config

    -- the same, and state.json holds the status
    abbrev pub IsSaved : Claim
    IsSaved s fs rs =
        Applied s fs rs
        × (s.status.last_validation_status ≡ "applied")
        × (s.status.last_validation_error ≡ "")
        × ((m : Fields) × (look_up (state_file host dir) fs
              ≡ some (document (assign_all host (persisted host s.status) m))))

    success-Ensures :
        (transition : RuntimeTransition)
        → Ensures Applied (modify (record_success host revision transition)) (λ _. Applied) Start
    unfolding record_success append_event append_runtime_event
    success-Ensures transition = modify-Ensures _ _ (λ w h.
        elim (Bool-cases (str_eq w.service.status.runtime_process_mode "local")) [
          | inl e ↦ rw e h
          | inr e ↦ rw e h
        ])

    abbrev Validated : Claim
    Validated s fs rs =
        Applied s fs rs
        × (s.status.last_validation_status ≡ "applied")
        × (s.status.last_validation_error ≡ "")

    validated-Ensures :
        (at : Time)
        → Ensures Applied
            (modify (with_status (track_validation_result at "applied" "" at)))
            (λ _. Validated)
            Start
    unfolding track_validation_result trim_space
    validated-Ensures at = modify-Ensures _ _ (λ w h. (h, refl, refl))

    applied_on_failure :
        (type : String) (e : AgentError) (w : World)
        → At Applied w
        → At Applied (record_failure host type revision e w)
    unfolding record_failure append_event append_runtime_event
    applied_on_failure type e w h = h

    wrote :
        Separates host
        → (s : Service) (state : Fields) (status : Status) (fs : Files) (rs : Reports)
        → status ≡ s.status
        → Validated s fs rs
        → IsSaved s
            (with_file
              (state_file host dir)
              (document (assign_all host (persisted host status) state))
              fs)
            rs
    wrote sep s state status fs rs e v =
        let a = v.0 in
        rw e (
          (
            a.0,
            a.1,
            a.2,
            a.3,
            a.4,
            a.5,
            a.6,
            simp (look_up-with_file, join-other host sep dir "state.json" "active/config.json" refl)
                a.7,
          ),
          v.1,
          v.2,
          (state, simp (look_up-with_file, eq_refl)),
        )

    persist-Ensures :
        Separates host
        → is_blank (state_file host dir) ≡ false
        → Ensures Validated (persist_runtime_state host own) (λ _. IsSaved) Applied
    unfolding persist_runtime_state artifact_of
    persist-Ensures sep visible = rw visible (
        bind-Ensures _ _ _ (read_file-Ensures host _) λ read.
          bind-Ensures _ _ _ (returned-Ensures (old_state read) (λ s fs rs h. h.0.0)) λ state.
            bind-Ensures _ _ _ status-Ensures λ status.
              write_file_atomic-Ensures host _ _ _
                (λ s fs rs h. wrote sep s state status fs rs h.0 h.1.1.0) (λ s fs rs h. h.1.1.0.0))

  -- after an error: as before, or applied, where only state.json could not be written
  abbrev pub Ended : Claim
  Ended s fs rs = Start s fs rs ⊎ ((config : Fields) × IsApplied config s fs rs)

  finish-Ensures :
      (config : Fields)
      → Separates host
      → is_blank (state_file host dir) ≡ false
      → Ensures
          (IsActivated host s0 rs0 revision config)
          (do
            transition ← prepare host revision
            modify (
                track_prepared host revision own
                  (dry_run_status_for_validator (is_set host.xray))
                  transition)
            modify (record_success host revision transition)
            at ← time_now host
            modify (with_status (track_validation_result at "applied" "" at))
            on_error
                (persist_runtime_state host own)
                (record_failure host "apply_failure" revision))
          (λ _. IsSaved config)
          Ended
  finish-Ensures config sep visible =
      let refused_E : Implies Start Ended = λ s fs rs h. inl h in
      bind-Ensures _ _ _ (fails-Ensures _ refused_E (prepare-Ensures config)) λ transition.
        then-Ensures _ _ _ (fails-Ensures _ refused_E (track-Ensures config _ transition)) (
          then-Ensures _ _ _ (fails-Ensures _ refused_E (success-Ensures config transition)) (
            bind-Ensures _ _ _ (time_now-Ensures host) λ at.
              then-Ensures _ _ _ (fails-Ensures _ refused_E (validated-Ensures config at)) (
                fails-Ensures _ (λ s fs rs h. inr (config, h))
                  (on_error-Ensures _ _ (record_failure host "apply_failure" revision)
                    (persist-Ensures config sep visible)
                    (applied_on_failure config "apply_failure")))))

  pub apply-Ensures :
      (c : Crypto)
      → Separates host
      → is_blank (state_file host dir) ≡ false
      → Ensures Start
          (apply_config_revision_with_context host c revision)
          (λ _ s fs rs. (config : Fields) × IsSaved config s fs rs)
          Ended
  unfolding apply_config_revision_with_context
  apply-Ensures c sep visible =
      let refused_E : Implies Start Ended = λ s fs rs h. inl h in
      then-Ensures Start _ _
        (fails-Ensures _ refused_E (
          on_error-Ensures _ _ (record_failure host "validation_failure" revision) (store-Ensures c)
            (kept_on_failure "validation_failure")))
        (then-Ensures Start _ _
          (fails-Ensures _ refused_E (
            on_error-Ensures _ _ (record_failure host "dry_run_failure" revision) validate-Ensures
              (kept_on_failure "dry_run_failure")))
          (bind-Ensures _ _ _
            (fails-Ensures _ refused_E (
              on_error-Ensures _ _ (record_failure host "apply_failure" revision)
                (serialize-Ensures host s0 rs0 revision sep) (kept_on_failure "apply_failure")))
            λ active.
              given-Ensures (active ≡ own) _ (λ s fs rs h. h.0)
                λ e. rw e (
                  from-Ensures
                    (λ s fs rs. (config : Fields) × IsActivated host s0 rs0 revision config s fs rs)
                    _ (λ s fs rs h. h.1)
                    (exists-Ensures (IsActivated host s0 rs0 revision) _ λ config.
                      conclude-Ensures _ _ (λ u s fs rs h. (config, h))
                        (finish-Ensures config sep visible)))))

-- Where applying a revision succeeds, the service says that it is active and was the last one applied
-- and prepared, the active file holds its configuration, and state.json holds the status. Where it
-- fails, what the service says is active is as before, or all but the writing of state.json was done.
-- No report is sent, and the identity stays. The names below the state directory are different files.
pub apply-Ended :
    (host : Host) (c : Crypto) (revision : ConfigRevision) (w : World)
    → Separates host
    → is_blank (state_file host (dir_of w.service)) ≡ false
    → Ends
        (λ _ s fs rs. (config : Fields) × IsSaved host w.service w.reports revision config s fs rs)
        (Ended host w.service w.reports revision)
        (apply_config_revision_with_context host c revision w)
apply-Ended host c revision w sep visible =
    (apply-Ensures host w.service w.reports revision c sep visible).run w
      ((refl, refl, refl, refl, refl), refl)
