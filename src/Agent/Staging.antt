-- ===== src/Agent/Staging.antt =====
-- Writing a revision to files: services/node-agent/internal/agent/service.go, StageConfigRevision,
-- ActivateStagedConfigRevision, SerializeConfigRevision, ValidateXrayDryRun, PersistRuntimeState.
use lenker_panel.Base.{
  String, Bool, true, false, not, Option, none, some, [], ◌∷◌, ok, err, ℤ, pos, Result, require,
  guard, is_empty, trim_space, decimal, append,
}
use lenker_panel.Json.{int, text, Fields, end, get, fields, as_object, as_text, number_as_int}
use lenker_panel.Agent.Model.{
  Status, ConfigRevision, AgentError, state_dir_required, invalid_config_payload,
  config_artifact_write,
}
use lenker_panel.Agent.Runtime.{dry_run_status_for_validator, or_text}
use lenker_panel.Agent.Machine.{
  Body, document, is_json, Host, Action, pure, returned, gets, modify, ◌>>=◌, ◌>>◌, with_status,
  Read, contents, operation, write_file_atomic, read_file,
}

pub record ConfigArtifact : Type 0 where
  pub config_path : String
  pub metadata_path : String
  pub revision_config_path : String
  pub revision_metadata_path : String
  pub staged_config_path : String
  pub staged_metadata_path : String
  pub state_path : String

abbrev pub or_empty : Option String → String
or_empty none = ""
or_empty (some s) = s

abbrev pub or_zero : Option ℤ → ℤ
or_zero none = pos 0
or_zero (some n) = n

abbrev pub is_set {ℓ} : {A : Type ℓ} → Option A → Bool
is_set none = false
is_set (some a) = true

-- a nil map has no keys
abbrev pub entries : Option Fields → Fields
entries none = end
entries (some m) = m

unfoldable pub string_from_bundle : Fields → String → String
string_from_bundle bundle key = or_empty (as_text (get key bundle))

unfoldable pub number_from_bundle : Fields → String → ℤ
number_from_bundle bundle key = or_zero (number_as_int (get key bundle))

abbrev readable : Read → Result AgentError Body
readable (contents body) = ok body
readable _ = err config_artifact_write

module _ (host : Host) where
  abbrev pub active_config : String → String
  active_config dir = host.join dir "active/config.json"

  abbrev pub active_metadata : String → String
  active_metadata dir = host.join dir "active/metadata.json"

  abbrev pub state_file : String → String
  state_file dir = host.join dir "state.json"

  abbrev pub revision_file : String → ℤ → String → String
  revision_file dir number name =
      host.join dir (append "revisions/" (append (decimal number) (append "/" name)))

  unfoldable pub artifact_of : String → ConfigRevision → ConfigArtifact
  artifact_of dir revision = record {
    config_path = active_config dir;
    metadata_path = active_metadata dir;
    revision_config_path = revision_file dir revision.revision_number "config.json";
    revision_metadata_path = revision_file dir revision.revision_number "metadata.json";
    staged_config_path = host.join dir "staged/config.json";
    staged_metadata_path = host.join dir "staged/metadata.json";
    state_path = state_file dir;
  }

  unfoldable pub metadata_of : ConfigRevision → ConfigArtifact → Fields
  unfolding string_from_bundle number_from_bundle
  metadata_of revision artifact =
      let bundle = entries revision.bundle in
      fields (
        ("revision_id", text revision.id)
        ∷ ("node_id", text revision.node_id)
        ∷ ("revision_number", int revision.revision_number)
        ∷ ("bundle_hash", text revision.bundle_hash)
        ∷ ("signer", text revision.signer)
        ∷ ("rollback_target_revision", int revision.rollback_target_revision)
        ∷ ("operation_kind", text (string_from_bundle bundle "operation_kind"))
        ∷ ("source_revision_id", text (string_from_bundle bundle "source_revision_id"))
        ∷ ("source_revision_number", int (number_from_bundle bundle "source_revision_number"))
        ∷ ("config_path", text artifact.revision_config_path)
        ∷ ("staged_config_path", text artifact.staged_config_path)
        ∷ ("active_config_path", text artifact.config_path)
        ∷ ("apply_mode", text "staged-active-file-switch")
        ∷ [])

  -- the trimmed state directory, if there is one
  unfoldable pub state_dir : Action String
  state_dir = do
    dir ← gets (λ w. trim_space w.service.identity.state_dir)
    returned (guard (not (is_empty dir)) state_dir_required)
    pure dir

  unfoldable pub config_of : ConfigRevision → Action Fields
  config_of revision =
      returned (require (as_object (get "config" (entries revision.bundle))) invalid_config_payload)

  unfoldable pub stage_config_revision : ConfigRevision → Action ConfigArtifact
  stage_config_revision revision = do
    dir ← state_dir
    config ← config_of revision
    operation host
    operation host
    let artifact = artifact_of dir revision
    let metadata = metadata_of revision artifact
    write_file_atomic host artifact.revision_config_path (document config)
    write_file_atomic host artifact.revision_metadata_path (document metadata)
    write_file_atomic host artifact.staged_config_path (document config)
    write_file_atomic host artifact.staged_metadata_path (document metadata)
    modify (
        with_status (λ s. record s {
          staged_revision = revision.revision_number;
          rollback_candidate_revision = revision.rollback_target_revision;
        }))
    pure artifact

  -- the paths that a caller may leave out
  unfoldable pub completed_paths : String → ConfigArtifact → ConfigArtifact
  completed_paths dir artifact = record artifact {
    config_path = or_text artifact.config_path (active_config dir);
    metadata_path = or_text artifact.metadata_path (active_metadata dir);
    state_path = or_text artifact.state_path (state_file dir);
  }

  -- os.ReadFile with its error wrapped, and the check by json.Valid
  unfoldable pub read_json : String → Action Body
  read_json path = do
    read ← read_file host path
    body ← returned (readable read)
    returned (guard (is_json body) invalid_config_payload)
    pure body

  -- state.json as ActivateStagedConfigRevision writes it
  unfoldable pub activated_state : Status → ConfigRevision → ConfigArtifact → Fields
  unfolding dry_run_status_for_validator string_from_bundle number_from_bundle
  activated_state s revision artifact =
      let bundle = entries revision.bundle in
      fields (
        ("active_revision", int revision.revision_number)
        ∷ ("staged_revision", int revision.revision_number)
        ∷ ("last_applied_revision", int revision.revision_number)
        ∷ ("rollback_candidate_revision", int revision.rollback_target_revision)
        ∷ ("runtime_mode", text s.runtime_mode)
        ∷ ("runtime_process_mode", text s.runtime_process_mode)
        ∷ ("runtime_process_state", text s.runtime_process_state)
        ∷ ("runtime_desired_state", text s.runtime_desired_state)
        ∷ ("runtime_state", text "active_config_ready")
        ∷ ("last_dry_run_status", text (dry_run_status_for_validator (is_set host.xray)))
        ∷ ("last_runtime_attempt_status", text "skipped")
        ∷ ("last_runtime_prepared_revision", int revision.revision_number)
        ∷ ("process_control", text "unavailable")
        ∷ ("config_artifact_path", text artifact.config_path)
        ∷ ("metadata_artifact_path", text artifact.metadata_path)
        ∷ ("revision_config_path", text artifact.revision_config_path)
        ∷ ("revision_metadata_path", text artifact.revision_metadata_path)
        ∷ ("operation_kind", text (string_from_bundle bundle "operation_kind"))
        ∷ ("source_revision_id", text (string_from_bundle bundle "source_revision_id"))
        ∷ ("source_revision_number", int (number_from_bundle bundle "source_revision_number"))
        ∷ [])

  unfoldable pub activate_staged_config_revision :
      ConfigRevision → ConfigArtifact → Action ConfigArtifact
  activate_staged_config_revision revision staged = do
    dir ← state_dir
    operation host
    config_body ← read_json staged.staged_config_path
    metadata_body ← read_json staged.staged_metadata_path
    let artifact = completed_paths dir staged
    write_file_atomic host artifact.metadata_path metadata_body
    write_file_atomic host artifact.config_path config_body
    s ← gets (λ w. w.service.status)
    write_file_atomic host artifact.state_path (document (activated_state s revision artifact))
    pure artifact

  unfoldable pub serialize_config_revision : ConfigRevision → Action ConfigArtifact
  serialize_config_revision revision = do
    staged ← stage_config_revision revision
    activate_staged_config_revision revision staged
