-- ===== src/Agent/Applying/Activated.antt =====
-- What ActivateStagedConfigRevision makes of the staged files.
use lenker_panel.Base.{
  ◌≡◌, refl, ◌∙◌, ap, sym, String, some, is_empty, eq_refl, Bool-cases, inl, inr, trim_space,
}
use lenker_panel.Json.{Fields, get, as_object}
use lenker_panel.Agent.Model.{ConfigRevision, Identity}
use lenker_panel.Agent.Service.{Service}
use lenker_panel.Agent.Machine.{
  pure, gets, ◌>>=◌, ◌>>◌, document, Files, Host, look_up, write_file_atomic,
}
use lenker_panel.Agent.Machine.Store.{look_up-with_file, Separates, join-other}
use lenker_panel.Agent.Machine.Outcomes.{
  Reports, Claim, Ensures, Implies, given-Ensures, exists-Ensures, from-Ensures, conclude-Ensures,
  bind-Ensures, then-Ensures, pure-Ensures, gets-Ensures, operation-Ensures,
  write_file_atomic-Ensures,
}
use lenker_panel.Agent.Runtime.{or_text}
use lenker_panel.Agent.Staging.{
  ConfigArtifact, entries, artifact_of, metadata_of, active_config, active_metadata, state_file,
  read_json, activate_staged_config_revision, activated_state, serialize_config_revision,
  completed_paths,
}
use mathlib.Core.Option.{some-injective}
use lenker_panel.Agent.Applying.Staged.{
  Kept, dir_of, state_dir-Ensures, read_json-Ensures, artifact, IsStaged, stage-Ensures,
}

or_text_same : (s : String) → or_text s s ≡ s
or_text_same s = elim (Bool-cases (is_empty s)) [ inl e ↦ rw e refl | inr e ↦ rw e refl ]

abbrev pub IsDocument : String → Files → Type 0
IsDocument path fs = (m : Fields) × (look_up path fs ≡ some (document m))

module _ (host : Host) where
  -- a file that is known to hold a map
  known-Ensures :
      (P E : Claim) (path : String) (m : Fields)
      → Implies P E
      → Implies P (λ s fs rs. look_up path fs ≡ some (document m))
      → Ensures P (read_json host path) (λ body s fs rs. (body ≡ document m) × P s fs rs) E
  known-Ensures P E path m k known =
      conclude-Ensures _ _
        (λ body s fs rs h. (some-injective _ _ (sym h.1 ∙ known s fs rs h.0), h.0))
        (read_json-Ensures host P E path k)

  module _ (s0 : Service) (rs0 : Reports) (revision : ConfigRevision) where
    abbrev own : ConfigArtifact
    own = artifact host s0 rs0 revision

    -- the active files hold the revision, and there is a state.json
    abbrev pub IsActivated : Fields → Claim
    IsActivated config s fs rs =
        Kept s0 rs0 s fs rs
        × (as_object (get "config" (entries revision.bundle)) ≡ some config)
        × (look_up (active_config host (dir_of s0)) fs ≡ some (document config))
        × (look_up (active_metadata host (dir_of s0)) fs
            ≡ some (document (metadata_of host revision own)))
        × IsDocument (state_file host (dir_of s0)) fs

    same_paths : completed_paths host (dir_of s0) own ≡ own
    unfolding artifact_of completed_paths
    same_paths = simp or_text_same

    abbrev Staged : Fields → Claim
    Staged = IsStaged host s0 rs0 revision

    staged-Kept : (config : Fields) → Implies (Staged config) (Kept s0 rs0)
    staged-Kept config s fs rs h = h.0

    -- the same after the metadata has been written
    abbrev HasMetadata : Fields → Claim
    HasMetadata config s fs rs =
        Kept s0 rs0 s fs rs
        × (as_object (get "config" (entries revision.bundle)) ≡ some config)
        × (look_up own.metadata_path fs ≡ some (document (metadata_of host revision own)))

    abbrev HasBoth : Fields → Claim
    HasBoth config s fs rs =
        Kept s0 rs0 s fs rs
        × (as_object (get "config" (entries revision.bundle)) ≡ some config)
        × (look_up own.config_path fs ≡ some (document config))
        × (look_up own.metadata_path fs ≡ some (document (metadata_of host revision own)))

    -- from the bodies that have been read on
    write-Ensures :
        Separates host
        → (config : Fields)
        → Ensures
            (Staged config)
            (do
              write_file_atomic host own.metadata_path (document (metadata_of host revision own))
              write_file_atomic host own.config_path (document config)
              s ← gets (λ w. w.service.status)
              write_file_atomic host own.state_path (document (activated_state host s revision own))
              pure own)
            (λ active s fs rs. (active ≡ own) × IsActivated config s fs rs)
            (Kept s0 rs0)
    unfolding artifact_of
    write-Ensures sep config =
        then-Ensures (HasMetadata config) _ _
          (write_file_atomic-Ensures host _ _ _
            (λ s fs rs h. (h.0, h.1, simp (look_up-with_file, eq_refl))) (λ s fs rs h. h.0))
          (then-Ensures (HasBoth config) _ _
            (write_file_atomic-Ensures host _ _ _
              (λ s fs rs h. (
                h.0,
                h.1,
                simp (look_up-with_file, eq_refl),
                simp
                    (
                      look_up-with_file,
                      join-other host sep (dir_of s0) "active/config.json" "active/metadata.json"
                          refl,
                    )
                    h.2,
              ))
              (λ s fs rs h. h.0))
            (bind-Ensures _ _ _ (gets-Ensures _) λ status.
              then-Ensures (IsActivated config) _ _
                (write_file_atomic-Ensures host _ _ _
                  (λ s fs rs h. (
                    h.0,
                    h.1,
                    simp
                        (
                          look_up-with_file,
                          join-other host sep (dir_of s0) "state.json" "active/config.json" refl,
                        )
                        h.2,
                    simp
                        (
                          look_up-with_file,
                          join-other host sep (dir_of s0) "state.json" "active/metadata.json" refl,
                        )
                        h.3,
                    (activated_state host status revision own, simp (look_up-with_file, eq_refl)),
                  ))
                  (λ s fs rs h. h.0))
                (pure-Ensures _ _ (λ s fs rs h. (refl, h)))))

    read-Ensures :
        Separates host
        → (config : Fields)
        → Ensures
            (Staged config)
            (do
              config_body ← read_json host own.staged_config_path
              metadata_body ← read_json host own.staged_metadata_path
              write_file_atomic host own.metadata_path metadata_body
              write_file_atomic host own.config_path config_body
              s ← gets (λ w. w.service.status)
              write_file_atomic host own.state_path (document (activated_state host s revision own))
              pure own)
            (λ active s fs rs. (active ≡ own) × IsActivated config s fs rs)
            (Kept s0 rs0)
    read-Ensures sep config =
        bind-Ensures _ _ _
          (known-Ensures (Staged config) _ _ config (staged-Kept config) (λ s fs rs h. h.2))
          λ body.
            given-Ensures (body ≡ document config) _ (λ s fs rs h. h.0)
              λ e. rw e (
                from-Ensures (Staged config) _ (λ s fs rs h. h.1)
                  (bind-Ensures _ _ _
                    (known-Ensures (Staged config) _ _ (metadata_of host revision own)
                      (staged-Kept config) (λ s fs rs h. h.3))
                    λ found.
                      given-Ensures (found ≡ document (metadata_of host revision own)) _
                        (λ s fs rs h. h.0)
                        λ e'. rw e' (
                          from-Ensures (Staged config) _ (λ s fs rs h. h.1)
                            (write-Ensures sep config))))

    activate-Ensures :
        Separates host
        → (config : Fields)
        → Ensures
            (Staged config)
            (activate_staged_config_revision host revision own)
            (λ active s fs rs. (active ≡ own) × IsActivated config s fs rs)
            (Kept s0 rs0)
    unfolding activate_staged_config_revision
    activate-Ensures sep config =
        bind-Ensures (λ dir s fs rs. (dir ≡ dir_of s0) × Staged config s fs rs) _ _
          (conclude-Ensures _ _
            (λ dir s fs rs h. (h.1 ∙ ap (λ (t : Identity). trim_space t.state_dir) h.0.0.0.0, h.0))
            (state_dir-Ensures host (Staged config) _ (staged-Kept config)))
          λ dir.
            given-Ensures (dir ≡ dir_of s0) _ (λ s fs rs h. h.0)
              λ e.
                rw (e, same_paths)
                  (from-Ensures (Staged config) _ (λ s fs rs h. h.1)
                    (then-Ensures (Staged config) _ _ (operation-Ensures host (staged-Kept config))
                      (read-Ensures sep config)))

    -- SerializeConfigRevision leaves the revision in the active files, or the service as it was
    pub serialize-Ensures :
        Separates host
        → Ensures
            (Kept s0 rs0)
            (serialize_config_revision host revision)
            (λ active s fs rs. (active ≡ own) × ((config : Fields) × IsActivated config s fs rs))
            (Kept s0 rs0)
    unfolding serialize_config_revision
    serialize-Ensures sep = bind-Ensures _ _ _ (stage-Ensures host s0 rs0 revision sep) λ staged.
        given-Ensures (staged ≡ own) _ (λ s fs rs h. h.0)
          λ e. rw e (
            from-Ensures (λ s fs rs. (config : Fields) × Staged config s fs rs) _ (λ s fs rs h. h.1)
              (exists-Ensures Staged _ λ config.
                conclude-Ensures _ _ (λ active s fs rs h. (h.0, (config, h.1)))
                  (activate-Ensures sep config)))
