-- ===== src/Agent/Applying/Staged.antt =====
-- What SerializeConfigRevision leaves in the files and in the status.
use lenker_panel.Base.{
  ◌≡◌, refl, ◌∙◌, ap, String, some, is_empty, Option-cases, eq_refl, Bool-cases, inl, inr,
  trim_space,
}
use lenker_panel.Json.{Fields, get, as_object}
use lenker_panel.Agent.Model.{ConfigRevision, Identity}
use lenker_panel.Agent.Service.{Service}
use lenker_panel.Agent.Machine.{
  pure, returned, gets, ◌>>=◌, ◌>>◌, document, is_json, Files, Host, Action, with_file, look_up,
  read_file,
}
use lenker_panel.Agent.Machine.Store.{look_up-with_file, Separates, join-other}
use lenker_panel.Agent.Machine.Outcomes.{
  Reports, Claim, Ensures, Implies, conclude-Ensures, bind-Ensures, then-Ensures, pure-Ensures,
  modify-Ensures, operation-Ensures, write_file_atomic-Ensures,
}
use lenker_panel.Agent.Staging.{
  ConfigArtifact, entries, artifact_of, metadata_of, state_dir, config_of, stage_config_revision,
  read_json,
}

-- What a failed attempt leaves alone: what the service says is active, and who it is.
abbrev pub Same : Service → Service → Type 0
Same a b =
    (b.identity ≡ a.identity)
    × (b.status.active_revision ≡ a.status.active_revision)
    × (b.status.last_applied_revision ≡ a.status.last_applied_revision)
    × (b.status.last_runtime_prepared ≡ a.status.last_runtime_prepared)
    × (b.status.config_artifact_path ≡ a.status.config_artifact_path)

abbrev pub Kept : Service → Reports → Claim
Kept s0 rs0 s fs rs = Same s0 s × (rs ≡ rs0)

abbrev pub dir_of : Service → String
dir_of s = trim_space s.identity.state_dir

module _ (host : Host) where
  pub state_dir-Ensures :
      (P E : Claim)
      → Implies P E
      → Ensures P (state_dir host) (λ dir s fs rs. P s fs rs × (dir ≡ dir_of s)) E
  unfolding state_dir gets returned pure ◌>>=◌ ◌>>◌
  state_dir-Ensures P E k = record {
    run = λ w h. elim (Bool-cases (is_empty (dir_of w.service))) [
      | inl e ↦ rw e (k w.service w.files w.reports h)
      | inr e ↦ rw e (h, refl)
    ];
  }

  pub config_of-Ensures :
      (P E : Claim) (revision : ConfigRevision)
      → Implies P E
      → Ensures P
          (config_of host revision)
          (λ config s fs rs.
            P s fs rs × (as_object (get "config" (entries revision.bundle)) ≡ some config))
          E
  unfolding config_of returned
  config_of-Ensures P E revision k = record {
    run = λ w h. elim (Option-cases (as_object (get "config" (entries revision.bundle)))) [
      | inl e ↦ rw e (k w.service w.files w.reports h)
      | inr (m, e) ↦ rw e (h, refl)
    ];
  }

  pub read_json-Ensures :
      (P E : Claim) (path : String)
      → Implies P E
      → Ensures P
          (read_json host path)
          (λ body s fs rs. P s fs rs × (look_up path fs ≡ some body))
          E
  unfolding read_json read_file returned pure ◌>>=◌ ◌>>◌
  read_json-Ensures P E path k = record {
    run = λ w h. elim (Bool-cases (host.fails w.operations)) [
      | inl e ↦ rw e (k w.service w.files w.reports h)
      | inr e ↦ elim (Option-cases (look_up path w.files)) [
        | inl missing ↦ rw (e, missing) (k w.service w.files w.reports h)
        | inr (body, is) ↦ elim (Bool-cases (is_json body)) [
          | inl valid ↦ rw (e, is, valid) (h, is)
          | inr no_json ↦ rw (e, is, no_json) (k w.service w.files w.reports h)
        ]
      ]
    ];
  }

  module _ (s0 : Service) (rs0 : Reports) (revision : ConfigRevision) where
    abbrev pub artifact : ConfigArtifact
    artifact = artifact_of host (dir_of s0) revision

    -- the configuration of the revision, and its metadata, are in the staged files
    abbrev pub IsStaged : Fields → Claim
    IsStaged config s fs rs =
        Kept s0 rs0 s fs rs
        × (as_object (get "config" (entries revision.bundle)) ≡ some config)
        × (look_up artifact.staged_config_path fs ≡ some (document config))
        × (look_up artifact.staged_metadata_path fs
            ≡ some (document (metadata_of host revision artifact)))

    -- what is known before the files are written
    abbrev Staging : String → Fields → Claim
    Staging dir config s fs rs =
        Kept s0 rs0 s fs rs
        × (dir ≡ dir_of s0)
        × (as_object (get "config" (entries revision.bundle)) ≡ some config)

    abbrev Written : String → Fields → Claim
    Written dir config s fs rs =
        Staging dir config s fs rs
        × (look_up (artifact_of host dir revision).staged_config_path fs ≡ some (document config))

    abbrev Written_both : String → Fields → Claim
    Written_both dir config s fs rs =
        Staging dir config s fs rs
        × (look_up (artifact_of host dir revision).staged_config_path fs ≡ some (document config))
        × (look_up (artifact_of host dir revision).staged_metadata_path fs
            ≡ some (document (metadata_of host revision (artifact_of host dir revision))))

    wrote_metadata :
        (dir : String) (config : Fields)
        → Separates host
        → (s : Service) (fs : Files) (rs : Reports) → Written dir config s fs rs
        → Written_both dir config s
            (with_file
              (artifact_of host dir revision).staged_metadata_path
              (document (metadata_of host revision (artifact_of host dir revision)))
              fs)
            rs
    unfolding artifact_of
    wrote_metadata dir config sep s fs rs h = (
      h.0,
      simp
          (
            look_up-with_file,
            join-other host sep dir "staged/metadata.json" "staged/config.json" refl,
          )
          h.1,
      simp (look_up-with_file, eq_refl),
    )

    begin-Ensures :
        {B : Type 0} (S : B → Claim) (f : String → Fields → Action B)
        → ((dir : String) (config : Fields)
            → Ensures (Staging dir config) (f dir config) S (Kept s0 rs0))
        → Ensures
            (Kept s0 rs0)
            (do dir ← state_dir host; config ← config_of host revision; f dir config)
            S
            (Kept s0 rs0)
    begin-Ensures S f k =
        bind-Ensures _ _ _ (state_dir-Ensures (Kept s0 rs0) _ (λ s fs rs h. h)) λ dir.
          bind-Ensures (Staging dir) _ _
            (conclude-Ensures (Staging dir) _
              (λ config s fs rs h.
                (h.0.0, h.0.1 ∙ ap (λ (t : Identity). trim_space t.state_dir) h.0.0.0.0, h.1))
              (config_of-Ensures _ _ revision (λ s fs rs h. h.0)))
            (k dir)

    pub stage-Ensures :
        Separates host
        → Ensures
            (Kept s0 rs0)
            (stage_config_revision host revision)
            (λ staged s fs rs. (staged ≡ artifact) × ((config : Fields) × IsStaged config s fs rs))
            (Kept s0 rs0)
    unfolding stage_config_revision
    stage-Ensures sep = begin-Ensures _ _ λ dir config.
        let kept : Implies (Staging dir config) (Kept s0 rs0) = λ s fs rs h. h.0 in
        then-Ensures (Staging dir config) _ _ (operation-Ensures host kept) (
          then-Ensures (Staging dir config) _ _ (operation-Ensures host kept) (
            then-Ensures (Staging dir config) _ _
              (write_file_atomic-Ensures host _ _ _ (λ s fs rs h. h) kept)
              (then-Ensures (Staging dir config) _ _
                (write_file_atomic-Ensures host _ _ _ (λ s fs rs h. h) kept)
                (then-Ensures (Written dir config) _ _
                  (write_file_atomic-Ensures host _ _ _
                    (λ s fs rs h. (h, simp (look_up-with_file, eq_refl))) kept)
                  (then-Ensures (Written_both dir config) _ _
                    (write_file_atomic-Ensures host _ _ _ (wrote_metadata dir config sep)
                      (λ s fs rs h. h.0.0))
                    (then-Ensures (Written_both dir config) _ _ (modify-Ensures _ _ (λ w h. h)) (
                      pure-Ensures _ _ (λ s fs rs h.
                        rw (← h.0.1) (refl, (config, (h.0.0, h.0.2, h.1, h.2)))))))))))
