-- ===== src/Agent/Polling/Reported.antt =====
-- What PollPendingConfigRevision reports.
use lenker_panel.Base.{
  ◌≡◌, refl, ap, is_zero, ◌⊎◌, inl, inr, true, false, Option, none, some, ◌∷◌, ok, err, Result,
  is_blank, is_empty, Time, Bool-cases,
}
use lenker_panel.Crypto.{Crypto}
use lenker_panel.Json.{Fields, get, as_object}
use lenker_panel.Agent.Model.{ConfigRevision, AgentError}
use lenker_panel.Agent.Service.{Service, track_runtime_failure, track_validation_result}
use lenker_panel.Agent.Machine.{
  document, Files, ConfigRevisionReport, Host, World, Action, look_up, pure, raise, modify, gets,
  returned, ◌>>=◌, ◌>>◌,
}
use lenker_panel.Agent.Machine.Store.{Separates}
use lenker_panel.Agent.Machine.Outcomes.{
  Reports, Claim, At, Ends, Ensures, bind-Ensures, pure-Ensures, time_now-Ensures,
}
use lenker_panel.Agent.Staging.{entries, active_config, state_file}
use lenker_panel.Agent.Applying.{config_revision_error_message, apply_config_revision_with_context}
use lenker_panel.Agent.Applying.Staged.{Same, Kept, dir_of}
use lenker_panel.Agent.Applying.Ended.{IsSaved, Ended, apply-Ensures}
use lenker_panel.Agent.Polling.{
  failed_report, applied_report, answer, report, track_failure, report_time, settle, attempt,
  apply_and_report, poll_pending_config_revision, fetch,
}

-- what the panel answers to a report that it takes, and to one that it does not take
abbrev pub IsTaken : Option AgentError → Type 0
IsTaken answered = answered ≡ none

abbrev pub IsRefused : Option AgentError → Type 0
IsRefused answered = (e : AgentError) × (answered ≡ some e)

module _ (host : Host) (s0 : Service) (rs0 : Reports) (revision : ConfigRevision) where
  -- the service says that the revision is active, and the active file holds its configuration
  abbrev pub IsActive : Service → Files → Type 0
  IsActive s fs =
      (s.status.active_revision ≡ revision.revision_number)
      × ((config : Fields) × (as_object (get "config" (entries revision.bundle)) ≡ some config)
          × (look_up (active_config host (dir_of s0)) fs ≡ some (document config)))

  -- one report has been sent, that the revision is applied, and the panel has answered so
  abbrev pub SaysApplied : (Option AgentError → Type 0) → Claim
  SaysApplied Answered s fs rs =
      (sent : ConfigRevisionReport) × (rs ≡ (revision.id, sent) ∷ rs0)
      × (sent.status ≡ "applied")
      × (sent.active_revision ≡ revision.revision_number)
      × IsActive s fs
      × Answered (host.reported sent)

  -- one report has been sent, that the revision has failed
  abbrev pub SaysFailed : Claim
  SaysFailed s fs rs =
      (sent : ConfigRevisionReport) × (rs ≡ (revision.id, sent) ∷ rs0)
      × (sent.status ≡ "failed")
      × (sent.last_applied_revision ≡ s.status.last_applied_revision)
      × (Same s0 s ⊎ IsActive s fs)

  abbrev Says : Claim
  Says s fs rs = SaysApplied IsRefused s fs rs ⊎ SaysFailed s fs rs

  abbrev Outcome : Result AgentError (Unit {0}) → Claim
  Outcome (ok _) s fs rs = (config : Fields) × IsSaved host s0 rs0 revision config s fs rs
  Outcome (err e) s fs rs = Ended host s0 rs0 revision s fs rs

  attempted :
      (r : Result AgentError (Unit {0})) (w : World)
      → Ends
          (λ _ s fs rs. (config : Fields) × IsSaved host s0 rs0 revision config s fs rs)
          (Ended host s0 rs0 revision)
          (r, w)
      → At (Outcome r) w
  attempted (ok _) w h = h
  attempted (err e) w h = h

  attempt-Ensures :
      (c : Crypto)
      → Separates host
      → is_blank (state_file host (dir_of s0)) ≡ false
      → Ensures (Kept s0 rs0) (attempt host c revision) Outcome Says
  unfolding attempt
  attempt-Ensures c sep visible = record {
    run = λ w h.
        let (r, w') = apply_config_revision_with_context host c revision w in
        attempted r w' ((apply-Ensures host s0 rs0 revision c sep visible).run w h);
  }

  sent_if :
      {B : Type 0} (S : B → Claim) (o : Option AgentError) (k : Action B) (w : World)
      → ((e : AgentError) → o ≡ some e → At Says w)
      → (o ≡ none → Ends S Says (k w))
      → Ends S Says (elim (answer o) as (λ _. Result AgentError B × World) [
        | ok a ↦ k w
        | err e ↦ (err e, w)
      ])
  sent_if S none k w h g = g refl
  sent_if S (some e) k w h g = h e refl

  failed_says :
      (at : Time) (e : AgentError) (w : World)
      → At (Ended host s0 rs0 revision) w
      → At SaysFailed
          (report host revision
            (λ s. failed_report s (config_revision_error_message e) at)
            (track_failure host at e w)).1
  unfolding report track_failure failed_report track_validation_result track_runtime_failure
  failed_says at e w (inl k) =
      let sent =
        failed_report (track_failure host at e w).service.status (config_revision_error_message e)
          at in
      (sent, ap (λ (t : Reports). (revision.id, sent) ∷ t) k.1, refl, refl, inl k.0)
  failed_says at e w (inr (config, a)) =
      let sent =
        failed_report (track_failure host at e w).service.status (config_revision_error_message e)
          at in
      (
        sent,
        ap (λ (t : Reports). (revision.id, sent) ∷ t) a.5,
        refl,
        refl,
        inr (a.1, (config, a.6, a.7)),
      )

  settle-Ensures :
      (at : Time) (r : Result AgentError (Unit {0}))
      → Ensures
          (Outcome r)
          (settle host revision at r)
          (λ b s fs rs. (b ≡ true) × SaysApplied IsTaken s fs rs)
          Says
  unfolding settle report track_failure failed_report applied_report pure raise modify ◌>>=◌ ◌>>◌
      track_validation_result track_runtime_failure
  settle-Ensures at (ok _) = record {
    run = λ w h.
        let sent =
          applied_report (track_validation_result at "applied" "" at w.service.status) revision
            at in
        let same = ap (λ (t : Reports). (revision.id, sent) ∷ t) h.1.0.5 in
        let is_active : IsActive w.service w.files = (h.1.0.1, (h.0, h.1.0.6, h.1.0.7)) in
        sent_if _ (host.reported sent) (pure true) _
          (λ e k. inl (sent, same, refl, refl, is_active, (e, k)))
          (λ k. (refl, (sent, same, refl, refl, is_active, k)));
  }
  settle-Ensures at (err e) = record {
    run = λ w h.
        let says = failed_says at e w h in
        sent_if _ (host.reported _) (raise e) _ (λ _ _. inr says) (λ _. inr says);
  }

  time-Ensures : (now : Time) → Ensures (Kept s0 rs0) (report_time host now) (λ _. Kept s0 rs0) Says
  unfolding report_time
  time-Ensures now = elim (Bool-cases (is_zero now)) [
    | inl e ↦ rw e (time_now-Ensures host)
    | inr e ↦ rw e (pure-Ensures _ _ (λ s fs rs h. h))
  ]

  report-Ensures :
      (c : Crypto) (now : Time)
      → Separates host
      → is_blank (state_file host (dir_of s0)) ≡ false
      → Ensures
          (Kept s0 rs0)
          (apply_and_report host c now revision)
          (λ b s fs rs. (b ≡ true) × SaysApplied IsTaken s fs rs)
          Says
  unfolding apply_and_report
  report-Ensures c now sep visible =
      bind-Ensures _ _ _ (time-Ensures now)
        λ at. bind-Ensures Outcome _ _ (attempt-Ensures c sep visible) (settle-Ensures at)

fetched :
    (host : Host) (revision : ConfigRevision) (w : World)
    → is_empty w.service.identity.node_id ≡ false
    → is_empty w.service.identity.node_token ≡ false
    → host.pending ≡ ok (some revision)
    → fetch host true w ≡ (ok (some revision), w)
unfolding fetch gets returned ◌>>=◌ ◌>>◌
fetched host revision w node token pending = rw (node, token, pending) refl

polled_revision :
    (host : Host) (c : Crypto) (now : Time) (revision : ConfigRevision) (w : World)
    → fetch host true w ≡ (ok (some revision), w)
    → poll_pending_config_revision host c true now w ≡ apply_and_report host c now revision w
unfolding poll_pending_config_revision fetch returned gets pure ◌>>=◌ ◌>>◌
polled_revision host c now revision w e =
    rw
      (
        ap (λ (p : Result AgentError (Option ConfigRevision) × World). p.0) e,
        ap (λ (p : Result AgentError (Option ConfigRevision) × World). p.1) e,
      )
      refl

-- A poll of a registered agent with a node token, for which a revision is pending, sends exactly one
-- report, on that revision. Where it returns, it returns true, and the report, which the panel took,
-- says that the revision has been applied, with its number, which the service then has as active, and
-- the active file holds its configuration. Where it fails, the report says that, and the panel did not
-- take it; or it says that the revision has failed, and what the service says is active is as before, or
-- the revision's, where all but the writing of state.json was done.
pub poll-Says :
    (host : Host) (c : Crypto) (now : Time) (revision : ConfigRevision) (w : World)
    → Separates host
    → is_blank (state_file host (dir_of w.service)) ≡ false
    → is_empty w.service.identity.node_id ≡ false
    → is_empty w.service.identity.node_token ≡ false
    → host.pending ≡ ok (some revision)
    → Ends
        (λ b s fs rs. (b ≡ true) × SaysApplied host w.service w.reports revision IsTaken s fs rs)
        (λ s fs rs.
          SaysApplied host w.service w.reports revision IsRefused s fs rs
          ⊎ SaysFailed host w.service w.reports revision s fs rs)
        (poll_pending_config_revision host c true now w)
poll-Says host c now revision w sep visible node token pending =
    rw (polled_revision host c now revision w (fetched host revision w node token pending)) (
      (report-Ensures host w.service w.reports revision c now sep visible).run w
        ((refl, refl, refl, refl, refl), refl))
