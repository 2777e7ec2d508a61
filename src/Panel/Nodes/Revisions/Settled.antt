-- ===== src/Panel/Nodes/Revisions/Settled.antt =====
-- What ReportConfigRevision of services/panel-api/internal/storage/nodes.go does to the node.
use lenker_panel.Base.{
  ℕ, ◌≡◌, refl, sym, ap, ◌∙◌, String, Bool, true, false, ◌&&◌, some, none, List, ok, >>=-eq-ok,
  ok-injective, require-eq-ok, guard-eq-ok, guard, require, Time, str_eq, eq_iff, Bool-cases, inl,
  inr, if◌then◌else◌, pos,
}
use lenker_panel.Crypto.{Crypto}
use lenker_panel.Panel.Nodes.{
  NodeRow, RevisionRow, Db, not_found, invalid_node_transition, find, check_updated, update_where,
}
use lenker_panel.Panel.Nodes.Lifecycle.{has_id}
use lenker_panel.Panel.Nodes.Bootstrap.{hash_string, null_string}
use lenker_panel.Panel.Nodes.Heartbeat.{is_authorized}
use lenker_panel.Panel.Nodes.Revisions.{ConfigRevision, scan_config_revision}
use lenker_panel.Panel.Nodes.Revisions.Report.{
  ReportConfigRevisionInput, reported_at, reported, report_node, is_reported, is_final, with_report,
  applied_node, failed_node, report_config_revision,
}
use lenker_panel.Panel.Nodes.Tables.{find-updated, find-true, find-none, All-updated}
use lenker_panel.Panel.Nodes.Revisions.Once.{reported_settled}
use lenker_panel.Panel.Subscriptions.ClosedMoves.{all_true}

module _ (c : Crypto) (input : ReportConfigRevisionInput) where
  -- The row that the report is about.
  abbrev pub is_reporting : NodeRow → Bool
  is_reporting row = has_id input.node_id row && is_authorized (hash_string c input.node_token) row

  -- the time and the error that the row keeps of a report that it has been applied, or has failed
  abbrev pub Records : Time → RevisionRow → Type 0
  Records at row =
      if str_eq input.status "applied"
      then (row.applied_at ≡ some at) × (row.failed_at ≡ none) × (row.error_message ≡ none)
      else (row.failed_at ≡ some at) × (row.error_message ≡ null_string input.error_message)

  -- The report names a pending revision, whose row it settles, so that it is no longer pending; the
  -- revision that is returned is that row.
  pub record SettlesRevision (now : Time) (db : Db) (revision : ConfigRevision) (db' : Db)
      : Type 0 where
    pub row : RevisionRow
    pub pending : find (is_reported input) db.revisions ≡ some row
    pub settle : RevisionRow → RevisionRow
    pub stored : db'.revisions ≡ update_where (is_reported input) settle db.revisions
    pub returned : revision ≡ scan_config_revision (settle row)
    pub gone : find (is_reported input) db'.revisions ≡ none
    pub id : revision.id ≡ input.revision_id
    pub node_id : revision.node_id ≡ input.node_id
    pub number : revision.revision_number ≡ row.revision_number
    pub payload : (settle row).payload ≡ row.payload
    pub status : (settle row).status ≡ input.status
    pub recorded : Records (reported_at now input) (settle row)

  -- The node's row before and after the report.
  pub record SettlesNode (db : Db) (revision : ConfigRevision) (db' : Db) : Type 0 where
    pub before : NodeRow
    pub after : NodeRow
    pub found : find is_reporting db.nodes ≡ some before
    pub updated : find is_reporting db'.nodes ≡ some after
    pub active : after.node.active_revision ≡ (
        if str_eq input.status "applied"
        then pos revision.revision_number
        else before.node.active_revision)
    pub kept_status : after.node.status ≡ before.node.status
    pub kept_drain_state : after.node.drain_state ≡ before.node.drain_state

  pub record IsSettled (now : Time) (db : Db) (revision : ConfigRevision) (db' : Db) : Type 0 where
    pub of_revision : SettlesRevision now db revision db'
    pub of_node : SettlesNode db revision db'

  still_reporting :
      (now at : Time) (n : ℕ) (row : NodeRow)
      → is_reporting (report_node now at input n row) ≡ is_reporting row
  unfolding report_node applied_node failed_node with_report is_authorized
  still_reporting now at n row = elim (Bool-cases (str_eq input.status "applied")) [
    | inl e ↦ rw e refl
    | inr e ↦ rw e refl
  ]

  final_text :
      (b : Bool) (s : String)
      → is_final s ≡ true
      → str_eq s "applied" ≡ b
      → (if b then "applied" else "failed") ≡ s
  final_text true s h e = sym ((eq_iff s "applied").0 e)
  final_text false s h e = sym ((eq_iff s "failed").0 (rw e at h))

  -- What the first UPDATE sets and what it leaves.
  outcome :
      (at : Time) (row : RevisionRow)
      → is_final input.status ≡ true
      → ((reported at input row).status ≡ input.status)
        × Records at (reported at input row)
        × ((reported at input row).revision_number ≡ row.revision_number)
        × ((reported at input row).payload ≡ row.payload)
        × ((reported at input row).id ≡ row.id)
        × ((reported at input row).node_id ≡ row.node_id)
  unfolding reported
  outcome at row h = elim (Bool-cases (str_eq input.status "applied")) [
    | inl e ↦ rw e (final_text true input.status h e, (refl, refl, refl), refl, refl, refl, refl)
    | inr e ↦ rw e (final_text false input.status h e, (refl, refl), refl, refl, refl, refl)
  ]

  -- What the second UPDATE leaves and what it sets.
  node_after :
      (now at : Time) (n : ℕ) (row : NodeRow)
      → ((report_node now at input n row).node.active_revision
          ≡ (if str_eq input.status "applied" then pos n else row.node.active_revision))
        × ((report_node now at input n row).node.status ≡ row.node.status)
        × ((report_node now at input n row).node.drain_state ≡ row.node.drain_state)
  unfolding report_node applied_node failed_node with_report
  node_after now at n row = elim (Bool-cases (str_eq input.status "applied")) [
    | inl e ↦ rw e (refl, refl, refl)
    | inr e ↦ rw e (refl, refl, refl)
  ]

  -- The pending row that a report names.
  named :
      (row : RevisionRow)
      → is_reported input row ≡ true
      → (row.id ≡ input.revision_id) × (row.node_id ≡ input.node_id)
  unfolding is_reported
  named row h =
      let (node, id) =
        all_true (str_eq row.node_id input.node_id) (str_eq row.id input.revision_id)
          (str_eq row.status "pending") h in
      ((eq_iff row.id input.revision_id).0 id, (eq_iff row.node_id input.node_id).0 node)

  none_pending :
      (now : Time) (db : Db) (revisions : List RevisionRow)
      → revisions
        ≡ update_where (is_reported input) (reported (reported_at now input) input) db.revisions
      → find (is_reported input) revisions ≡ none
  none_pending now db revisions e =
      ap (find (is_reported input)) e
      ∙ find-none _ _ (
          All-updated (λ r. is_reported input r ≡ false) (is_reported input)
            (reported (reported_at now input) input) db.revisions
            (λ r _. reported_settled (reported_at now input) input input r) (λ r k. k))

  revision_settles :
      (now : Time) (db : Db) (revision : ConfigRevision) (db' : Db) (row : RevisionRow)
      → is_final input.status ≡ true
      → find (is_reported input) db.revisions ≡ some row
      → revision ≡ scan_config_revision (reported (reported_at now input) input row)
      → db'.revisions
        ≡ update_where (is_reported input) (reported (reported_at now input) input) db.revisions
      → SettlesRevision now db revision db'
  unfolding scan_config_revision
  revision_settles now db revision db' row final pending answer stored =
      let (status, recorded, number, payload, same_id, same_node) =
        outcome (reported_at now input) row final in
      let (id, node_id) = named row (find-true (is_reported input) db.revisions row pending) in
      record {
        row = row;
        pending = pending;
        settle = reported (reported_at now input) input;
        stored = stored;
        returned = answer;
        gone = none_pending now db db'.revisions stored;
        id = ap (λ x. x.id) answer ∙ same_id ∙ id;
        node_id = ap (λ x. x.node_id) answer ∙ same_node ∙ node_id;
        number = ap (λ x. x.revision_number) answer ∙ number;
        payload = payload;
        status = status;
        recorded = recorded;
      }

  node_settles :
      (now : Time) (db : Db) (revision : ConfigRevision) (db' : Db) (before : NodeRow)
      (row : RevisionRow)
      → is_final input.status ≡ true
      → find is_reporting db.nodes ≡ some before
      → revision ≡ scan_config_revision (reported (reported_at now input) input row)
      → db'.nodes
        ≡ update_where is_reporting
            (report_node now (reported_at now input) input row.revision_number)
            db.nodes
      → SettlesNode db revision db'
  unfolding scan_config_revision
  node_settles now db revision db' before row final found answer nodes =
      let at = reported_at now input in
      let (active, status, drain_state) = node_after now at row.revision_number before in
      let number = (outcome at row final).2 in
      record {
        before = before;
        after = report_node now at input row.revision_number before;
        found = found;
        updated =
            ap (find is_reporting) nodes
            ∙ find-updated is_reporting (report_node now at input row.revision_number) db.nodes
                before (still_reporting now at row.revision_number) found;
        active =
            active
            ∙ ap (λ n. if str_eq input.status "applied" then pos n else before.node.active_revision)
                (sym number ∙ sym (ap (λ x. x.revision_number) answer));
        kept_status = status;
        kept_drain_state = drain_state;
      }

  -- An accepted report settles the pending revision that it names, in the table as in the answer, with
  -- the outcome, the time and the error that it names; the revision keeps its number and its payload,
  -- and is no longer pending. The node's active revision becomes the revision's number if it has been
  -- applied, and stays if it has failed. Whether the node is disabled or draining does not change.
  pub report-IsSettled :
      (now : Time) (db : Db) (revision : ConfigRevision) (db' : Db)
      → report_config_revision c now input db ≡ ok (revision, db')
      → IsSettled now db revision db'
  unfolding report_config_revision
  report-IsSettled now db revision db' h =
      let at = reported_at now input in
      let (_, final, h1) = >>=-eq-ok (guard (is_final input.status) invalid_node_transition) _ h in
      let (before, found, h2) = >>=-eq-ok (require (find is_reporting db.nodes) not_found) _ h1 in
      let (row, pending, h3) =
        >>=-eq-ok (require (find (is_reported input) db.revisions) not_found) _ h2 in
      let (_, _, h4) =
        >>=-eq-ok
          (check_updated is_reporting (report_node now at input row.revision_number) db.nodes) _
          h3 in
      let e = ok-injective _ refl h4 in
      record {
        of_revision =
            revision_settles now db revision db' row (guard-eq-ok _ _ final)
              (require-eq-ok _ not_found row pending) (sym (ap (λ x. x.0) e))
              (sym (ap (λ x. x.1.revisions) e));
        of_node =
            node_settles now db revision db' before row (guard-eq-ok _ _ final)
              (require-eq-ok _ not_found before found) (sym (ap (λ x. x.0) e))
              (sym (ap (λ x. x.1.nodes) e));
      }
