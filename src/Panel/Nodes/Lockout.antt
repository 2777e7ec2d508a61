-- ===== src/Panel/Nodes/Lockout.antt =====
-- A disabled node is locked out: Disable, RecordHeartbeat, FindLatestPendingConfigRevision and
-- ReportConfigRevision of services/panel-api/internal/storage/nodes.go.
use lenker_panel.Base.{
  ◌≡◌, refl, sym, String, Bool, true, false, ◌&&◌, none, List, [], ◌∷◌, All, Time, ok, err, Result,
  ok-injective, str_eq, Bool-cases, inl, inr,
}
use mathlib.Core.Path.{subst}
use lenker_panel.Crypto.{Crypto}
use lenker_panel.Panel.Nodes.{
  Node, NodeRow, Db, not_found, invalid_node_transition, find, update_where,
}
use lenker_panel.Panel.Nodes.Normalize.{is_valid_node_status, scan_node}
use lenker_panel.Panel.Nodes.Lifecycle.{
  NodeTransition, has_id, or_own, set_states, update_node, decide_disable, disable,
}
use lenker_panel.Panel.Nodes.Bootstrap.{hash_string}
use lenker_panel.Panel.Nodes.Heartbeat.{HeartbeatInput, is_authorized, record_heartbeat}
use lenker_panel.Panel.Nodes.Revisions.{find_latest_pending_config_revision}
use lenker_panel.Panel.Nodes.Revisions.Report.{
  ReportConfigRevisionInput, is_final, report_config_revision,
}
use lenker_panel.Panel.Nodes.Tables.{find-none, All-updated}
use lenker_panel.Panel.Nodes.Updates.{transition-Moved}

abbrev pub IsDisabled : String → NodeRow → Type 0
IsDisabled id row = has_id id row ≡ true → row.node.status ≡ "disabled"

and_false : (a : Bool) → (a && false) ≡ false
and_false true = refl
and_false false = refl

unauthorized :
    (id hash : String) (rows : List NodeRow)
    → All (IsDisabled id) rows
    → All (λ row. (has_id id row && is_authorized hash row) ≡ false) rows
unfolding is_authorized
unauthorized id hash [] h = tt
unauthorized id hash (row ∷ rows) h = elim (Bool-cases (has_id id row)) [
  | inl e ↦ (rw (e, h.0 e) (and_false _), unauthorized id hash rows h.1)
  | inr e ↦ (rw e refl, unauthorized id hash rows h.1)
]

-- The only state that Disable decides on.
decided-disabled :
    (node : Node) (next : NodeTransition)
    → decide_disable node ≡ ok next
    → or_own next.status node.status ≡ "disabled"
unfolding decide_disable
decided-disabled node next h = elim (Bool-cases (str_eq node.status "disabled")) [
  | inl e ↦ let k : Result.err invalid_node_transition ≡ ok next = rw e at h in cc
  | inr e ↦
      subst (λ t. or_own t.status node.status ≡ "disabled") (ok-injective _ refl (rw e at h)) refl
]

disable-IsDisabled :
    (now : Time) (id : String) (db : Db) (node : Node) (db' : Db)
    → disable now id db ≡ ok (node, db')
    → All (IsDisabled id) db'.nodes
unfolding disable set_states update_where scan_node
disable-IsDisabled now id db node db' h =
    let moved = transition-Moved now id decide_disable db node db' h in
    subst (λ d. All (IsDisabled id) d.nodes) (sym moved.updated.db_eq)
      (All-updated (IsDisabled id) (has_id id) _ db.nodes
        (λ x e k. decided-disabled (scan_node now moved.row) moved.next moved.decided)
        (λ x e k. let t : true ≡ false = rw k at e in cc))

-- Once a node is disabled, its heartbeats and its reports are refused whatever they say, and it is
-- given no configuration, whatever token it shows.
pub disabled_locked_out :
    (c : Crypto) (now : Time) (id : String) (db : Db) (node : Node) (db' : Db)
    → disable now id db ≡ ok (node, db')
    → (later : Time) (beat : HeartbeatInput) (report : ReportConfigRevisionInput) (token : String)
    → beat.node_id ≡ id
    → is_valid_node_status beat.status ≡ true
    → report.node_id ≡ id
    → is_final report.status ≡ true
    → (record_heartbeat c later beat db' ≡ err not_found)
      × (report_config_revision c later report db' ≡ err not_found)
      × (find_latest_pending_config_revision c id token db' ≡ err not_found)
unfolding record_heartbeat report_config_revision find_latest_pending_config_revision update_node
disabled_locked_out c now id db node db' h later beat report token b v r f =
    let off = disable-IsDisabled now id db node db' h in
    let refused : (hash : String)
        → find (λ row. has_id id row && is_authorized hash row) db'.nodes ≡ none =
      λ hash. find-none _ db'.nodes (unauthorized id hash db'.nodes off) in
    (
      rw (v, b, refused (hash_string c beat.node_token)) refl,
      rw (f, r, refused (hash_string c report.node_token)) refl,
      rw (refused (hash_string c token)) refl,
    )
