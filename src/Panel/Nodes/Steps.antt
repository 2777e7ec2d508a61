-- ===== src/Panel/Nodes/Steps.antt =====
-- Every step of a node's states succeeds: Drain, Undrain, Disable and Enable of
-- services/panel-api/internal/storage/nodes.go.
use mathlib.Core.Path.{subst}
use mathlib.Core.Option.{some-injective}
use lenker_panel.Base.{
  ◌≡◌, refl, ◌∙◌, String, Bool, true, some, List, [], ◌∷◌, All, ok, >>=-eq-ok, guard-eq-ok, guard,
  Time, Bool-cases, inl, inr,
}
use lenker_panel.Json.Gate.{contains}
use lenker_panel.Panel.Nodes.{
  Node, NodeRow, Db, constraint_violated, find, update_where, check_node, check_runtime,
  check_states,
}
use lenker_panel.Panel.Nodes.Normalize.{scan_node}
use lenker_panel.Panel.Nodes.Lifecycle.{
  NodeTransition, has_id, or_own, set_states, update_node, transition, decide_drain, decide_undrain,
  decide_disable, decide_enable,
}
use lenker_panel.Panel.Nodes.Tables.{check-kept}
use lenker_panel.Panel.Nodes.States.{
  Operation, Step, draining, undrained, disabled, enabled, decide, run, run-transition,
}

kept :
    (row : NodeRow) (s d : String) (now : Time)
    → check_node row.node ≡ ok tt
    → contains ("pending" ∷ "active" ∷ "unhealthy" ∷ "drained" ∷ "disabled" ∷ []) s ≡ true
    → contains ("active" ∷ "draining" ∷ "drained" ∷ []) d ≡ true
    → check_node (set_states s d now row).node ≡ ok tt
unfolding check_node check_runtime check_states set_states
kept row s d now h a b =
    let (_, _, h1) =
      >>=-eq-ok
        (guard
          (contains ("pending" ∷ "active" ∷ "unhealthy" ∷ "drained" ∷ "disabled" ∷ [])
            row.node.status)
          (constraint_violated "nodes_status_check"))
        _ h in
    let (_, _, h2) =
      >>=-eq-ok
        (guard (contains ("active" ∷ "draining" ∷ "drained" ∷ []) row.node.drain_state)
          (constraint_violated "nodes_drain_state_check"))
        _ h1 in
    rw (a, b) h2

-- The states of a row that meets the constraints, and so those that a step comes to.
allowed :
    (node : Node)
    → check_node node ≡ ok tt
    → (contains ("pending" ∷ "active" ∷ "unhealthy" ∷ "drained" ∷ "disabled" ∷ []) node.status
        ≡ true)
      × (contains ("active" ∷ "draining" ∷ "drained" ∷ []) node.drain_state ≡ true)
unfolding check_node
allowed node h =
    let (_, a, h1) =
      >>=-eq-ok
        (guard
          (contains ("pending" ∷ "active" ∷ "unhealthy" ∷ "drained" ∷ "disabled" ∷ []) node.status)
          (constraint_violated "nodes_status_check"))
        _ h in
    let (_, b, _) =
      >>=-eq-ok
        (guard (contains ("active" ∷ "draining" ∷ "drained" ∷ []) node.drain_state)
          (constraint_violated "nodes_drain_state_check"))
        _ h1 in
    (guard-eq-ok _ _ a, guard-eq-ok _ _ b)

All-kept :
    (id s d : String) (now : Time) (rows : List NodeRow)
    → All (λ r. check_node r.node ≡ ok tt) rows
    → contains ("pending" ∷ "active" ∷ "unhealthy" ∷ "drained" ∷ "disabled" ∷ []) s ≡ true
    → contains ("active" ∷ "draining" ∷ "drained" ∷ []) d ≡ true
    → All (λ r. has_id id r ≡ true → check_node (set_states s d now r).node ≡ ok tt) rows
All-kept id s d now [] h a b = tt
All-kept id s d now (row ∷ rows) h a b =
    ((λ _. kept row s d now h.0 a b), All-kept id s d now rows h.1 a b)

find-All :
    (P : NodeRow → Type 0) (p : NodeRow → Bool) (rows : List NodeRow) (row : NodeRow)
    → All P rows
    → find p rows ≡ some row
    → P row
unfolding find
find-All P p [] row h e = cc
find-All P p (x ∷ rows) row h e = elim (Bool-cases (p x)) [
  | inl t ↦ subst P (some-injective _ _ (rw t at e)) h.0
  | inr t ↦ find-All P p rows row h.1 (rw t at e)
]

stepped_allowed :
    (op : Operation) (s d s' d' : String)
    → Step op s d s' d'
    → contains ("pending" ∷ "active" ∷ "unhealthy" ∷ "drained" ∷ "disabled" ∷ []) s ≡ true
    → contains ("active" ∷ "draining" ∷ "drained" ∷ []) d ≡ true
    → (contains ("pending" ∷ "active" ∷ "unhealthy" ∷ "drained" ∷ "disabled" ∷ []) s' ≡ true)
      × (contains ("active" ∷ "draining" ∷ "drained" ∷ []) d' ≡ true)
stepped_allowed _ _ _ _ _ (draining s d x y) a b = (a, refl)
stepped_allowed _ _ _ _ _ (undrained s d x y) a b = (a, refl)
stepped_allowed _ _ _ _ _ (disabled s d x) a b = (refl, b)
stepped_allowed _ _ _ _ _ (enabled s d x) a b = (refl, b)

decides :
    (op : Operation) (s d s' d' : String)
    → Step op s d s' d'
    → (node : Node) → node.status ≡ s
    → node.drain_state ≡ d
    → (next : NodeTransition) × (decide op node ≡ ok next)
      × (or_own next.status node.status ≡ s')
      × (or_own next.drain_state node.drain_state ≡ d')
unfolding decide_drain decide_undrain decide_disable decide_enable
decides _ _ _ _ _ (draining s d x y) node e f =
    (record { status = ""; drain_state = "draining" }, rw (e, x, f, y) refl, e, refl)
decides _ _ _ _ _ (undrained s d x y) node e f =
    (record { status = ""; drain_state = "active" }, rw (e, x, f, y) refl, e, refl)
decides _ _ _ _ _ (disabled s d x) node e f =
    (record { status = "disabled"; drain_state = "" }, rw (e, x) refl, refl, f)
decides _ _ _ _ _ (enabled s d x) node e f =
    (record { status = "unhealthy"; drain_state = "" }, rw (e, x) refl, refl, f)

-- A step from the states that a node has is carried out, in tables that meet their constraints.
pub Step-run :
    (op : Operation) (now : Time) (id s' d' : String) (db : Db) (row : NodeRow)
    → All (λ r. check_node r.node ≡ ok tt) db.nodes
    → find (has_id id) db.nodes ≡ some row
    → Step op row.node.status row.node.drain_state s' d'
    → run op now id db
      ≡ ok (
        scan_node now (set_states s' d' now row),
        record db { nodes = update_where (has_id id) (set_states s' d' now) db.nodes },
      )
unfolding transition update_node scan_node
Step-run op now id s' d' db row ok_rows found step =
    let (next, decided, s, d) = decides op _ _ s' d' step (scan_node now row) refl refl in
    let (a, b) =
      allowed row.node
        (find-All (λ r. check_node r.node ≡ ok tt) (has_id id) db.nodes row ok_rows found) in
    let (a', b') = stepped_allowed op _ _ s' d' step a b in
    let checked =
      check-kept (has_id id) (set_states s' d' now) db.nodes
        (All-kept id s' d' now db.nodes ok_rows a' b') in
    run-transition op now id db ∙ rw (found, decided, s, d, checked) refl
