-- ===== src/Panel/Nodes/States.antt =====
-- The states of a node, and that Drain, Undrain, Disable and Enable of
-- services/panel-api/internal/storage/nodes.go step through them.
use mathlib.Core.Path.{subst}
use lenker_panel.Base.{
  ◌≡◌, refl, sym, ap, ◌∙◌, String, Bool, true, false, not, some, ok, ◌>>◌, ok-injective, guard,
  Result, Time, str_eq,
}
use lenker_panel.Panel.Nodes.{
  Node, NodeRow, Db, NodesError, Exec, invalid_node_transition, find, update_where,
}
use lenker_panel.Panel.Nodes.Normalize.{scan_node}
use lenker_panel.Panel.Nodes.Lifecycle.{
  NodeTransition, has_id, or_own, set_states, transition, decide_drain, decide_undrain,
  decide_disable, decide_enable, drain, undrain, disable, enable,
}
use lenker_panel.Panel.Nodes.Updates.{transition-Moved}

pub data Operation : Type 0 where
  to_drain to_undrain to_disable to_enable : Operation

-- What an administrator may do to a node, in which states, and what it comes to.
pub data Step : Operation → String → String → String → String → Type 0 where
  draining :
      (s d : String)
      → str_eq s "disabled" ≡ false
      → str_eq d "draining" ≡ false
      → Step to_drain s d s "draining"
  undrained :
      (s d : String)
      → str_eq s "disabled" ≡ false
      → str_eq d "active" ≡ false
      → Step to_undrain s d s "active"
  disabled : (s d : String) → str_eq s "disabled" ≡ false → Step to_disable s d "disabled" d
  enabled : (s d : String) → str_eq s "disabled" ≡ true → Step to_enable s d "unhealthy" d

abbrev pub decide : Operation → Node → Result NodesError NodeTransition
decide to_drain = decide_drain
decide to_undrain = decide_undrain
decide to_disable = decide_disable
decide to_enable = decide_enable

abbrev pub run : Operation → Time → String → Exec Node
run to_drain = drain
run to_undrain = undrain
run to_disable = disable
run to_enable = enable

pub run-transition :
    (op : Operation) (now : Time) (id : String) (db : Db)
    → run op now id db ≡ transition now id (decide op) db
unfolding drain undrain disable enable
run-transition to_drain now id db = refl
run-transition to_undrain now id db = refl
run-transition to_disable now id db = refl
run-transition to_enable now id db = refl

abbrev Steps : Operation → Node → NodeTransition → Type 0
Steps op node next =
    Step op node.status node.drain_state (or_own next.status node.status)
      (or_own next.drain_state node.drain_state)

guarded :
    (b : Bool) (rest : Result NodesError NodeTransition) (next : NodeTransition)
    → (guard b invalid_node_transition >> rest) ≡ ok next
    → (b ≡ true) × (rest ≡ ok next)
guarded true rest next h = (refl, h)
guarded false rest next h = cc

not-true : (b : Bool) → not b ≡ true → b ≡ false
not-true false h = refl
not-true true h = cc

decided-Step :
    (op : Operation) (node : Node) (next : NodeTransition)
    → decide op node ≡ ok next
    → Steps op node next
unfolding decide_drain decide_undrain decide_disable decide_enable
decided-Step to_drain node next h =
    let (a, h1) = guarded _ _ next h in
    let (b, h2) = guarded _ _ next h1 in
    subst (Steps to_drain node) (ok-injective _ refl h2)
      (draining node.status node.drain_state (not-true _ a) (not-true _ b))
decided-Step to_undrain node next h =
    let (a, h1) = guarded _ _ next h in
    let (b, h2) = guarded _ _ next h1 in
    subst (Steps to_undrain node) (ok-injective _ refl h2)
      (undrained node.status node.drain_state (not-true _ a) (not-true _ b))
decided-Step to_disable node next h =
    let (a, h1) = guarded _ _ next h in
    subst (Steps to_disable node) (ok-injective _ refl h1)
      (disabled node.status node.drain_state (not-true _ a))
decided-Step to_enable node next h =
    let (a, h1) = guarded _ _ next h in
    subst (Steps to_enable node) (ok-injective _ refl h1) (enabled node.status node.drain_state a)

-- The node and the tables after a step of the node.
pub record Stepped (op : Operation) (now : Time) (id : String) (db : Db) (node : Node) (db' : Db)
    : Type 0 where
  pub row : NodeRow
  pub found : find (has_id id) db.nodes ≡ some row
  pub step : Step op row.node.status row.node.drain_state node.status node.drain_state
  pub after : db' ≡ record db {
    nodes = update_where (has_id id) (set_states node.status node.drain_state now) db.nodes;
  }

-- An operation that succeeds is a step of the node that it names, and changes nothing else.
pub run-Stepped :
    (op : Operation) (now : Time) (id : String) (db : Db) (node : Node) (db' : Db)
    → run op now id db ≡ ok (node, db')
    → Stepped op now id db node db'
unfolding scan_node set_states
run-Stepped op now id db node db' h =
    let moved =
      transition-Moved now id (decide op) db node db' (sym (run-transition op now id db) ∙ h) in
    let s = ap (λ n. n.status) moved.updated.node_eq in
    let d = ap (λ n. n.drain_state) moved.updated.node_eq in
    record {
      row = moved.row;
      found = moved.found;
      step = rw (s, d) (decided-Step op (scan_node now moved.row) moved.next moved.decided);
      after = rw (s, d) moved.updated.db_eq;
    }
