-- ===== src/Panel/Nodes/Lifecycle.antt =====
-- FindByID, Drain, Undrain, Disable, Enable and transition of
-- services/panel-api/internal/storage/nodes.go.
use lenker_panel.Base.{
  String, Bool, Time, Result, ok, ◌>>=◌, ◌>>◌, require, guard, str_eq, is_empty, not, if◌then◌else◌,
}
use lenker_panel.Panel.Nodes.{
  Node, NodeRow, Db, NodesError, not_found, invalid_node_transition, Exec, find, update_where,
  check_updated,
}
use lenker_panel.Panel.Nodes.Normalize.{scan_node}

-- `WHERE id = $1`
abbrev pub has_id : String → NodeRow → Bool
has_id id row = str_eq row.node.id id

-- `UPDATE nodes SET … WHERE … RETURNING …`
unfoldable pub update_node :
    Time → (NodeRow → Bool) → (NodeRow → NodeRow) → (missing : NodesError) → Exec Node
unfolding check_updated
update_node now p f missing db = do
  row ← require (find p db.nodes) missing
  check_updated p f db.nodes
  ok (scan_node now (f row), record db { nodes = update_where p f db.nodes })

unfoldable pub find_by_id : Time → String → Db → Result NodesError Node
find_by_id now id db = do
  row ← require (find (has_id id) db.nodes) not_found
  ok (scan_node now row)

pub record NodeTransition : Type 0 where
  pub status : String
  pub drain_state : String

unfoldable pub set_states : String → String → Time → NodeRow → NodeRow
set_states status drain_state now row = record row {
  node = record row.node { status = status; drain_state = drain_state; updated_at = now };
}

-- an empty member of the transition stands for the node's own
abbrev pub or_own : String → String → String
or_own next own = if is_empty next then own else next

unfoldable pub transition : Time → String → (Node → Result NodesError NodeTransition) → Exec Node
unfolding update_node set_states
transition now id decide db = do
  row ← require (find (has_id id) db.nodes) not_found
  let node = scan_node now row
  next ← decide node
  update_node now (has_id id)
      (set_states (or_own next.status node.status) (or_own next.drain_state node.drain_state) now)
      not_found db

unfoldable pub decide_drain : Node → Result NodesError NodeTransition
decide_drain node = do
  guard (not (str_eq node.status "disabled")) invalid_node_transition
  guard (not (str_eq node.drain_state "draining")) invalid_node_transition
  ok (record { status = ""; drain_state = "draining" })

unfoldable pub decide_undrain : Node → Result NodesError NodeTransition
decide_undrain node = do
  guard (not (str_eq node.status "disabled")) invalid_node_transition
  guard (not (str_eq node.drain_state "active")) invalid_node_transition
  ok (record { status = ""; drain_state = "active" })

unfoldable pub decide_disable : Node → Result NodesError NodeTransition
decide_disable node = do
  guard (not (str_eq node.status "disabled")) invalid_node_transition
  ok (record { status = "disabled"; drain_state = "" })

unfoldable pub decide_enable : Node → Result NodesError NodeTransition
decide_enable node = do
  guard (str_eq node.status "disabled") invalid_node_transition
  ok (record { status = "unhealthy"; drain_state = "" })

unfoldable pub drain : Time → String → Exec Node
unfolding transition decide_drain
drain now id = transition now id decide_drain

unfoldable pub undrain : Time → String → Exec Node
unfolding transition decide_undrain
undrain now id = transition now id decide_undrain

unfoldable pub disable : Time → String → Exec Node
unfolding transition decide_disable
disable now id = transition now id decide_disable

unfoldable pub enable : Time → String → Exec Node
unfolding transition decide_enable
enable now id = transition now id decide_enable
