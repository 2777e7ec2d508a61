-- ===== src/Panel/Nodes/Updates.antt =====
-- What a successful UPDATE of a node gives.
use lenker_panel.Base.{
  ◌≡◌, refl, String, Bool, some, Result, Time, ok, >>=-eq-ok, require-eq-ok, require,
}
use lenker_panel.Panel.Nodes.{
  Node, NodeRow, Db, NodesError, not_found, find, update_where, check_updated,
}
use lenker_panel.Panel.Nodes.Normalize.{scan_node}
use lenker_panel.Panel.Nodes.Lifecycle.{
  NodeTransition, has_id, or_own, set_states, update_node, transition,
}

pub record Updated (now : Time) (p : NodeRow → Bool) (f : NodeRow → NodeRow) (db : Db) (node : Node)
    (db' : Db) : Type 0 where
  pub row : NodeRow
  pub found : find p db.nodes ≡ some row
  pub checked : check_updated p f db.nodes ≡ ok tt
  pub node_eq : node ≡ scan_node now (f row)
  pub db_eq : db' ≡ record db { nodes = update_where p f db.nodes }

pub update_node-Updated :
    (now : Time) (p : NodeRow → Bool) (f : NodeRow → NodeRow) (missing : NodesError) (db : Db)
    (node : Node) (db' : Db)
    → update_node now p f missing db ≡ ok (node, db')
    → Updated now p f db node db'
unfolding update_node
update_node-Updated now p f missing db node db' h =
    let (row, found, h1) = >>=-eq-ok (require (find p db.nodes) missing) _ h in
    let (u, checked, h2) = >>=-eq-ok (check_updated p f db.nodes) _ h1 in
    record {
      row = row;
      found = require-eq-ok _ missing row found;
      checked = rw checked refl;
      node_eq = cc;
      db_eq = cc;
    }

-- The update that a transition of the node comes to.
pub record Moved (now : Time) (id : String) (decide : Node → Result NodesError NodeTransition)
    (db : Db) (node : Node) (db' : Db) : Type 0 where
  pub row : NodeRow
  pub next : NodeTransition
  pub found : find (has_id id) db.nodes ≡ some row
  pub decided : decide (scan_node now row) ≡ ok next
  pub updated :
      Updated now
        (has_id id)
        (set_states
          (or_own next.status row.node.status)
          (or_own next.drain_state row.node.drain_state)
          now)
        db
        node
        db'

pub transition-Moved :
    (now : Time) (id : String) (decide : Node → Result NodesError NodeTransition) (db : Db)
    (node : Node) (db' : Db)
    → transition now id decide db ≡ ok (node, db')
    → Moved now id decide db node db'
unfolding transition scan_node
transition-Moved now id decide db node db' h =
    let (row, found, h1) = >>=-eq-ok (require (find (has_id id) db.nodes) not_found) _ h in
    let (next, decided, h2) = >>=-eq-ok (decide (scan_node now row)) _ h1 in
    record {
      row = row;
      next = next;
      found = require-eq-ok _ not_found row found;
      decided = decided;
      updated = update_node-Updated now _ _ not_found db node db' h2;
    }
