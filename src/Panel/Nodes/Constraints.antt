-- ===== src/Panel/Nodes/Constraints.antt =====
-- The constraints of migrations/ on what services/panel-api/internal/storage/nodes.go writes.
use lenker_panel.Base.{
  ◌≡◌, refl, String, Bool, true, false, not, ◌&&◌, some, [], ◌∷◌, err, ◌>>◌, Result, guard, Time,
  is_neg,
}
use lenker_panel.Crypto.{Crypto}
use lenker_panel.Json.Gate.{contains}
use lenker_panel.Panel.Nodes.{
  Node, NodeRow, Db, NodesError, constraint_violated, find, check_states, check_runtime, check_node,
}
use lenker_panel.Panel.Nodes.Normalize.{is_valid_node_status, normalize_runtime_mode}
use lenker_panel.Panel.Nodes.Lifecycle.{has_id, update_node}
use lenker_panel.Panel.Nodes.Bootstrap.{hash_string}
use lenker_panel.Panel.Nodes.Heartbeat.{HeartbeatInput, is_authorized, beat, record_heartbeat}
use lenker_panel.Panel.Nodes.Tables.{check-violated}

-- A check fails at the guard, or before it with another constraint.
refused_later :
    (b : Bool) (name : String) (rest : Result NodesError (Unit {0}))
    → (other : String) × (rest ≡ err (constraint_violated other))
    → (other : String) × ((guard b (constraint_violated name) >> rest)
        ≡ err (constraint_violated other))
refused_later true name rest h = h
refused_later false name rest h = (name, refl)

at_mode :
    (mode name : String) (rest : Result NodesError (Unit {0}))
    → mode ≡ "local-process-managed"
    → (guard
          (contains ("no-process" ∷ "dry-run-only" ∷ "future-process-managed" ∷ []) mode)
          (constraint_violated name)
        >> rest)
      ≡ err (constraint_violated name)
at_mode mode name rest e = rw e refl

-- No row may have the runtime mode local-process-managed.
local_mode_refused :
    (node : Node)
    → node.runtime_mode ≡ "local-process-managed"
    → (name : String) × (check_node node ≡ err (constraint_violated name))
unfolding check_node check_runtime
local_mode_refused node e =
    refused_later
      (contains ("pending" ∷ "active" ∷ "unhealthy" ∷ "drained" ∷ "disabled" ∷ []) node.status)
      "nodes_status_check" _
      (refused_later (contains ("active" ∷ "draining" ∷ "drained" ∷ []) node.drain_state)
        "nodes_drain_state_check" _
        (refused_later (contains ("" ∷ "applied" ∷ "failed" ∷ []) node.last_validation_status)
          "nodes_last_validation_status_check" _
          (refused_later (not (is_neg node.last_applied_revision))
            "nodes_last_applied_revision_check" (check_runtime node)
            (
              "nodes_runtime_mode_check",
              at_mode node.runtime_mode "nodes_runtime_mode_check" (check_states node) e,
            ))))

-- A heartbeat of a registered node with a valid status, whose metadata name the runtime mode
-- local-process-managed, is refused by a constraint of the table nodes, although normalizeRuntimeMode
-- keeps that mode.
pub local_mode_heartbeat_refused :
    (c : Crypto) (now : Time) (input : HeartbeatInput) (db : Db) (row : NodeRow)
    → is_valid_node_status input.status ≡ true
    → find
        (λ r. has_id input.node_id r && is_authorized (hash_string c input.node_token) r)
        db.nodes
      ≡ some row
    → input.runtime_metadata_present ≡ true
    → normalize_runtime_mode input.runtime.runtime_mode ≡ "local-process-managed"
    → (name : String) × (record_heartbeat c now input db ≡ err (constraint_violated name))
unfolding record_heartbeat update_node beat
local_mode_heartbeat_refused c now input db row v found present mode =
    let (name, refused) = local_mode_refused (beat now input row).node (rw (present) mode) in
    (
      name,
      rw
          (
            v,
            found,
            check-violated
                (λ r. has_id input.node_id r && is_authorized (hash_string c input.node_token) r)
                (beat now input) db.nodes row (constraint_violated name) found refused,
          )
          refl,
    )
