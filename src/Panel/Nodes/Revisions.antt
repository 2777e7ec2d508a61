-- ===== src/Panel/Nodes/Revisions.antt =====
-- The revisions of services/panel-api/internal/storage/nodes.go: the queries on them, the inputs of
-- rendering, and their table's constraints. Panel/Nodes/Revisions/Create.antt makes them.
pub mod Create
pub mod Report
pub mod Numbering
pub mod Newest
pub mod Once
pub mod Settled
use lenker_panel.Base.{
  ℕ, zero, suc, String, Bool, not, ◌&&◌, ◌||◌, Option, some, none, List, [], ◌∷◌, ◌++◌, ℤ, pos,
  is_pos, is_neg, Time, after, rfc3339, Result, ok, err, ◌>>=◌, ◌>>◌, require, guard, str_eq,
  is_empty, if◌then◌else◌, ltb, ◌==◌,
}
use lenker_panel.Crypto.{Crypto}
use lenker_panel.Json.{Fields}
use lenker_panel.Json.Gate.{GateError}
use lenker_panel.Json.Wire.{wire_fields}
use lenker_panel.Panel.Validate.{validate_vless_reality_payload}
use lenker_panel.Panel.Bundle.{Bundle, seal}
use lenker_panel.Panel.Render.{RealityConfig, SubscriptionInput, RenderInput, str_lt}
use lenker_panel.Panel.Render.Payload.{render_vless_reality_payload_with_reality}
use lenker_panel.Panel.Render.Rollback.{RollbackInput, render_rollback_payload}
use lenker_panel.Panel.Nodes.{
  Node, NodeRow, RevisionRow, SubscriptionRow, UserRow, PlanRow, Db, NodesError, not_found,
  invalid_node_transition, refused_payload, constraint_violated, Exec, find, any,
}
use lenker_panel.Panel.Nodes.Lifecycle.{has_id, find_by_id}
use lenker_panel.Panel.Nodes.Bootstrap.{hash_string, null_string}
use lenker_panel.Panel.Nodes.Heartbeat.{is_authorized}

pub record ConfigRevision : Type 0 where
  pub id : String
  pub node_id : String
  pub revision_number : ℕ
  pub bundle_hash : String
  pub signature : String
  pub signer : String
  pub status : String
  pub rollback_target_revision : ℤ
  pub bundle : Fields
  pub created_at : Time
  pub applied_at : Option Time
  pub failed_at : Option Time
  pub rolled_back_at : Option Time
  pub error_message : String

abbrev pub or_zero : Option ℤ → ℤ
or_zero none = pos 0
or_zero (some n) = n

abbrev pub or_empty : Option String → String
or_empty none = ""
or_empty (some s) = s

-- The bundle is decoded from the JSON column.
unfoldable pub scan_config_revision : RevisionRow → ConfigRevision
scan_config_revision row = record {
  id = row.id;
  node_id = row.node_id;
  revision_number = row.revision_number;
  bundle_hash = row.bundle_hash;
  signature = row.signature;
  signer = row.signer;
  status = row.status;
  rollback_target_revision = or_zero row.rollback_target_revision;
  bundle = wire_fields row.payload;
  created_at = row.created_at;
  applied_at = row.applied_at;
  failed_at = row.failed_at;
  rolled_back_at = row.rolled_back_at;
  error_message = or_empty row.error_message;
}

-- `WHERE s.status = 'active' AND s.expires_at > now() AND (…)`, the part about the subscription
unfoldable pub is_served : Time → String → SubscriptionRow → Bool
is_served now region s =
    str_eq s.status "active"
    && after s.expires_at now
    && (str_eq (or_empty s.preferred_region) "" || str_eq (or_empty s.preferred_region) region)

unfoldable pub subscription_input : SubscriptionRow → UserRow → PlanRow → SubscriptionInput
subscription_input s u p = record {
  subscription_id = s.id;
  user_id = s.user_id;
  plan_id = s.plan_id;
  user_status = u.status;
  subscription_status = s.status;
  preferred_region = or_empty s.preferred_region;
  plan_name = p.name;
  device_limit = s.device_limit;
  traffic_limit_bytes = s.traffic_limit_bytes;
  starts_at = rfc3339 s.starts_at;
  expires_at = rfc3339 s.expires_at;
}

-- The row of the join, if the subscription has one.
unfoldable pub joined : Time → String → Db → SubscriptionRow → Option SubscriptionInput
unfolding is_served subscription_input
joined now region db s =
    go (find (λ u. str_eq u.id s.user_id) db.users) (find (λ p. str_eq p.id s.plan_id) db.plans)
  where
    go : Option UserRow → Option PlanRow → Option SubscriptionInput
    go (some u) (some p) =
        if is_served now region s && str_eq u.status "active"
        then some (subscription_input s u p)
        else none
    go _ _ = none

-- ORDER BY s.id
unfoldable pub insert_by_id : SubscriptionInput → List SubscriptionInput → List SubscriptionInput
insert_by_id x [] = x ∷ []
insert_by_id x (y ∷ r) =
    let rest = insert_by_id x r in
    if str_lt y.subscription_id x.subscription_id then y ∷ rest else x ∷ y ∷ r

unfoldable pub add_joined :
    Option SubscriptionInput → List SubscriptionInput → List SubscriptionInput
unfolding insert_by_id
add_joined none rest = rest
add_joined (some input) rest = insert_by_id input rest

unfoldable pub collect :
    (SubscriptionRow → Option SubscriptionInput) → List SubscriptionRow → List SubscriptionInput
unfolding add_joined
collect row [] = []
collect row (s ∷ r) = add_joined (row s) (collect row r)

unfoldable pub list_config_subscription_inputs : Time → String → Db → List SubscriptionInput
unfolding collect joined
list_config_subscription_inputs now region db = collect (joined now region db) db.subscriptions

-- MAX(revision_number), or 0
unfoldable pub max_revision : String → List RevisionRow → ℕ
max_revision node_id [] = 0
max_revision node_id (row ∷ r) =
    let rest = max_revision node_id r in
    if str_eq row.node_id node_id && ltb rest row.revision_number then row.revision_number else rest

unfoldable pub next_revision : String → Db → ℕ
unfolding max_revision
next_revision node_id db = suc (max_revision node_id db.revisions)

-- The constraints of migration 4.
unfoldable pub check_revision : RevisionRow → Db → Result NodesError (Unit {0})
check_revision row db = do
  guard (ltb 0 row.revision_number) (constraint_violated "config_revisions_revision_number_check")
  guard (not (is_neg (or_zero row.rollback_target_revision)))
      (constraint_violated "config_revisions_rollback_target_check")
  guard
      (not (
        any (λ r. str_eq r.node_id row.node_id && r.revision_number == row.revision_number)
          db.revisions))
      (constraint_violated "config_revisions_node_revision_unique")

unfoldable pub insert_revision : RevisionRow → Exec ConfigRevision
unfolding check_revision scan_config_revision
insert_revision row db = do
  check_revision row db
  ok (scan_config_revision row, record db { revisions = db.revisions ++ (row ∷ []) })

abbrev pub from_gate {ℓ} : {A : Type ℓ} → Result GateError A → Result NodesError A
from_gate (ok a) = ok a
from_gate (err e) = err (refused_payload e)

-- `SELECT active_revision, status, drain_state … FOR UPDATE`, with the checks on it
unfoldable pub lock_node : String → Db → Result NodesError Node
lock_node node_id db = do
  row ← require (find (has_id node_id) db.nodes) not_found
  guard (not (str_eq row.node.status "disabled" || not (str_eq row.node.drain_state "active")))
      invalid_node_transition
  ok row.node

-- The pending revision of the node with the highest number.
unfoldable pub latest_pending : String → List RevisionRow → Option RevisionRow
latest_pending node_id [] = none
latest_pending node_id (row ∷ r) =
    let rest = latest_pending node_id r in
    if str_eq row.node_id node_id && str_eq row.status "pending" then newer row rest else rest
  where
    newer : RevisionRow → Option RevisionRow → Option RevisionRow
    newer a none = some a
    newer a (some b) = if ltb a.revision_number b.revision_number then some b else some a

unfoldable pub find_latest_pending_config_revision :
    (c : Crypto) (node_id node_token : String) → Db → Result NodesError ConfigRevision
unfolding latest_pending scan_config_revision is_authorized hash_string
find_latest_pending_config_revision c node_id node_token db = do
  _ ←
      require
        (find (λ row. has_id node_id row && is_authorized (hash_string c node_token) row) db.nodes)
        not_found
  row ← require (latest_pending node_id db.revisions) not_found
  ok (scan_config_revision row)

unfoldable pub find_config_revision :
    (node_id revision_id : String) → Db → Result NodesError ConfigRevision
unfolding scan_config_revision
find_config_revision node_id revision_id db = do
  row ←
      require (find (λ r. str_eq r.node_id node_id && str_eq r.id revision_id) db.revisions)
        not_found
  ok (scan_config_revision row)
