-- ===== src/Panel/Nodes.antt =====
-- The nodes of the panel: services/panel-api/internal/storage/nodes.go. Here are the rows of the
-- tables that it uses, with their CHECK and UNIQUE constraints from migrations/, and the errors.
pub mod Tables
pub mod Updates
pub mod Lockout
pub mod Canonical
pub mod Constraints
pub mod States
pub mod Steps
pub mod Normalize
pub mod Lifecycle
pub mod Bootstrap
pub mod Heartbeat
pub mod Revisions
use lenker_panel.Base.{
  ℕ, String, Bool, not, ◌||◌, ◌&&◌, Option, none, some, List, [], ◌∷◌, ℤ, is_neg, Time, Result, ok,
  guard, ◌>>=◌, ◌>>◌, str_eq, map, if◌then◌else◌,
}
use lenker_panel.Json.{Fields}
use lenker_panel.Json.Gate.{GateError, contains}

pub record RuntimeEvent : Type 0 where
  pub type : String
  pub status : String
  pub revision_number : ℤ
  pub message : String
  pub runtime_mode : String
  pub runtime_process_mode : String
  pub runtime_process_state : String
  pub at : Time

pub record Node : Type 0 where
  pub id : String
  pub name : String
  pub region : String
  pub country_code : String
  pub hostname : String
  pub status : String
  pub drain_state : String
  pub agent_version : String
  pub xray_version : String
  pub active_revision : ℤ
  pub runtime_mode : String
  pub runtime_process_mode : String
  pub runtime_process_state : String
  pub runtime_desired_state : String
  pub runtime_state : String
  pub xray_pid : ℤ
  pub last_dry_run_status : String
  pub last_runtime_attempt : String
  pub last_runtime_prepared : ℤ
  pub last_runtime_at : Option Time
  pub last_runtime_error : String
  pub last_validation_status : String
  pub last_validation_error : String
  pub last_validation_at : Option Time
  pub last_applied_revision : ℤ
  pub active_config_path : String
  pub runtime_events : List RuntimeEvent
  pub last_health_at : Option Time
  pub last_seen_at : Option Time
  pub registered_at : Option Time
  pub updated_at : Time

-- A row of nodes: the columns that scanNode reads, and the hash of the node's token.
pub record NodeRow : Type 0 where
  pub node : Node
  pub auth_token_hash : Option String

-- A row of node_bootstrap_tokens.
pub record TokenRow : Type 0 where
  pub id : String
  pub node_id : String
  pub token_hash : String
  pub status : String
  pub expires_at : Time
  pub used_at : Option Time
  pub created_by_admin_id : Option String
  pub created_at : Time

-- A row of node_registrations.
pub record RegistrationRow : Type 0 where
  pub node_id : String
  pub bootstrap_token_hash : String
  pub registration_status : String

-- A row of config_revisions. Of its bundle_json only the payload is read.
pub record RevisionRow : Type 0 where
  pub id : String
  pub node_id : String
  pub revision_number : ℕ
  pub bundle_hash : String
  pub signature : String
  pub signer : String
  pub status : String
  pub rollback_target_revision : Option ℤ
  pub payload : Fields
  pub created_by_admin_id : Option String
  pub created_at : Time
  pub applied_at : Option Time
  pub failed_at : Option Time
  pub rolled_back_at : Option Time
  pub error_message : Option String

-- The columns of users, plans and subscriptions that the nodes' repository reads.
pub record UserRow : Type 0 where
  pub id : String
  pub status : String

pub record PlanRow : Type 0 where
  pub id : String
  pub name : String

pub record SubscriptionRow : Type 0 where
  pub id : String
  pub user_id : String
  pub plan_id : String
  pub status : String
  pub preferred_region : Option String
  pub device_limit : ℤ
  pub traffic_limit_bytes : Option ℤ
  pub starts_at : Time
  pub expires_at : Time

pub record Db : Type 0 where
  pub nodes : List NodeRow
  pub tokens : List TokenRow
  pub registrations : List RegistrationRow
  pub revisions : List RevisionRow
  pub subscriptions : List SubscriptionRow
  pub users : List UserRow
  pub plans : List PlanRow

-- `refused_payload` is the wrapped ErrInvalidNodeTransition of a failed precheck, and
-- `constraint_violated` what the database answers.
pub data NodesError : Type 0 where
  not_found invalid_bootstrap_token expired_bootstrap_token bootstrap_token_used : NodesError
  invalid_node_status invalid_node_transition : NodesError
  refused_payload : GateError → NodesError
  constraint_violated : (name : String) → NodesError

-- A statement, or a transaction that is rolled back when it fails.
abbrev pub Exec : Type 0 → Type 0
Exec A = Db → Result NodesError (A × Db)

-- The first row with the property. Queries look rows up by a key, so it is the only one.
unfoldable pub find {ℓ} : {A : Type ℓ} → (A → Bool) → List A → Option A
find p [] = none
find p (x ∷ xs) = if p x then some x else find p xs

-- UPDATE … SET f WHERE p
unfoldable pub update_where {ℓ} : {A : Type ℓ} → (A → Bool) → (A → A) → List A → List A
update_where p f [] = []
update_where p f (x ∷ xs) = (if p x then f x else x) ∷ update_where p f xs

unfoldable pub any {ℓ} : {A : Type ℓ} → (A → Bool) → List A → Bool
any p [] = Bool.false
any p (x ∷ xs) = p x || any p xs

-- The constraints on the states of the runtime, from migrations 6, 7 and 11.
unfoldable pub check_states : Node → Result NodesError (Unit {0})
check_states node = do
  guard
      (contains
        ("not_prepared" ∷ "active_config_ready" ∷ "validation_failed" ∷ "prepare_failed" ∷ [])
        node.runtime_state)
      (constraint_violated "nodes_runtime_state_check")
  guard (contains ("not_configured" ∷ "passed" ∷ "failed" ∷ []) node.last_dry_run_status)
      (constraint_violated "nodes_last_dry_run_status_check")
  guard (contains ("skipped" ∷ "ready" ∷ "failed" ∷ []) node.last_runtime_attempt)
      (constraint_violated "nodes_last_runtime_attempt_status_check")
  guard (not (is_neg node.last_runtime_prepared))
      (constraint_violated "nodes_last_runtime_prepared_revision_check")
  guard (contains ("disabled" ∷ "local" ∷ []) node.runtime_process_mode)
      (constraint_violated "nodes_runtime_process_mode_check")
  guard
      (contains ("disabled" ∷ "ready" ∷ "failed" ∷ "running" ∷ "stopped" ∷ "restarting" ∷ [])
        node.runtime_process_state)
      (constraint_violated "nodes_runtime_process_state_check")

-- The constraint of migration 6 on the runtime mode, before those.
unfoldable pub check_runtime : Node → Result NodesError (Unit {0})
unfolding check_states
check_runtime node = do
  guard (contains ("no-process" ∷ "dry-run-only" ∷ "future-process-managed" ∷ []) node.runtime_mode)
      (constraint_violated "nodes_runtime_mode_check")
  check_states node

-- These, and the constraints of migrations 2, 3 and 5 on nodes.
unfoldable pub check_node : Node → Result NodesError (Unit {0})
unfolding check_runtime
check_node node = do
  guard (contains ("pending" ∷ "active" ∷ "unhealthy" ∷ "drained" ∷ "disabled" ∷ []) node.status)
      (constraint_violated "nodes_status_check")
  guard (contains ("active" ∷ "draining" ∷ "drained" ∷ []) node.drain_state)
      (constraint_violated "nodes_drain_state_check")
  guard (contains ("" ∷ "applied" ∷ "failed" ∷ []) node.last_validation_status)
      (constraint_violated "nodes_last_validation_status_check")
  guard (not (is_neg node.last_applied_revision))
      (constraint_violated "nodes_last_applied_revision_check")
  check_runtime node

-- The constraints on the rows that an UPDATE changes.
unfoldable pub check_updated :
    (NodeRow → Bool) → (NodeRow → NodeRow) → List NodeRow → Result NodesError (Unit {0})
check_updated p f [] = ok tt
check_updated p f (row ∷ rows) = do
  if p row then check_node (f row).node else ok tt
  check_updated p f rows
