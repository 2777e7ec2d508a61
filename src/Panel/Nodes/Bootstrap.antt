-- ===== src/Panel/Nodes/Bootstrap.antt =====
-- CreateBootstrapToken and Register of services/panel-api/internal/storage/nodes.go. The random
-- bytes, the identifiers that the database gives and the time are arguments.
pub mod SingleUse
pub mod Joining
use lenker_panel.Base.{
  ℕ, String, Bool, not, ◌&&◌, ◌||◌, Option, some, none, List, [], ◌∷◌, ◌++◌, pos, Time, after,
  Result, ok, ◌>>=◌, ◌>>◌, require, guard, str_eq, is_empty, append, if◌then◌else◌,
}
use lenker_panel.Crypto.{Crypto}
use lenker_panel.Crypto.Hex.{encode_to_string}
use lenker_panel.Json.Gate.{contains}
use lenker_panel.Panel.Nodes.{
  Node, NodeRow, TokenRow, NodesError, invalid_bootstrap_token, expired_bootstrap_token,
  bootstrap_token_used, constraint_violated, Exec, find, update_where, any,
}
use lenker_panel.Panel.Nodes.Lifecycle.{has_id, update_node}

pub record CreateBootstrapTokenInput : Type 0 where
  pub name : String
  pub region : String
  pub country_code : String
  pub hostname : String
  pub expires_at : Time
  pub created_by_admin_id : String

pub record BootstrapToken : Type 0 where
  pub id : String
  pub node_id : String
  pub token : String
  pub expires_at : Time
  pub created_at : Time

pub record RegisterNodeInput : Type 0 where
  pub node_id : String
  pub bootstrap_token : String
  pub agent_version : String
  pub hostname : String

pub record RegisterNodeResult : Type 0 where
  pub node : Node
  pub node_token : String

unfoldable pub new_bootstrap_token : List ℕ → String
new_bootstrap_token raw = append "lnkbt_" (encode_to_string raw)

unfoldable pub new_node_token : List ℕ → String
new_node_token raw = encode_to_string raw

-- `sql.NullString`, valid unless the text is empty
abbrev pub null_string : String → Option String
null_string s = if is_empty s then none else some s

-- The row that the INSERT makes: the columns it does not name have the defaults of the migrations.
unfoldable pub new_node_row : String → Time → CreateBootstrapTokenInput → NodeRow
new_node_row id now input = record {
  node = record {
    id = id;
    name = input.name;
    region = input.region;
    country_code = input.country_code;
    hostname = input.hostname;
    status = "pending";
    drain_state = "active";
    agent_version = "";
    xray_version = "";
    active_revision = pos 0;
    runtime_mode = "no-process";
    runtime_process_mode = "disabled";
    runtime_process_state = "disabled";
    runtime_desired_state = "validated-config-ready";
    runtime_state = "not_prepared";
    xray_pid = pos 0;
    last_dry_run_status = "not_configured";
    last_runtime_attempt = "skipped";
    last_runtime_prepared = pos 0;
    last_runtime_at = none;
    last_runtime_error = "";
    last_validation_status = "";
    last_validation_error = "";
    last_validation_at = none;
    last_applied_revision = pos 0;
    active_config_path = "";
    runtime_events = [];
    last_health_at = none;
    last_seen_at = none;
    registered_at = none;
    updated_at = now;
  };
  auth_token_hash = none;
}

-- The row of the second INSERT.
unfoldable pub new_token_row :
    (id node_id : String) (now : Time) (token_hash : String) → CreateBootstrapTokenInput → TokenRow
new_token_row id node_id now token_hash input = record {
  id = id;
  node_id = node_id;
  token_hash = token_hash;
  status = "active";
  expires_at = input.expires_at;
  used_at = none;
  created_by_admin_id = null_string input.created_by_admin_id;
  created_at = now;
}

-- `COALESCE(registered_at, $5)`
abbrev coalesce : Option Time → Time → Option Time
coalesce (some t) now = some t
coalesce none now = some now

unfoldable pub registered : String → String → String → Time → NodeRow → NodeRow
registered hostname agent_version auth_token_hash now row = record {
  node = record row.node {
    hostname = if is_empty hostname then row.node.hostname else hostname;
    agent_version = agent_version;
    status = "active";
    registered_at = coalesce row.node.registered_at now;
    last_seen_at = some now;
    last_health_at = some now;
    updated_at = now;
  };
  auth_token_hash = some auth_token_hash;
}

unfoldable pub spent : Time → TokenRow → TokenRow
spent now row = record row { status = "used"; used_at = some now }

-- whether the column auth_token_hash has this value
unfoldable pub holds_token : String → NodeRow → Bool
holds_token hash row = is_hash row.auth_token_hash
  where
    is_hash : Option String → Bool
    is_hash none = Bool.false
    is_hash (some h) = str_eq h hash

-- The column is UNIQUE: the UPDATE of this node to the value fails where another node has it.
unfoldable pub is_taken_by_other : String → String → NodeRow → Bool
unfolding holds_token
is_taken_by_other id hash row = holds_token hash row && not (has_id id row)

abbrev pub is_valid : Option Time → Bool
is_valid none = Bool.false
is_valid (some t) = Bool.true

module _ (c : Crypto) where
  -- hashString, which HashBootstrapToken and HashNodeToken call
  unfoldable pub hash_string : String → String
  hash_string value = encode_to_string (c.digest value)

  unfoldable pub create_bootstrap_token :
      (now : Time) (node_id token_id : String) (raw : List ℕ)
      → CreateBootstrapTokenInput
      → Exec BootstrapToken
  unfolding new_bootstrap_token new_node_row new_token_row hash_string
  create_bootstrap_token now node_id token_id raw input db = do
    let token = new_bootstrap_token raw
    let token_row = new_token_row token_id node_id now (hash_string token) input
    guard (not (any (λ row. str_eq row.token_hash (hash_string token)) db.tokens))
        (constraint_violated "node_bootstrap_tokens_token_hash_key")
    ok (
      record {
        id = token_id;
        node_id = node_id;
        token = token;
        expires_at = input.expires_at;
        created_at = now;
      },
      record db {
        nodes = db.nodes ++ (new_node_row node_id now input ∷ []);
        tokens = db.tokens ++ (token_row ∷ []);
      },
    )

  -- The checks of Register on the token's row.
  unfoldable pub check_token : Time → String → TokenRow → Result NodesError (Unit {0})
  check_token now node_id row = do
    guard (not (str_eq row.status "used" || is_valid row.used_at)) bootstrap_token_used
    guard (str_eq row.status "active") invalid_bootstrap_token
    guard (after row.expires_at now) expired_bootstrap_token
    guard (not (not (is_empty node_id) && not (str_eq node_id row.node_id))) invalid_bootstrap_token

  -- `id = $1 AND status IN (…)`
  unfoldable pub can_register : String → NodeRow → Bool
  can_register id row =
      has_id id row
      && contains ("pending" ∷ "active" ∷ "unhealthy" ∷ "drained" ∷ []) row.node.status

  unfoldable pub register :
      (now : Time) (raw : List ℕ) → RegisterNodeInput → Exec RegisterNodeResult
  unfolding check_token can_register registered is_taken_by_other spent new_node_token hash_string
  register now raw input db = do
    let node_token = new_node_token raw
    let token_hash = hash_string input.bootstrap_token
    row ← require (find (λ t. str_eq t.token_hash token_hash) db.tokens) invalid_bootstrap_token
    check_token now input.node_id row
    updated ←
        update_node now (can_register row.node_id)
          (registered input.hostname input.agent_version (hash_string node_token) now)
          invalid_bootstrap_token db
    guard (not (any (is_taken_by_other row.node_id (hash_string node_token)) db.nodes))
        (constraint_violated "nodes_auth_token_hash_key")
    ok (
      record { node = updated.0; node_token = node_token },
      record updated.1 {
        tokens = update_where (λ t. str_eq t.id row.id) (spent now) updated.1.tokens;
        registrations =
            updated.1.registrations
            ++ (record {
              node_id = updated.0.id;
              bootstrap_token_hash = token_hash;
              registration_status = "completed";
            }
                ∷ []);
      },
    )
