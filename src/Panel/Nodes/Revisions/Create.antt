-- ===== src/Panel/Nodes/Revisions/Create.antt =====
-- CreateDummyConfigRevision and CreateRollbackConfigRevision of
-- services/panel-api/internal/storage/nodes.go.
use lenker_panel.Base.{
  ℕ, String, ◌&&◌, some, none, [], ℤ, pos, Time, ◌>>=◌, ◌>>◌, require, guard, str_eq,
}
use lenker_panel.Crypto.{Crypto}
use lenker_panel.Json.{Fields}
use lenker_panel.Panel.Validate.{validate_vless_reality_payload}
use lenker_panel.Panel.Bundle.{Bundle, seal}
use lenker_panel.Panel.Render.{RealityConfig, RenderInput}
use lenker_panel.Panel.Render.Payload.{render_vless_reality_payload_with_reality}
use lenker_panel.Panel.Render.Rollback.{render_rollback_payload}
use lenker_panel.Panel.Nodes.{Node, RevisionRow, Db, not_found, invalid_node_transition, Exec, find}
use lenker_panel.Panel.Nodes.Bootstrap.{null_string}
use lenker_panel.Panel.Nodes.Revisions.{
  ConfigRevision, scan_config_revision, list_config_subscription_inputs, next_revision,
  insert_revision, from_gate, lock_node,
}

pub record CreateConfigRevisionInput : Type 0 where
  pub node_id : String
  pub created_by_admin_id : String

pub record CreateRollbackInput : Type 0 where
  pub node_id : String
  pub revision_id : String
  pub created_by_admin_id : String

module _ (c : Crypto) where
  -- The bundle that both ways of creating a revision sign.
  unfoldable pub pending_bundle : String → ℕ → ℤ → Fields → Bundle
  pending_bundle node_id number current payload = seal c (record {
    node_id = node_id;
    revision_number = pos number;
    status = "pending";
    bundle_hash = "";
    signature = "";
    signer = "lenker-dev-hmac-sha256";
    rollback_target_revision = current;
    payload = payload;
  })

  -- the VALUES of the INSERT
  unfoldable pub revision_row : String → Time → String → ℕ → Bundle → RevisionRow
  revision_row id now admin_id number b = record {
    id = id;
    node_id = b.node_id;
    revision_number = number;
    bundle_hash = b.bundle_hash;
    signature = b.signature;
    signer = b.signer;
    status = "pending";
    rollback_target_revision = some b.rollback_target_revision;
    payload = b.payload;
    created_by_admin_id = null_string admin_id;
    created_at = now;
    applied_at = none;
    failed_at = none;
    rolled_back_at = none;
    error_message = none;
  }

  unfoldable pub pending_row :
      (id : String) (now : Time) (node_id admin_id : String) (number : ℕ) (current : ℤ)
      → Fields
      → RevisionRow
  unfolding pending_bundle revision_row
  pending_row id now node_id admin_id number current payload =
      revision_row id now admin_id number (pending_bundle node_id number current payload)

  -- From the precheck of the payload to the INSERT, alike in both.
  unfoldable pub store_payload :
      (id : String) (now : Time) (node_id admin_id : String) (number : ℕ) (current : ℤ)
      → Fields
      → Exec ConfigRevision
  unfolding pending_row insert_revision
  store_payload id now node_id admin_id number current payload db = do
    from_gate (validate_vless_reality_payload (some payload))
    insert_revision (pending_row id now node_id admin_id number current payload) db

  unfoldable pub dummy_render_input : Time → Node → String → ℕ → Db → RenderInput
  unfolding list_config_subscription_inputs
  dummy_render_input now node node_id number db = record {
    node_id = node_id;
    revision_number = pos number;
    hostname = node.hostname;
    region = node.region;
    country_code = node.country_code;
    subscription_inputs = list_config_subscription_inputs now node.region db;
    routing_rules = [];
    global_settings = none;
    warp_credentials = none;
    rollback_target_revision = node.active_revision;
  }

  unfoldable pub create_dummy_config_revision :
      (reality : RealityConfig) (id : String) (now : Time)
      → CreateConfigRevisionInput
      → Exec ConfigRevision
  unfolding lock_node next_revision dummy_render_input store_payload
  create_dummy_config_revision reality id now input db = do
    node ← lock_node input.node_id db
    let number = next_revision input.node_id db
    store_payload id now input.node_id input.created_by_admin_id number node.active_revision
        (render_vless_reality_payload_with_reality
          (dummy_render_input now node input.node_id number db) reality)
        db

  unfoldable pub create_rollback_config_revision :
      (id : String) (now : Time) → CreateRollbackInput → Exec ConfigRevision
  unfolding lock_node next_revision store_payload scan_config_revision
  create_rollback_config_revision id now input db = do
    node ← lock_node input.node_id db
    row ←
        require
          (find (λ r. str_eq r.node_id input.node_id && str_eq r.id input.revision_id) db.revisions)
          not_found
    let target = scan_config_revision row
    guard (str_eq target.status "applied") invalid_node_transition
    let number = next_revision input.node_id db
    store_payload id now input.node_id input.created_by_admin_id number node.active_revision
        (render_rollback_payload target.bundle (record {
          revision_number = pos number;
          rollback_target_revision = node.active_revision;
          source_revision_id = target.id;
          source_revision_number = pos target.revision_number;
        }))
        db
