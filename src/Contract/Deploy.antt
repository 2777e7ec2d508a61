-- ===== src/Contract/Deploy.antt =====
-- CreateDummyConfigRevision (services/panel-api/internal/storage/nodes.go), and the agent's checks of
-- what it creates.
use lenker_panel.Base.{◌≡◌, refl, String, false, some, ok, ◌++◌, [], ◌∷◌, Time, ℤ, is_empty, is_neg}
use lenker_panel.Crypto.{Crypto}
use lenker_panel.Json.{Fields}
use lenker_panel.Json.Wire.{HasExact}
use lenker_panel.Agent.Verify.{validate_config_revision}
use lenker_panel.Panel.Validate.{validate_vless_reality_payload}
use lenker_panel.Panel.Render.{RealityConfig}
use lenker_panel.Panel.Render.Payload.{render_vless_reality_payload_with_reality}
use lenker_panel.Panel.Render.Accepts.{IsRenderable, render-accepted}
use lenker_panel.Panel.Bundle.{seal}
use lenker_panel.Panel.Nodes.{Node, Db}
use lenker_panel.Panel.Nodes.Revisions.{
  ConfigRevision, scan_config_revision, max_revision, next_revision, insert_revision, lock_node,
}
use lenker_panel.Panel.Nodes.Revisions.Create.{
  CreateConfigRevisionInput, pending_bundle, revision_row, pending_row, store_payload,
  dummy_render_input, create_dummy_config_revision,
}
use lenker_panel.Panel.Nodes.Revisions.Numbering.{next_revision_free}
use lenker_panel.Contract.Deployment.{rendered_accepted}
use lenker_panel.Contract.Delivery.{delivered, delivered_accepted}

module _ (c : Crypto) where
  -- A payload that passes the precheck is stored under the node's next number.
  pub payload_stored :
      (id : String) (now : Time) (node_id admin_id : String) (current : ℤ) (payload : Fields)
      (db : Db)
      → validate_vless_reality_payload (some payload) ≡ ok tt
      → is_neg current ≡ false
      → store_payload c id now node_id admin_id (next_revision node_id db) current payload db
        ≡ ok (
          scan_config_revision
              (pending_row c id now node_id admin_id (next_revision node_id db) current payload),
          record db {
            revisions =
                db.revisions
                ++ (pending_row c id now node_id admin_id (next_revision node_id db) current payload
                    ∷ []);
          },
        )
  unfolding store_payload insert_revision pending_row revision_row pending_bundle seal
  payload_stored id now node_id admin_id current payload db v k =
      rw
        (
          v,
          next_revision_free
              (pending_row c id now node_id admin_id (next_revision node_id db) current payload) db
              refl k,
        )
        refl

  -- Deploying to an enabled, undrained node succeeds, whatever subscriptions the panel has, if the
  -- rendering has what it needs; and the agent of that node accepts what it is sent.
  pub deploy_delivered :
      (reality : RealityConfig) (id : String) (now : Time) (input : CreateConfigRevisionInput)
      (db : Db) (node : Node)
      → lock_node input.node_id db ≡ ok node
      → is_empty input.node_id ≡ false
      → is_neg node.active_revision ≡ false
      → IsRenderable
          (dummy_render_input c now node input.node_id (next_revision input.node_id db) db)
          reality
      → HasExact (
          render_vless_reality_payload_with_reality
            (dummy_render_input c now node input.node_id (next_revision input.node_id db) db)
            reality)
      → (revision : ConfigRevision) × (db' : Db) × (create_dummy_config_revision c reality id now
            input db
          ≡ ok (revision, db'))
        × (validate_config_revision c input.node_id (delivered revision) ≡ ok tt)
  unfolding create_dummy_config_revision next_revision dummy_render_input
  deploy_delivered reality id now input db node locked v k renderable exact =
      let number = next_revision input.node_id db in
      let given = dummy_render_input c now node input.node_id number db in
      let payload = render_vless_reality_payload_with_reality given reality in
      let row =
        pending_row c id now input.node_id input.created_by_admin_id number node.active_revision
          payload in
      (
        scan_config_revision row,
        record db { revisions = db.revisions ++ (row ∷ []) },
        rw
            (
              locked,
              payload_stored id now input.node_id input.created_by_admin_id node.active_revision
                  payload db (render-accepted given reality renderable) k,
            )
            refl,
        delivered_accepted c id now input.node_id input.created_by_admin_id
            (max_revision input.node_id db.revisions) node.active_revision payload v exact
            (λ r e. rendered_accepted r given reality renderable e),
      )
