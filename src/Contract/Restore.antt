-- ===== src/Contract/Restore.antt =====
-- CreateRollbackConfigRevision (services/panel-api/internal/storage/nodes.go), and the agent's checks
-- of what it creates.
use lenker_panel.Base.{
  ℕ, ◌≡◌, refl, sym, ap, ◌∙◌, String, false, ◌&&◌, some, [], ◌∷◌, ◌++◌, ok, Time, pos, is_empty,
  is_neg, str_eq,
}
use lenker_panel.Crypto.{Crypto}
use lenker_panel.Json.{Fields, get, number_as_int}
use lenker_panel.Json.Wire.{HasExact, wire_fields}
use lenker_panel.Agent.Model.{ConfigRevision}
use lenker_panel.Panel.Validate
use lenker_panel.Contract.Payload.{payload_decoded}
use lenker_panel.Agent.Verify.{
  validate_config_revision, validate_rendered_config_payload, is_operation,
}
use lenker_panel.Panel.Render.{
  RealityConfig, RenderInput, with_defaults, render_access_entries, sorted_subscription_inputs,
}
use lenker_panel.Panel.Render.Payload.{render_config, render_vless_reality_payload_with_reality}
use lenker_panel.Panel.Render.Rollback.{RollbackInput, render_rollback_payload}
use lenker_panel.Panel.Render.Accepts.{IsRenderable, config_accepted}
use lenker_panel.Panel.Bundle.{seal}
use lenker_panel.Panel.Nodes.{Node, RevisionRow, Db, find}
use lenker_panel.Panel.Nodes.Revisions.{
  scan_config_revision, max_revision, next_revision, lock_node,
}
use lenker_panel.Panel.Nodes.Revisions.Create.{
  CreateRollbackInput, pending_row, create_rollback_config_revision,
}
use lenker_panel.Contract.Gates.{gates_agree}
use lenker_panel.Contract.Deployment.{rendered-IsCommon}
use lenker_panel.Contract.Delivery.{delivered, delivered_accepted}
use lenker_panel.Contract.Deploy.{payload_stored}
use lenker_panel.Contract.Deployable.{IsDeployable, deployable_accepted, deployable_prechecked}
use lenker_panel.Contract.Rollback.{HasExactNumbers, rolled_number, rolled-IsDeployable}

-- What is rendered for a deployment is deployable.
pub rendered-IsDeployable :
    (input : RenderInput) (reality : RealityConfig)
    → IsRenderable input reality
    → HasExact (render_vless_reality_payload_with_reality input reality)
    → IsDeployable (render_vless_reality_payload_with_reality input reality)
unfolding render_vless_reality_payload_with_reality is_operation
rendered-IsDeployable input reality h exact =
    let entries = render_access_entries (sorted_subscription_inputs input.subscription_inputs) in
    let common = rendered-IsCommon input (with_defaults reality) entries in
    record {
      exact = exact;
      schema = refl;
      generator = refl;
      protocol = refl;
      core = refl;
      config_kind = refl;
      kind = "deploy";
      kind_eq = refl;
      kind_ok = refl;
      node = _;
      node_eq = refl;
      transport = _;
      transport_eq = refl;
      inputs = _;
      inputs_eq = refl;
      entries = _;
      entries_eq = refl;
      config = render_config input (with_defaults reality) entries;
      config_eq = refl;
      common = common;
      accepted = gates_agree _ common ∙ config_accepted input reality h;
    }

-- The panel's precheck accepts the payload, and the agent accepts it in this revision, as it is and
-- decoded.
abbrev pub Passes : Fields → ConfigRevision → Type 0
Passes payload r =
    (Validate.validate_vless_reality_payload (some payload) ≡ ok tt)
    × (validate_rendered_config_payload (record r { bundle = some payload }) ≡ ok tt)
    × (validate_rendered_config_payload (record r { bundle = some (wire_fields payload) }) ≡ ok tt)

deployable-Passes :
    (payload : Fields) (r : ConfigRevision)
    → IsDeployable payload
    → number_as_int (get "revision_number" payload) ≡ some r.revision_number
    → Passes payload r
deployable-Passes payload r d n =
    let accepted = deployable_accepted r payload d n in
    (deployable_prechecked payload d, accepted, payload_decoded r payload d.exact ∙ accepted)

rendered_number :
    (input : RenderInput) (reality : RealityConfig)
    → number_as_int
        (get "revision_number" (render_vless_reality_payload_with_reality input reality))
      ≡ some input.revision_number
unfolding render_vless_reality_payload_with_reality
rendered_number input reality = refl

-- What is rendered for a deployment, from what the rendering needs and with integers that are exact,
-- passes the panel's precheck and the agent's checks in a revision with its number, as it is and
-- decoded. What a rollback renders from it, read back from its row, with numbers that are exact, passes
-- them too, in a revision with the number of the rollback; and a rollback to that, read back in its turn,
-- passes them again.
pub rendered_restorable :
    (input : RenderInput) (reality : RealityConfig)
    → IsRenderable input reality
    → HasExact (render_vless_reality_payload_with_reality input reality)
    → (first second : RollbackInput) → HasExactNumbers first
    → HasExactNumbers second
    → (r r1 r2 : ConfigRevision) → r.revision_number ≡ input.revision_number
    → r1.revision_number ≡ first.revision_number
    → r2.revision_number ≡ second.revision_number
    → let payload = render_vless_reality_payload_with_reality input reality in
      let rolled = render_rollback_payload (wire_fields payload) first in
      Passes payload r
      × Passes rolled r1
      × Passes (render_rollback_payload (wire_fields rolled) second) r2
rendered_restorable input reality h exact first second e1 e2 r r1 r2 n n1 n2 =
    let payload = render_vless_reality_payload_with_reality input reality in
    let rolled = render_rollback_payload (wire_fields payload) first in
    let d = rendered-IsDeployable input reality h exact in
    let d1 = rolled-IsDeployable payload first d e1 in
    let d2 = rolled-IsDeployable rolled second d1 e2 in
    (
      deployable-Passes payload r d (rendered_number input reality ∙ ap some (sym n)),
      deployable-Passes rolled r1 d1 (rolled_number payload first ∙ ap some (sym n1)),
      deployable-Passes _ r2 d2 (rolled_number rolled second ∙ ap some (sym n2)),
    )

-- the input of the rollback's rendering
abbrev pub rollback_input : Node → RevisionRow → ℕ → RollbackInput
rollback_input node row number = record {
  revision_number = pos number;
  rollback_target_revision = node.active_revision;
  source_revision_id = row.id;
  source_revision_number = pos row.revision_number;
}

module _ (c : Crypto) where
  -- A rollback to an applied revision of the node, whose payload is deployable, succeeds; the agent
  -- accepts what it is sent, which can be rolled back to in its turn.
  pub rollback_delivered :
      (id : String) (now : Time) (input : CreateRollbackInput) (db : Db) (node : Node)
      (row : RevisionRow)
      → lock_node input.node_id db ≡ ok node
      → find (λ r. str_eq r.node_id input.node_id && str_eq r.id input.revision_id) db.revisions
        ≡ some row
      → row.status ≡ "applied"
      → IsDeployable row.payload
      → is_empty input.node_id ≡ false
      → is_neg node.active_revision ≡ false
      → HasExactNumbers (rollback_input node row (next_revision input.node_id db))
      → (added : RevisionRow) × (db' : Db) × (create_rollback_config_revision c id now input db
          ≡ ok (scan_config_revision added, db'))
        × (db'.revisions ≡ db.revisions ++ (added ∷ []))
        × IsDeployable added.payload
        × (validate_config_revision c input.node_id (delivered (scan_config_revision added))
            ≡ ok tt)
  unfolding create_rollback_config_revision next_revision scan_config_revision seal
      render_rollback_payload
  rollback_delivered id now input db node row locked found applied d v k exact =
      let number = next_revision input.node_id db in
      let given = rollback_input node row number in
      let payload = render_rollback_payload (wire_fields row.payload) given in
      let deployable = rolled-IsDeployable row.payload given d exact in
      (
        pending_row c id now input.node_id input.created_by_admin_id number node.active_revision
            payload,
        record db {
          revisions =
              db.revisions
              ++ (pending_row c id now input.node_id input.created_by_admin_id number
                    node.active_revision payload
                  ∷ []);
        },
        rw
            (
              locked,
              found,
              applied,
              payload_stored c id now input.node_id input.created_by_admin_id node.active_revision
                  payload db (deployable_prechecked payload deployable) k,
            )
            refl,
        refl,
        deployable,
        delivered_accepted c id now input.node_id input.created_by_admin_id
            (max_revision input.node_id db.revisions) node.active_revision payload v
            deployable.exact
            (λ r e.
              deployable_accepted r payload deployable
                (rolled_number row.payload given ∙ ap some (sym e))),
      )
