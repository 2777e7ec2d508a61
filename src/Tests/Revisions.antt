-- ===== src/Tests/Revisions.antt =====
-- The theorems on revisions, at concrete databases.
use lenker_panel.Base.{◌≡◌, refl, [], ◌∷◌, pos, ok, arith, is_blank}
use lenker_panel.Json.Wire.{HasExact}
use lenker_panel.Agent.Verify.{validate_config_revision}
use lenker_panel.Panel.Render.{
  default_reality_config, with_defaults, render_access_entries, render_custom_routing_rules,
  render_clients, entry_value, add_rule, sorted_subscription_inputs, render_subscription_summary,
}
use lenker_panel.Panel.Render.Payload.{
  render_config, render_inbound, render_reality, render_outbounds, render_rules, policy,
  render_vless_reality_payload_with_reality,
}
use lenker_panel.Panel.Render.Accepts.{IsRenderable}
use lenker_panel.Panel.Nodes.{Db, find}
use lenker_panel.Panel.Nodes.Bootstrap.{new_node_row, registered}
use lenker_panel.Panel.Nodes.Revisions.{ConfigRevision, lock_node, next_revision}
use lenker_panel.Panel.Nodes.Revisions.Create.{create_dummy_config_revision, dummy_render_input}
use lenker_panel.Contract.Delivery.{delivered}
use lenker_panel.Contract.Deploy.{deploy_delivered}
use lenker_panel.Tests.{constant}
use lenker_panel.Tests.Nodes.{one_row, one_node}
use lenker_panel.Panel.Nodes.{RevisionRow}
use lenker_panel.Panel.Nodes.Revisions.{scan_config_revision}
use lenker_panel.Panel.Nodes.Revisions.Create.{
  CreateRollbackInput, pending_row, create_rollback_config_revision,
}
use lenker_panel.Panel.Nodes.Revisions.Newest.{IsNewest, deployed-IsNewest, rolled_back-IsNewest}
use lenker_panel.Contract.Deployable.{IsDeployable}
use lenker_panel.Contract.Restore.{
  Passes, rendered-IsDeployable, rendered_restorable, rollback_input, rollback_delivered,
}
use lenker_panel.Agent.Model
use lenker_panel.Json.Wire.{wire_fields}
use lenker_panel.Panel.Render.Rollback.{RollbackInput, render_rollback_payload}
use lenker_panel.Base.{ℤ, none}
use lenker_panel.Contract.Rollback.{HasExactNumbers}
use lenker_panel.Base.{◌++◌}

deployable :
    IsRenderable
      (dummy_render_input constant 20 one_row.node "node-1" 1 one_node)
      default_reality_config
unfolding is_blank with_defaults dummy_render_input find registered new_node_row
deployable = record { ids = (refl, tt); dest = refl; private_key = refl; warp = tt }

exact : HasExact (
    render_vless_reality_payload_with_reality
      (dummy_render_input constant 20 one_row.node "node-1" 1 one_node)
      default_reality_config)
unfolding render_vless_reality_payload_with_reality render_config render_inbound render_reality
    render_outbounds render_rules render_custom_routing_rules render_clients with_defaults
    render_access_entries sorted_subscription_inputs entry_value policy add_rule dummy_render_input
    render_subscription_summary find registered new_node_row
exact = ground arith

deploy_delivered_example :
    (revision : ConfigRevision) × (db' : Db) × (create_dummy_config_revision constant
        default_reality_config "rev-1" 20
        (record { node_id = "node-1"; created_by_admin_id = "" })
        one_node
      ≡ ok (revision, db'))
    × (validate_config_revision constant "node-1" (delivered revision) ≡ ok tt)
unfolding lock_node next_revision find registered new_node_row
deploy_delivered_example =
    deploy_delivered constant default_reality_config "rev-1" 20
      (record { node_id = "node-1"; created_by_admin_id = "" }) one_node one_row.node refl refl refl
      deployable exact

deployed :
    (revision : ConfigRevision) × (db' : Db) × (create_dummy_config_revision constant
        default_reality_config "rev-1" 20
        (record { node_id = "node-1"; created_by_admin_id = "" })
        one_node
      ≡ ok (revision, db'))
    × (validate_config_revision constant "node-1" (delivered revision) ≡ ok tt)
unfolding lock_node next_revision find registered new_node_row
deployed =
    deploy_delivered constant default_reality_config "rev-1" 20
      (record { node_id = "node-1"; created_by_admin_id = "" }) one_node one_row.node refl refl refl
      deployable exact

deployed-IsNewest_example : IsNewest "node-1" one_node deployed.0 deployed.1
deployed-IsNewest_example =
    deployed-IsNewest constant default_reality_config "rev-1" 20
      (record { node_id = "node-1"; created_by_admin_id = "" }) one_node deployed.0 deployed.1
      deployed.2

-- The revision has been applied, and the node's admin goes back to it.
abbrev applied : RevisionRow
applied =
    record (pending_row constant "rev-1" 20 "node-1" "" 1 (pos 0) (
      render_vless_reality_payload_with_reality
        (dummy_render_input constant 20 one_row.node "node-1" 1 one_node) default_reality_config)) {
          id = "rev-1";
          node_id = "node-1";
          revision_number = 1;
          status = "applied";
          payload =
              render_vless_reality_payload_with_reality
                (dummy_render_input constant 20 one_row.node "node-1" 1 one_node)
                default_reality_config;
        }

abbrev applied_db : Db
applied_db = record one_node { revisions = applied ∷ [] }

abbrev going_back : CreateRollbackInput
going_back = record { node_id = "node-1"; revision_id = "rev-1"; created_by_admin_id = "" }

numbers : HasExactNumbers (rollback_input one_row.node applied 2)
unfolding registered new_node_row
numbers = record {
  revision_number = ground arith;
  rollback_target_revision = ground arith;
  source_revision_number = ground arith;
}

applied-IsDeployable : IsDeployable applied.payload
applied-IsDeployable = rendered-IsDeployable _ default_reality_config deployable exact

abbrev sent : ℤ → Model.ConfigRevision
sent number = record {
  id = "rev";
  node_id = "node-1";
  revision_number = number;
  status = "pending";
  bundle_hash = "";
  signature = "";
  signer = "lenker-dev-hmac-sha256";
  rollback_target_revision = pos 0;
  bundle = none;
  created_at = 0;
  applied_at = 0;
}

abbrev back_again : RollbackInput
back_again = rollback_input one_row.node applied 3

again_numbers : HasExactNumbers back_again
unfolding registered new_node_row
again_numbers = record {
  revision_number = ground arith;
  rollback_target_revision = ground arith;
  source_revision_number = ground arith;
}

rendered_restorable_example :
    let payload = applied.payload in
    let rolled =
      render_rollback_payload (wire_fields payload) (rollback_input one_row.node applied 2) in
    Passes payload (sent (pos 1))
    × Passes rolled (sent (pos 2))
    × Passes (render_rollback_payload (wire_fields rolled) back_again) (sent (pos 3))
unfolding dummy_render_input
rendered_restorable_example =
    rendered_restorable (dummy_render_input constant 20 one_row.node "node-1" 1 one_node)
      default_reality_config deployable exact (rollback_input one_row.node applied 2) back_again
      numbers again_numbers (sent (pos 1)) (sent (pos 2)) (sent (pos 3)) refl refl refl

rollback_delivered_example :
    (added : RevisionRow) × (db' : Db) × (create_rollback_config_revision constant "rev-2" 30
        going_back applied_db
      ≡ ok (scan_config_revision added, db'))
    × (db'.revisions ≡ applied_db.revisions ++ (added ∷ []))
    × IsDeployable added.payload
    × (validate_config_revision constant "node-1" (delivered (scan_config_revision added)) ≡ ok tt)
unfolding lock_node next_revision find registered new_node_row
rollback_delivered_example =
    rollback_delivered constant "rev-2" 30 going_back applied_db one_row.node applied refl refl refl
      applied-IsDeployable refl refl numbers

returned :
    (added : RevisionRow) × (db' : Db) × (create_rollback_config_revision constant "rev-2" 30
        going_back applied_db
      ≡ ok (scan_config_revision added, db'))
    × (db'.revisions ≡ applied_db.revisions ++ (added ∷ []))
    × IsDeployable added.payload
    × (validate_config_revision constant "node-1" (delivered (scan_config_revision added)) ≡ ok tt)
unfolding lock_node next_revision find registered new_node_row
returned =
    rollback_delivered constant "rev-2" 30 going_back applied_db one_row.node applied refl refl refl
      applied-IsDeployable refl refl numbers

rolled_back-IsNewest_example :
    IsNewest "node-1" applied_db (scan_config_revision returned.0) returned.1
rolled_back-IsNewest_example =
    rolled_back-IsNewest constant "rev-2" 30 going_back applied_db (scan_config_revision returned.0)
      returned.1 returned.2
