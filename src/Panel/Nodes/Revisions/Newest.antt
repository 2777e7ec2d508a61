-- ===== src/Panel/Nodes/Revisions/Newest.antt =====
-- The revisions that services/panel-api/internal/storage/nodes.go creates, deployed or rolled back to,
-- are newer than those of their node.
use lenker_panel.Base.{
  suc, ◌≡◌, refl, sym, ap, String, some, [], ◌∷◌, ◌++◌, ℤ, Time, ok, str_eq, ◌&&◌, >>=-eq-ok,
  ok-injective, guard, require,
}
use lenker_panel.Crypto.{Crypto}
use lenker_panel.Json.{Fields}
use lenker_panel.Panel.Validate.{validate_vless_reality_payload}
use lenker_panel.Panel.Bundle.{seal}
use lenker_panel.Panel.Render.{RealityConfig}
use lenker_panel.Panel.Nodes.{RevisionRow, Db, not_found, invalid_node_transition, find}
use lenker_panel.Panel.Nodes.Revisions.{
  ConfigRevision, scan_config_revision, max_revision, next_revision, check_revision,
  insert_revision, lock_node, from_gate,
}
use lenker_panel.Panel.Nodes.Revisions.Create.{
  CreateConfigRevisionInput, CreateRollbackInput, pending_row, revision_row, pending_bundle,
  store_payload, create_dummy_config_revision, create_rollback_config_revision,
}
use lenker_panel.Panel.Nodes.Revisions.Numbering.{NumberedUpTo, next_revision_larger}

-- The revision is pending, is the only change, and has the node's next number.
pub record IsNewest (node_id : String) (db : Db) (revision : ConfigRevision) (db' : Db)
    : Type 0 where
  pub row : RevisionRow
  pub read : revision ≡ scan_config_revision row
  pub added : db' ≡ record db { revisions = db.revisions ++ (row ∷ []) }
  pub pending : revision.status ≡ "pending"
  pub own : revision.node_id ≡ node_id
  pub next : revision.revision_number ≡ suc (max_revision node_id db.revisions)
  pub larger : NumberedUpTo node_id (max_revision node_id db.revisions) db.revisions

module _ (c : Crypto) where
  stored-IsNewest :
      (id : String) (now : Time) (node_id admin_id : String) (current : ℤ) (payload : Fields)
      (db : Db) (revision : ConfigRevision) (db' : Db)
      → store_payload c id now node_id admin_id (next_revision node_id db) current payload db
        ≡ ok (revision, db')
      → IsNewest node_id db revision db'
  unfolding store_payload insert_revision next_revision scan_config_revision pending_row
      revision_row pending_bundle seal
  stored-IsNewest id now node_id admin_id current payload db revision db' h =
      let row =
        pending_row c id now node_id admin_id (suc (max_revision node_id db.revisions)) current
          payload in
      let (_, _, h1) = >>=-eq-ok (from_gate (validate_vless_reality_payload (some payload))) _ h in
      let (_, _, h2) = >>=-eq-ok (check_revision row db) _ h1 in
      let e = ok-injective _ refl h2 in
      record {
        row = row;
        read = sym (ap (λ x. x.0) e);
        added = sym (ap (λ x. x.1) e);
        pending = sym (ap (λ x. x.0.status) e);
        own = sym (ap (λ x. x.0.node_id) e);
        next = sym (ap (λ x. x.0.revision_number) e);
        larger = next_revision_larger node_id db;
      }

  -- A deployed revision is added to the table and changes nothing else; it is pending, belongs to
  -- the node, and its number is one more than the largest of the node's numbers so far.
  pub deployed-IsNewest :
      (reality : RealityConfig) (id : String) (now : Time) (input : CreateConfigRevisionInput)
      (db : Db) (revision : ConfigRevision) (db' : Db)
      → create_dummy_config_revision c reality id now input db ≡ ok (revision, db')
      → IsNewest input.node_id db revision db'
  unfolding create_dummy_config_revision
  deployed-IsNewest reality id now input db revision db' h =
      let (_, _, h1) = >>=-eq-ok (lock_node input.node_id db) _ h in
      stored-IsNewest id now input.node_id input.created_by_admin_id _ _ db revision db' h1

  -- A rollback likewise adds a revision of its own: it does not bring back the old one's number.
  pub rolled_back-IsNewest :
      (id : String) (now : Time) (input : CreateRollbackInput) (db : Db) (revision : ConfigRevision)
      (db' : Db)
      → create_rollback_config_revision c id now input db ≡ ok (revision, db')
      → IsNewest input.node_id db revision db'
  unfolding create_rollback_config_revision
  rolled_back-IsNewest id now input db revision db' h =
      let (_, _, h1) = >>=-eq-ok (lock_node input.node_id db) _ h in
      let (row, _, h2) =
        >>=-eq-ok
          (require
            (find (λ r. str_eq r.node_id input.node_id && str_eq r.id input.revision_id)
              db.revisions)
            not_found)
          _ h1 in
      let (_, _, h3) =
        >>=-eq-ok
          (guard (str_eq (scan_config_revision row).status "applied") invalid_node_transition) _
          h2 in
      stored-IsNewest id now input.node_id input.created_by_admin_id _ _ db revision db' h3
