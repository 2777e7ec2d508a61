-- ===== src/Contract/Delivery.antt =====
-- From the panel's store (services/panel-api/internal/storage/nodes.go) to the agent's checks
-- (services/node-agent/internal/agent/service.go): the revision is read from its row and sent as JSON,
-- which the agent's client decodes.
use lenker_panel.Base.{
  ℕ, suc, ◌≡◌, refl, sym, ap, ◌∙◌, String, false, Option, none, some, List, [], ◌∷◌, length, ok,
  pos, ℤ, Time, is_empty, eq_refl,
}
use lenker_panel.Crypto.{Crypto, bytes_eq_refl}
use lenker_panel.Crypto.Hex.{encode_to_string, decode-encode}
use lenker_panel.Json.{Fields}
use lenker_panel.Json.Wire.{wire_fields, wire_fields_twice, canon-wire_fields, HasExact}
use lenker_panel.Agent.Model.{ConfigRevision}
use lenker_panel.Agent.Verify.{
  is_complete, is_for, sum_of, verify_config_bundle_hash, verify_config_signature,
  validate_rendered_config_payload, validate_config_revision,
}
use lenker_panel.Panel.Bundle.{hash_payload, sign, seal}
use lenker_panel.Panel.Nodes.Revisions
use lenker_panel.Panel.Nodes.Revisions.{scan_config_revision}
use lenker_panel.Panel.Nodes.Revisions.Create.{pending_bundle, revision_row, pending_row}
use lenker_panel.Contract.Payload.{payload_decoded}

-- a null time is the zero time
abbrev or_zero_time : Option Time → Time
or_zero_time none = 0
or_zero_time (some t) = t

-- What the agent decodes.
unfoldable pub delivered : Revisions.ConfigRevision → ConfigRevision
delivered r = record {
  id = r.id;
  node_id = r.node_id;
  revision_number = pos r.revision_number;
  status = r.status;
  bundle_hash = r.bundle_hash;
  signature = r.signature;
  signer = r.signer;
  rollback_target_revision = r.rollback_target_revision;
  bundle = some (wire_fields r.bundle);
  created_at = r.created_at;
  applied_at = or_zero_time r.applied_at;
}

encode-visible : (bs : List ℕ) → length bs ≡ 32 → is_empty (encode_to_string bs) ≡ false
unfolding encode_to_string
encode-visible [] h = cc
encode-visible (b ∷ bs) h = refl

module _ (c : Crypto) where
  -- The hash of a payload is the hash of what the agent decodes.
  sum-delivered :
      (payload : Fields)
      → HasExact payload
      → c.sum (wire_fields (wire_fields payload)) ≡ c.sum payload
  sum-delivered payload h = rw (wire_fields_twice payload) (
      sym (c.sum_canon (wire_fields payload))
      ∙ ap c.sum (canon-wire_fields payload h)
      ∙ c.sum_canon payload)

  -- A payload whose check by the agent succeeds before it travels makes a revision that the agent
  -- accepts after it has been hashed, signed, stored, read and sent.
  pub delivered_accepted :
      (id : String) (now : Time) (node_id admin_id : String) (n : ℕ) (current : ℤ)
      (payload : Fields)
      → is_empty node_id ≡ false
      → HasExact payload
      → ((r : ConfigRevision)
          → r.revision_number ≡ pos (suc n)
          → validate_rendered_config_payload (record r { bundle = some payload }) ≡ ok tt)
      → validate_config_revision c node_id (
          delivered
            (scan_config_revision (pending_row c id now node_id admin_id (suc n) current payload)))
        ≡ ok tt
  unfolding validate_config_revision verify_config_bundle_hash verify_config_signature sum_of
      is_complete is_for delivered scan_config_revision pending_row revision_row pending_bundle seal
      sign hash_payload
  delivered_accepted id now node_id admin_id n current payload v x a =
      let r =
        delivered
          (scan_config_revision (pending_row c id now node_id admin_id (suc n) current payload)) in
      rw
        (
          v,
          encode-visible (c.sum payload) (c.sum_length payload),
          encode-visible (c.mac _) (c.mac_length _),
          eq_refl node_id,
        )
        (rw (sum-delivered payload x, eq_refl (encode_to_string (c.sum payload)))
          (rw (decode-encode _ (c.mac_bytes _)) (
            rw (bytes_eq_refl)
              (rw (wire_fields_twice payload) (payload_decoded r payload x ∙ a r refl)))))
