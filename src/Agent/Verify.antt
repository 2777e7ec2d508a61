-- ===== src/Agent/Verify.antt =====
-- The checks on a fetched revision, verifyConfigBundleHash to validateRenderedConfigPayload of
-- services/node-agent/internal/agent/service.go.
use lenker_panel.Base.{
  ℕ, String, Bool, not, ◌&&◌, ◌||◌, Option, none, some, List, [], ◌∷◌, is_pos, int_eq, Result, ok,
  err, ◌>>=◌, ◌>>◌, require, guard, str_eq, is_empty,
}
use lenker_panel.Json.{Fields, get, as_object, as_array, as_text, number_as_int}
use lenker_panel.Json.Gate.{GateError}
use lenker_panel.Crypto.{Crypto, bytes_eq}
use lenker_panel.Crypto.Hex.{encode_to_string, decode_string}
use lenker_panel.Panel.Bundle.{signing_payload}
use lenker_panel.Agent.Model.{
  ConfigRevision, AgentError, invalid_config_revision, invalid_config_bundle_hash,
  invalid_config_signature, invalid_config_payload, invalid_xray_config,
}
use lenker_panel.Agent.Xray.{validate_xray_config_artifact}

-- `value, ok := bundle[key].(string); !ok || value != expected`, for each required text. The order in
-- which Go ranges over them does not show: they fail alike.
unfoldable pub required_strings : List (String × String)
required_strings =
    ("schema_version", "config-bundle.v1alpha1")
    ∷ ("generated_by", "panel-api")
    ∷ ("protocol", "vless-reality-xtls-vision")
    ∷ ("core_type", "xray")
    ∷ ("config_kind", "xray-config-compatible-skeleton")
    ∷ []

unfoldable pub check_strings : Fields → List (String × String) → Result AgentError (Unit {0})
check_strings bundle [] = ok tt
check_strings bundle ((key, expected) ∷ r) = do
  value ← require (as_text (get key bundle)) invalid_config_payload
  guard (str_eq value expected) invalid_config_payload
  check_strings bundle r

unfoldable pub is_operation : String → Bool
is_operation kind = str_eq kind "deploy" || str_eq kind "rollback"

unfoldable pub from_gate : Result GateError (Unit {0}) → Result AgentError (Unit {0})
from_gate (ok u) = ok u
from_gate (err e) = err (invalid_xray_config e)

unfoldable pub validate_rendered_config_payload : ConfigRevision → Result AgentError (Unit {0})
unfolding check_strings required_strings is_operation from_gate
validate_rendered_config_payload revision = do
  bundle ← require revision.bundle invalid_config_payload
  check_strings bundle required_strings
  number ← require (number_as_int (get "revision_number" bundle)) invalid_config_payload
  guard (int_eq number revision.revision_number) invalid_config_payload
  _ ← require (as_object (get "node" bundle)) invalid_config_payload
  _ ← require (as_object (get "transport" bundle)) invalid_config_payload
  config ← require (as_object (get "config" bundle)) invalid_config_payload
  kind ← require (as_text (get "operation_kind" bundle)) invalid_config_payload
  guard (is_operation kind) invalid_config_payload
  _ ← require (as_array (get "subscription_inputs" bundle)) invalid_config_payload
  _ ← require (as_array (get "access_entries" bundle)) invalid_config_payload
  from_gate (validate_xray_config_artifact (some config))

-- `revision.NodeID == "" || …`
unfoldable pub is_complete : ConfigRevision → Bool
is_complete r = not (
    is_empty r.node_id
    || not (is_pos r.revision_number)
    || is_empty r.bundle_hash
    || is_empty r.signature
    || is_empty r.signer)

-- `s.identity.NodeID != "" && revision.NodeID != s.identity.NodeID`
unfoldable pub is_for : String → ConfigRevision → Bool
is_for node_id r = not (not (is_empty node_id) && not (str_eq r.node_id node_id))

module _ (c : Crypto) where
  unfoldable pub sum_of : Option Fields → List ℕ
  sum_of none = c.null_sum
  sum_of (some bundle) = c.sum bundle

  unfoldable pub verify_config_bundle_hash : ConfigRevision → Result AgentError (Unit {0})
  unfolding sum_of
  verify_config_bundle_hash revision =
      guard (str_eq revision.bundle_hash (encode_to_string (sum_of revision.bundle)))
        invalid_config_bundle_hash

  unfoldable pub verify_config_signature : ConfigRevision → Result AgentError (Unit {0})
  verify_config_signature r = do
    let expected =
        c.mac (signing_payload r.node_id r.revision_number r.bundle_hash r.rollback_target_revision)
    actual ← require (decode_string r.signature) invalid_config_signature
    guard (bytes_eq actual expected) invalid_config_signature

  -- the checks of ValidateAndStoreConfigRevision, for the node with this identity
  unfoldable pub validate_config_revision : String → ConfigRevision → Result AgentError (Unit {0})
  unfolding is_complete is_for
  validate_config_revision node_id revision = do
    guard (is_complete revision) invalid_config_revision
    guard (is_for node_id revision) invalid_config_revision
    guard (str_eq revision.signer "lenker-dev-hmac-sha256") invalid_config_signature
    verify_config_bundle_hash revision
    verify_config_signature revision
    validate_rendered_config_payload revision
