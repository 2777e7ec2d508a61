-- ===== src/Panel/Bundle.antt =====
-- Signing and verifying bundles: services/panel-api/internal/configbundle/bundle.go. The signer's key
-- is the development key, the one that the agent verifies with.
use lenker_panel.Base.{
  ◌≡◌, refl, String, ℤ, Result, ok, ◌>>=◌, ◌>>◌, require, guard, str_eq, eq_refl, append, decimal,
}
use lenker_panel.Json.{Fields}
use lenker_panel.Crypto.{Crypto, bytes_eq, bytes_eq_refl}
use lenker_panel.Crypto.Hex.{encode_to_string, decode_string, decode-encode}

pub record Bundle : Type 0 where
  pub node_id : String
  pub revision_number : ℤ
  pub status : String
  pub bundle_hash : String
  pub signature : String
  pub signer : String
  pub rollback_target_revision : ℤ
  pub payload : Fields

pub data BundleError : Type 0 where
  invalid_signature invalid_bundle_hash : BundleError

-- `fmt.Sprintf("%s\n%d\n%s\n%d", …)`, of this package and of the agent's service.go
unfoldable pub signing_payload : String → ℤ → String → ℤ → String
signing_payload node_id revision_number bundle_hash rollback_target_revision = append node_id (
    append "\n" (
      append (decimal revision_number)
        (append "\n" (append bundle_hash (append "\n" (decimal rollback_target_revision))))))

module _ (c : Crypto) where
  -- HashPayload
  unfoldable pub hash_payload : Fields → String
  hash_payload payload = encode_to_string (c.sum payload)

  unfoldable pub sign : Bundle → String
  sign b =
      encode_to_string (
        c.mac
          (signing_payload b.node_id b.revision_number b.bundle_hash b.rollback_target_revision))

  unfoldable pub verify_bundle_hash : Bundle → Result BundleError (Unit {0})
  verify_bundle_hash b = guard (str_eq b.bundle_hash (hash_payload b.payload)) invalid_bundle_hash

  unfoldable pub verify : Bundle → Result BundleError (Unit {0})
  verify b = do
    verify_bundle_hash b
    actual ← require (decode_string b.signature) invalid_signature
    expected ← require (decode_string (sign b)) invalid_signature
    guard (bytes_eq actual expected) invalid_signature

  -- A bundle with its hash and its signature.
  unfoldable pub seal : Bundle → Bundle
  seal b =
      let hashed = record b { bundle_hash = hash_payload b.payload } in
      record hashed { signature = sign hashed }

  -- Whatever the bundle, once it is hashed and signed it verifies.
  pub verify-seal : (b : Bundle) → verify (seal b) ≡ ok tt
  unfolding verify verify_bundle_hash seal sign
  verify-seal b =
      rw (eq_refl (hash_payload b.payload), decode-encode _ (c.mac_bytes _))
        (rw (bytes_eq_refl) refl)
