-- ===== src/Contract/Deployable.antt =====
-- The payloads that can be sent to an agent, which rendering makes and rolling back keeps:
-- services/panel-api/internal/configrender/xray.go, against the checks of validate.go and of the
-- agent's service.go.
use mathlib.Core.Option.{some-injective}
use mathlib.Core.Path.{subst}
use lenker_panel.Base.{
  ◌≡◌, ◌≢◌, refl, sym, ap, ◌∙◌, String, true, some, none, List, [], ◌∷◌, map, All, ok, int_eq_refl,
  Option-cases, inl, inr,
}
use lenker_panel.Json.{
  Value, Fields, get, has_key, as_object, as_array, as_text, string_array, string_field,
  number_as_int,
}
use lenker_panel.Json.Wire.{wire, wire_fields, get-wire_fields, HasExact}
use lenker_panel.Json.Decoded.{
  as_object-wire, as_array-wire, string_array-wire, string_field-wire, has_key-wire,
}
use lenker_panel.Agent.Model.{ConfigRevision}
use lenker_panel.Agent.Xray
use lenker_panel.Agent.Verify.{is_operation, validate_rendered_config_payload}
use lenker_panel.Panel.Validate
use lenker_panel.Contract.Gates.{IsSupported, IsSourced, IsCommon, gates_agree}

-- The agent accepts the payload, and the panel's precheck does too.
pub record IsDeployable (p : Fields) : Type 0 where
  pub exact : HasExact p
  pub schema : as_text (get "schema_version" p) ≡ some "config-bundle.v1alpha1"
  pub generator : as_text (get "generated_by" p) ≡ some "panel-api"
  pub protocol : as_text (get "protocol" p) ≡ some "vless-reality-xtls-vision"
  pub core : as_text (get "core_type" p) ≡ some "xray"
  pub config_kind : as_text (get "config_kind" p) ≡ some "xray-config-compatible-skeleton"
  pub kind : String
  pub kind_eq : as_text (get "operation_kind" p) ≡ some kind
  pub kind_ok : is_operation kind ≡ true
  pub node : Fields
  pub node_eq : as_object (get "node" p) ≡ some node
  pub transport : Fields
  pub transport_eq : as_object (get "transport" p) ≡ some transport
  pub inputs : List Value
  pub inputs_eq : as_array (get "subscription_inputs" p) ≡ some inputs
  pub entries : List Value
  pub entries_eq : as_array (get "access_entries" p) ≡ some entries
  pub config : Fields
  pub config_eq : as_object (get "config" p) ≡ some config
  pub common : IsCommon config
  pub accepted : Xray.validate_xray_config_artifact (some config) ≡ ok tt

pub deployable_accepted :
    (r : ConfigRevision) (p : Fields)
    → IsDeployable p
    → number_as_int (get "revision_number" p) ≡ some r.revision_number
    → validate_rendered_config_payload (record r { bundle = some p }) ≡ ok tt
unfolding validate_rendered_config_payload
deployable_accepted r p d n =
    rw
      (
        d.schema,
        d.generator,
        d.protocol,
        d.core,
        d.config_kind,
        n,
        int_eq_refl r.revision_number,
        d.node_eq,
        d.transport_eq,
        d.config_eq,
        d.kind_eq,
        d.kind_ok,
        d.inputs_eq,
        d.entries_eq,
        d.accepted,
      )
      refl

pub deployable_prechecked :
    (p : Fields) → IsDeployable p → Validate.validate_vless_reality_payload (some p) ≡ ok tt
unfolding Validate.validate_vless_reality_payload is_operation
deployable_prechecked p d =
    rw (d.schema, d.generator, d.protocol, d.core, d.config_kind, d.kind_eq)
      (rw (d.kind_ok) (rw (d.config_eq) (sym (gates_agree d.config d.common) ∙ d.accepted)))

-- A map in a decoded document is a decoded map.
object_of_wire :
    (v : Value) (o : Fields)
    → as_object (wire v) ≡ some o
    → (m : Fields) × (as_object v ≡ some m) × (wire_fields m ≡ o)
object_of_wire v o e = elim (Option-cases (as_object v)) [
  | inl n ↦ let k : none ≡ some o = rw (as_object-wire, n) at e in cc
  | inr (m, n) ↦ (m, n, some-injective _ _ (rw (as_object-wire, n) at e))
]

array_of_wire :
    (v : Value) (o : List Value)
    → as_array (wire v) ≡ some o
    → (vs : List Value) × (as_array v ≡ some vs) × (map wire vs ≡ o)
array_of_wire v o e = elim (Option-cases (as_array v)) [
  | inl n ↦ let k : none ≡ some o = rw (as_array-wire, n) at e in cc
  | inr (vs, n) ↦ (vs, n, some-injective _ _ (rw (as_array-wire, n) at e))
]

IsSupported-decoded : (vs : List Value) → All IsSupported vs → All IsSupported (map wire vs)
IsSupported-decoded [] h = tt
IsSupported-decoded (v ∷ vs) h = (single h.0, IsSupported-decoded vs h.1)
  where
    single : IsSupported v → IsSupported (wire v)
    single s outbound protocol e f =
        let (m, n, k) = object_of_wire v outbound e in
        s m protocol n (
          sym (string_field-wire m "protocol")
          ∙ subst (λ o. string_field o "protocol" ≡ some protocol) (sym k) f)

IsSourced-decoded : (vs : List Value) → All IsSourced vs → All IsSourced (map wire vs)
IsSourced-decoded [] h = tt
IsSourced-decoded (v ∷ vs) h = (single h.0, IsSourced-decoded vs h.1)
  where
    single : IsSourced v → IsSourced (wire v)
    single s rule e =
        let (m, n, k) = object_of_wire v rule e in
        subst (λ o. (has_key "inboundTag" o ≡ true) × (string_array (get "inboundTag" o) ≢ some []))
          k
          (
            has_key-wire "inboundTag" m ∙ (s m n).0,
            λ q.
                (s m n).1 (
                  sym (ap string_array (get-wire_fields "inboundTag" m) ∙ string_array-wire _) ∙ q),
          )

pub IsCommon-decoded : (config : Fields) → IsCommon config → IsCommon (wire_fields config)
IsCommon-decoded config h = record {
  outbounds = λ vs e.
      let (ws, n, k) =
        array_of_wire _ vs (sym (ap as_array (get-wire_fields "outbounds" config)) ∙ e) in
      subst (All IsSupported) k (IsSupported-decoded ws (h.outbounds ws n));
  rules = λ routing vs e f.
      let (m, n, k) =
        object_of_wire _ routing (sym (ap as_object (get-wire_fields "routing" config)) ∙ e) in
      let g = subst (λ o. as_array (get "rules" o) ≡ some vs) (sym k) f in
      let (ws, l, j) = array_of_wire _ vs (sym (ap as_array (get-wire_fields "rules" m)) ∙ g) in
      subst (All IsSourced) j (IsSourced-decoded ws (h.rules m ws n l));
}
