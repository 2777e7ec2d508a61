-- ===== src/Contract/Decoding.antt =====
-- The agent's gate on a configuration that has travelled as JSON
-- (services/node-agent/internal/agent/xray_validator.go).
use mathlib.Core.Option
use mathlib.Core.Option.{some-injective}
use mathlib.Core.Path.{subst}
use lenker_panel.Base.{
  ℕ, ◌+◌, ◌≡◌, refl, String, Option, none, some, List, [], ◌∷◌, map, All, inl, inr, Option-cases,
  ◌>>◌, require,
}
use lenker_panel.Json.{Value, Fields, get, as_object, as_array}
use lenker_panel.Json.Wire.{wire, wire_fields, get-wire_fields, IsExact, HasExact}
use lenker_panel.Json.Decoded.{
  as_text-wire, as_bool-wire, as_object-wire, as_array-wire, number_as_int-wire, string_field-wire,
  string_array-wire, IsExact-get, HasExact-of_object, object-cases, array-cases,
}
use lenker_panel.Json.Gate.{GateError, Gate, is_nonempty}
use lenker_panel.Agent.Xray.{
  validate_vless_client, validate_clients, validate_reality_settings,
  validate_vless_reality_inbound, outbound_tags, validate_outbounds, validate_rule, validate_rules,
  validate_routing, single, validate_xray_config_artifact,
}

ruleset decoding =
    (get-wire_fields, as_text-wire, as_bool-wire, string_field-wire, string_array-wire)

client_decoded :
    (m : Fields) → HasExact m → validate_vless_client (wire_fields m) ≡ validate_vless_client m
unfolding validate_vless_client
client_decoded m h = simp (decoding, number_as_int-wire (get "level" m) (IsExact-get "level" m h))

clients_decoded :
    (n : ℕ) (vs : List Value)
    → All IsExact vs
    → validate_clients n (map wire vs) ≡ validate_clients n vs
unfolding validate_clients
clients_decoded n [] h = refl
clients_decoded n (v ∷ vs) h = elim (Option-cases (as_object v)) [
  | inl e ↦ rw (as_object-wire, e) refl
  | inr (m, e) ↦
      rw
        (
          as_object-wire,
          e,
          client_decoded m (HasExact-of_object v m h.0 e),
          clients_decoded (n + 1) vs h.1,
        )
        refl
]

reality_decoded :
    (m : Fields)
    → HasExact m
    → validate_reality_settings (wire_fields m) ≡ validate_reality_settings m
unfolding validate_reality_settings
reality_decoded m h = simp (
  decoding,
  number_as_int-wire (get "xver" m) (IsExact-get "xver" m h),
  number_as_int-wire (get "maxTimeDiff" m) (IsExact-get "maxTimeDiff" m h),
)

-- The part of the inbound after its settings.
inbound_decoded :
    (m : Fields)
    → HasExact m
    → validate_vless_reality_inbound (wire_fields m) ≡ validate_vless_reality_inbound m
unfolding validate_vless_reality_inbound
inbound_decoded m h =
    simp (decoding, number_as_int-wire (get "port" m) (IsExact-get "port" m h), as_object-wire)
      (elim (object-cases "settings" m h) [
        | inl e ↦ rw e refl
        | inr (settings, e, hs) ↦ elim (array-cases "clients" settings hs) [
          | inl c ↦ simp (e, decoding, as_array-wire, c)
          | inr (clients, c, hc) ↦ elim (object-cases "streamSettings" m h) [
            | inl t ↦ simp (e, t, decoding, as_array-wire, c, clients_decoded 0 clients hc)
            | inr (stream, t, ht) ↦ elim (object-cases "realitySettings" stream ht) [
              | inl r ↦ simp (
                e,
                t,
                r,
                decoding,
                as_object-wire,
                as_array-wire,
                c,
                clients_decoded 0 clients hc,
              )
              | inr (reality, r, hr) ↦ simp (
                e,
                t,
                r,
                decoding,
                as_object-wire,
                as_array-wire,
                c,
                clients_decoded 0 clients hc,
                reality_decoded reality hr,
              )
            ]
          ]
        ]
      ])

tags_decoded : (vs : List Value) → All IsExact vs → outbound_tags (map wire vs) ≡ outbound_tags vs
unfolding outbound_tags
tags_decoded [] h = refl
tags_decoded (v ∷ vs) h = elim (Option-cases (as_object v)) [
  | inl e ↦ rw (as_object-wire, e) refl
  | inr (m, e) ↦ simp (as_object-wire, e, decoding, tags_decoded vs h.1)
]

outbounds_decoded :
    (vs : List Value) → All IsExact vs → validate_outbounds (map wire vs) ≡ validate_outbounds vs
unfolding validate_outbounds
outbounds_decoded vs h = rw (tags_decoded vs h) refl

rule_decoded :
    (inbounds known : List String) (v : Value)
    → validate_rule inbounds known (wire v) ≡ validate_rule inbounds known v
unfolding validate_rule
rule_decoded inbounds known v = elim (Option-cases (as_object v)) [
  | inl e ↦ rw (as_object-wire, e) refl
  | inr (m, e) ↦ simp (as_object-wire, e, decoding)
]

rules_decoded :
    (inbounds known : List String) (vs : List Value)
    → validate_rules inbounds known (map wire vs) ≡ validate_rules inbounds known vs
unfolding validate_rules
rules_decoded inbounds known [] = refl
rules_decoded inbounds known (v ∷ vs) =
    rw (rule_decoded inbounds known v, rules_decoded inbounds known vs) refl

nonempty_decoded : (vs : List Value) → is_nonempty (map wire vs) ≡ is_nonempty vs
nonempty_decoded [] = refl
nonempty_decoded (v ∷ vs) = refl

routing_decoded :
    (m : Fields) (inbounds known : List String)
    → validate_routing (wire_fields m) inbounds known ≡ validate_routing m inbounds known
unfolding validate_routing
routing_decoded m inbounds known = elim (Option-cases (as_array (get "rules" m))) [
  | inl e ↦ simp (decoding, as_array-wire, e)
  | inr (vs, e) ↦ simp (decoding, as_array-wire, e, nonempty_decoded, rules_decoded)
]

single_decoded : (vs : List Value) → single (map wire vs) ≡ Option.map wire (single vs)
unfolding single
single_decoded [] = refl
single_decoded (v ∷ []) = refl
single_decoded (v ∷ w ∷ vs) = refl

-- Whether a map is there does not depend on what it holds.
require-map :
    (o : Option Fields) (e : GateError) (k : Gate (Unit {0}))
    → (require (Option.map wire_fields o) e >> k) ≡ (require o e >> k)
require-map none e k = refl
require-map (some m) e k = refl

single-IsExact : (vs : List Value) (v : Value) → All IsExact vs → single vs ≡ some v → IsExact v
unfolding single
single-IsExact [] v h e = cc
single-IsExact (w ∷ []) v h e = subst IsExact (some-injective _ _ e) h.0
single-IsExact (w ∷ x ∷ vs) v h e = cc

ruleset forms = (as_array-wire, as_object-wire, single_decoded, nonempty_decoded, routing_decoded)

-- Decoding changes neither the verdict of the agent's gate nor its error, on documents whose
-- integers a float64 holds exactly.
pub gate_decoded :
    (config : Fields)
    → HasExact config
    → validate_xray_config_artifact (some (wire_fields config))
      ≡ validate_xray_config_artifact (some config)
unfolding validate_xray_config_artifact
gate_decoded config h =
    simp (decoding, as_object-wire, require-map)
      (elim (array-cases "inbounds" config h) [
        | inl e ↦ simp (as_array-wire, e)
        | inr (inbounds, e, hi) ↦ elim (Option-cases (single inbounds)) [
          | inl s ↦ simp (forms, e, s)
          | inr (raw, s) ↦ elim (Option-cases (as_object raw)) [
            | inl r ↦ simp (forms, e, s, r)
            | inr (inbound, r) ↦
                let exact = HasExact-of_object raw inbound (single-IsExact inbounds raw hi s) r in
                let same = inbound_decoded inbound exact in
                elim (array-cases "outbounds" config h) [
                  | inl o ↦ simp (forms, e, s, r, same, o)
                  | inr (outbounds, o, ho) ↦
                      elim (Option-cases (as_object (get "routing" config))) [
                        | inl t ↦ simp (forms, e, s, r, same, o, outbounds_decoded outbounds ho, t)
                        | inr (routing, t) ↦
                            simp (forms, e, s, r, same, o, outbounds_decoded outbounds ho, t)
                      ]
                ]
          ]
        ]
      ])
