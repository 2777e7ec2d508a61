-- ===== src/Contract/Gates.antt =====
-- The gate of the agent (services/node-agent/internal/agent/xray_validator.go) against the precheck
-- of the panel (services/panel-api/internal/configrender/validate.go).
use lenker_panel.Base.{
  ℕ, ◌+◌, ◌≡◌, ◌≢◌, refl, String, true, some, List, [], ◌∷◌, All, ok, err, Option-cases, inl, inr,
  ap,
}
use lenker_panel.Json.{Value, Fields, get, has_key, as_object, as_array, string_field, string_array}
use lenker_panel.Json.Gate.{is_nonempty, Gate}
use lenker_panel.Agent.Xray
use lenker_panel.Panel.Validate

client_agree : (c : Fields) → Xray.validate_vless_client c ≡ Validate.validate_client c
unfolding Xray.validate_vless_client Validate.validate_client
client_agree c = refl

wrap_agree : (n : ℕ) (r : Gate (Unit {0})) → Xray.wrap_client n r ≡ Validate.wrap_client n r
unfolding Xray.wrap_client Validate.wrap_client
wrap_agree n (ok u) = refl
wrap_agree n (err e) = refl

clients_agree :
    (n : ℕ) (clients : List Value)
    → Xray.validate_clients n clients ≡ Validate.validate_clients n clients
unfolding Xray.validate_clients Validate.validate_clients
clients_agree n [] = refl
clients_agree n (raw ∷ rest) = simp (wrap_agree, client_agree, clients_agree (n + 1) rest)

reality_agree :
    (settings : Fields)
    → Xray.validate_reality_settings settings ≡ Validate.validate_reality settings
unfolding Xray.validate_reality_settings Validate.validate_reality
reality_agree settings = refl

inbound_agree :
    (inbound : Fields)
    → Xray.validate_vless_reality_inbound inbound ≡ Validate.validate_inbound inbound
unfolding Xray.validate_vless_reality_inbound Validate.validate_inbound
inbound_agree inbound = simp (clients_agree, reality_agree)

known_agree : (known tags : List String) → Xray.all_known known tags ≡ Validate.all_known known tags
unfolding Xray.all_known Validate.all_known
known_agree known [] = refl
known_agree known (t ∷ r) = rw (known_agree known r)

-- An outbound whose protocol, if it is given, the panel supports.
abbrev pub IsSupported : Value → Type 0
IsSupported raw =
    (outbound : Fields) (protocol : String)
    → as_object raw ≡ some outbound
    → string_field outbound "protocol" ≡ some protocol
    → Validate.is_supported protocol ≡ true

-- A rule that names its inbounds.
abbrev pub IsSourced : Value → Type 0
IsSourced raw =
    (rule : Fields)
    → as_object raw ≡ some rule
    → (has_key "inboundTag" rule ≡ true) × (string_array (get "inboundTag" rule) ≢ some [])

nonempty : (l : List String) → l ≢ [] → is_nonempty l ≡ true
nonempty [] h = absurd (h refl)
nonempty (x ∷ l) h = refl

tags_agree :
    (outbounds : List Value)
    → All IsSupported outbounds
    → Xray.outbound_tags outbounds ≡ Validate.outbound_tags outbounds
unfolding Xray.outbound_tags Validate.outbound_tags Xray.is_direct_freedom
    Validate.is_direct_freedom
tags_agree [] h = refl
tags_agree (raw ∷ rest) h = elim (Option-cases (as_object raw)) [
  | inl e ↦ rw e refl
  | inr (outbound, e) ↦ elim (Option-cases (string_field outbound "protocol")) [
    | inl p ↦ rw (e, p) refl
    | inr (protocol, p) ↦ rw (e, p, h.0 outbound protocol e p, tags_agree rest h.1) refl
  ]
]

rule_agrees :
    (inbounds known : List String) (raw : Value)
    → IsSourced raw
    → Xray.validate_rule inbounds known raw ≡ Validate.validate_rule inbounds known raw
unfolding Xray.validate_rule Validate.validate_rule Validate.validate_sources
rule_agrees inbounds known raw h = elim (Option-cases (as_object raw)) [
  | inl e ↦ rw e refl
  | inr (rule, e) ↦ elim (Option-cases (string_array (get "inboundTag" rule))) [
    | inl p ↦ rw (e, (h rule e).0, Validate.validate_sources, p) refl
    | inr (sources, p) ↦
        rw
          (
            e,
            (h rule e).0,
            Validate.validate_sources,
            p,
            nonempty sources (λ q. (h rule e).1 (rw p (ap some q))),
            known_agree inbounds sources,
          )
          refl
  ]
]

rules_agree :
    (inbounds known : List String) (rules : List Value)
    → All IsSourced rules
    → Xray.validate_rules inbounds known rules ≡ Validate.validate_rules inbounds known rules
unfolding Xray.validate_rules Validate.validate_rules
rules_agree inbounds known [] h = refl
rules_agree inbounds known (raw ∷ rest) h =
    rw (rule_agrees inbounds known raw h.0, rules_agree inbounds known rest h.1) refl

-- The configurations on which the gates have the same rules: their outbounds have protocols that
-- the panel supports, and their routing rules name their inbounds.
pub record IsCommon (config : Fields) : Type 0 where
  pub outbounds :
      (vs : List Value) → as_array (get "outbounds" config) ≡ some vs → All IsSupported vs
  pub rules :
      (routing : Fields) (vs : List Value)
      → as_object (get "routing" config) ≡ some routing
      → as_array (get "rules" routing) ≡ some vs
      → All IsSourced vs

outbounds_agree :
    (vs : List Value)
    → All IsSupported vs
    → Xray.validate_outbounds vs ≡ Validate.validate_outbounds vs
unfolding Xray.validate_outbounds Validate.validate_outbounds
outbounds_agree vs h = rw (tags_agree vs h) refl

routing_agrees :
    (routing : Fields) (inbounds known : List String)
    → ((vs : List Value) → as_array (get "rules" routing) ≡ some vs → All IsSourced vs)
    → Xray.validate_routing routing inbounds known
      ≡ Validate.validate_routing routing inbounds known
unfolding Xray.validate_routing Validate.validate_routing
routing_agrees routing inbounds known h = elim (Option-cases (as_array (get "rules" routing))) [
  | inl e ↦ rw e refl
  | inr (vs, e) ↦ rw e (rw (rules_agree inbounds known vs (h vs e)) refl)
]

single_agrees : (vs : List Value) → Xray.single vs ≡ Validate.single vs
unfolding Xray.single Validate.single
single_agrees [] = refl
single_agrees (v ∷ []) = refl
single_agrees (v ∷ w ∷ vs) = refl

-- On such a configuration the agent's gate and the panel's give the same verdict, with the same
-- error.
pub gates_agree :
    (config : Fields)
    → IsCommon config
    → Xray.validate_xray_config_artifact (some config)
      ≡ Validate.validate_vless_reality_config (some config)
unfolding Xray.validate_xray_config_artifact Validate.validate_vless_reality_config
gates_agree config h =
    simp (single_agrees, inbound_agree)
      (elim (Option-cases (as_array (get "outbounds" config))) [
        | inl e ↦ rw e refl
        | inr (outbounds, e) ↦ elim (Option-cases (as_object (get "routing" config))) [
          | inl r ↦ rw (e, outbounds_agree outbounds (h.outbounds outbounds e), r) refl
          | inr (routing, r) ↦
              let routed : (inbounds known : List String)
                  → Xray.validate_routing routing inbounds known
                    ≡ Validate.validate_routing routing inbounds known =
                λ inbounds known.
                  routing_agrees routing inbounds known (λ vs. h.rules routing vs r) in
              simp (e, outbounds_agree outbounds (h.outbounds outbounds e), r, routed)
        ]
      ])
