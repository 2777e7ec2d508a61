-- ===== src/Contract/Deployment.antt =====
-- What the renderer of the panel makes (services/panel-api/internal/configrender/xray.go) is on the
-- common ground of the two gates, and the agent accepts it.
use mathlib.Core.Option.{some-injective}
use mathlib.Core.Path.{subst}
use lenker_panel.Base.{
  ◌≡◌, ◌≢◌, refl, sym, String, Bool, true, false, Option, some, none, List, [], ◌∷◌, ◌∙◌, ok, All,
  All-append, int_eq_refl, is_blank,
}
use lenker_panel.Json.{
  Value, Fields, obj, get, as_array, string_field, string_array, has_key, elems-items,
}
use lenker_panel.Agent.Model.{ConfigRevision}
use lenker_panel.Agent.Verify.{validate_rendered_config_payload}
use lenker_panel.Panel.Validate
use lenker_panel.Panel.Render.{
  RealityConfig, with_defaults, WarpInput, RoutingRuleInput, RenderInput, add_rule,
  render_custom_routing_rules, rule_match, render_access_entries, sorted_subscription_inputs,
}
use lenker_panel.Panel.Render.Payload.{
  needs_block, block_outbounds, warp_outbounds, render_outbounds, render_rules, render_config,
  render_vless_reality_payload_with_reality,
}
use lenker_panel.Panel.Render.Accepts.{IsRenderable, config_accepted}
use lenker_panel.Contract.Gates.{IsSupported, IsSourced, IsCommon, gates_agree}

supported :
    (m : Fields) (p : String)
    → string_field m "protocol" ≡ some p
    → Validate.is_supported p ≡ true
    → IsSupported (obj m)
supported m p e h outbound protocol o f = cc

outbounds-IsSupported : (input : RenderInput) → All IsSupported (render_outbounds input)
unfolding render_outbounds block_outbounds warp_outbounds Validate.is_supported is_blank
outbounds-IsSupported input = (
  supported _ "freedom" refl refl,
  All-append IsSupported _ _ (blocked (needs_block input.routing_rules))
      (tunnelled input.warp_credentials),
)
  where
    blocked : (b : Bool) → All IsSupported (block_outbounds b)
    blocked true = (supported _ "blackhole" refl refl, tt)
    blocked false = tt

    tunnelled : (w : Option WarpInput) → All IsSupported (warp_outbounds w)
    tunnelled none = tt
    tunnelled (some w) = (supported _ "wireguard" refl refl, tt)

sourced :
    (m : Fields) (s : String) (r : List String)
    → has_key "inboundTag" m ≡ true
    → string_array (get "inboundTag" m) ≡ some (s ∷ r)
    → IsSourced (obj m)
sourced m s r k e rule o =
    subst (λ x. (has_key "inboundTag" x ≡ true) × (string_array (get "inboundTag" x) ≢ some []))
      (some-injective _ _ o) (k, λ p. cc)

custom-IsSourced :
    (rules : List RoutingRuleInput)
    → All IsSourced (render_custom_routing_rules rules "vless-reality-in")
unfolding render_custom_routing_rules add_rule
custom-IsSourced [] = tt
custom-IsSourced (rule ∷ r) = added (rule_match rule.rule_type rule.target) _ (custom-IsSourced r)
  where
    added :
        (m : Option (String × Value)) (rest : List Value)
        → All IsSourced rest
        → All IsSourced (add_rule rule "vless-reality-in" m rest)
    added none rest h = h
    added (some (key, value)) rest h = (sourced _ "vless-reality-in" [] refl refl, h)

rules-IsSourced :
    (rules : List RoutingRuleInput) → All IsSourced (render_rules rules "vless-reality-in")
unfolding render_rules
rules-IsSourced rules =
    All-append IsSourced _ _ (custom-IsSourced rules)
      (sourced _ "vless-reality-in" [] refl refl, tt)

pub rendered-IsCommon :
    (input : RenderInput) (reality : RealityConfig) (entries : List Value)
    → IsCommon (render_config input reality entries)
unfolding render_config
rendered-IsCommon input reality entries = record {
  outbounds = λ vs e.
      subst (All IsSupported) (sym (elems-items _) ∙ some-injective _ _ e)
        (outbounds-IsSupported input);
  rules = λ routing vs e f.
      let g = subst (λ m. as_array (get "rules" m) ≡ some vs) (sym (some-injective _ _ e)) f in
      subst (All IsSourced) (sym (elems-items _) ∙ some-injective _ _ g)
        (rules-IsSourced input.routing_rules);
}

-- The agent's check of the bundle accepts what was rendered, before it travels.
pub rendered_accepted :
    (r : ConfigRevision) (input : RenderInput) (reality : RealityConfig)
    → IsRenderable input reality
    → r.revision_number ≡ input.revision_number
    → validate_rendered_config_payload
        (record r { bundle = some (render_vless_reality_payload_with_reality input reality) })
      ≡ ok tt
unfolding validate_rendered_config_payload render_vless_reality_payload_with_reality
rendered_accepted r input reality h e =
    rw (e, int_eq_refl input.revision_number)
      (rw
        (
          gates_agree _ (
              rendered-IsCommon input (with_defaults reality)
                (render_access_entries (sorted_subscription_inputs input.subscription_inputs))),
          config_accepted input reality h,
        )
        refl)
