-- ===== src/Panel/Render/Accepts.antt =====
-- Rendered payloads pass the panel's own precheck.
pub mod Inbound
pub mod Routing
use lenker_panel.Base.{
  ℕ, ◌+◌, ◌≡◌, ◌≢◌, refl, String, Bool, true, false, ◌||◌, Option, none, some, List, [], ◌∷◌, ◌++◌,
  ℤ, pos, is_pos, All, arith, ok, err, ◌>>=◌, Bool-cases, inl, inr, ◌⊎◌, str_eq, is_blank, append,
  is_blank-visible, if◌then◌else◌,
}
use lenker_panel.Json
use lenker_panel.Json.{Value, array, Fields, fields, object, text, elems-items}
use lenker_panel.Json.Gate.{contains, is_nonempty}
use lenker_panel.Panel.Validate
use lenker_panel.Panel.Render.{
  RealityConfig, with_defaults, WarpInput, RoutingRuleInput, SubscriptionInput, RenderInput,
  sorted_subscription_inputs, render_access_entries, render_clients, render_custom_routing_rules,
  insert_input, entry_value, build_access_entry, action_to_outbound, rule_match, add_rule,
}
use lenker_panel.Panel.Render.Payload.{
  render_outbounds, render_rules, render_reality, default_rule, sniffing, render_inbound,
  render_config, needs_block, block_outbounds, warp_outbounds,
  render_vless_reality_payload_with_reality,
}
use lenker_panel.Panel.Render.Accepts.Inbound.{
  HasId, sorted-HasId, with_defaults-is_pos, inbound_accepted,
}
use lenker_panel.Panel.Render.Accepts.Routing.{
  HasWarp, outbounds_accepted, is_nonempty-render_outbounds, routing_accepted,
}

-- Rendering has what it needs: subscriptions have identifiers, the Reality settings are not blank,
-- and no rule sends to WARP without credentials.
pub record IsRenderable (input : RenderInput) (reality : RealityConfig) : Type 0 where
  pub ids : All HasId input.subscription_inputs
  pub dest : is_blank (with_defaults reality).dest ≡ false
  pub private_key : is_blank (with_defaults reality).private_key ≡ false
  pub warp : All (HasWarp input.warp_credentials) input.routing_rules

pub config_accepted :
    (input : RenderInput) (reality : RealityConfig)
    → IsRenderable input reality
    → Validate.validate_vless_reality_config (
        some (
          render_config input
            (with_defaults reality)
            (render_access_entries (sorted_subscription_inputs input.subscription_inputs))))
      ≡ ok tt
unfolding Validate.validate_vless_reality_config render_config
config_accepted input reality h =
    rw
      (inbound_accepted (with_defaults reality) (sniffing input.global_settings)
        (sorted_subscription_inputs input.subscription_inputs)
        (sorted-HasId input.subscription_inputs h.ids) (with_defaults-is_pos reality) h.dest
        h.private_key)
      (rw (elems-items (render_outbounds input)) (
        rw (is_nonempty-render_outbounds input, outbounds_accepted input)
          (routing_accepted input h.warp)))

-- A payload rendered from usable input passes the panel's own precheck.
pub render-accepted :
    (input : RenderInput) (reality : RealityConfig)
    → IsRenderable input reality
    → Validate.validate_vless_reality_payload
        (some (render_vless_reality_payload_with_reality input reality))
      ≡ ok tt
unfolding Validate.validate_vless_reality_payload render_vless_reality_payload_with_reality
render-accepted input reality h = config_accepted input reality h
