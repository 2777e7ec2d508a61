-- ===== src/Tests/Contracts.antt =====
-- The theorems on rendering, signing and delivery, at concrete inputs.
use lenker_panel.Base.{◌≡◌, refl, none, some, [], ◌∷◌, pos, ok, is_blank, List, arith}
use lenker_panel.Json.{Fields, fields, int, text}
use lenker_panel.Json.Wire.{wire_fields, HasExact}
use lenker_panel.Agent.Xray
use lenker_panel.Agent.Model
use lenker_panel.Agent.Verify.{validate_rendered_config_payload}
use lenker_panel.Contract.Payload.{payload_decoded}
use lenker_panel.Panel.Validate
use lenker_panel.Panel.Bundle.{Bundle, verify, seal, verify-seal}
use lenker_panel.Panel.Render.{
  RenderInput, SubscriptionInput, default_reality_config, with_defaults, render_access_entries,
  render_subscription_summary, render_custom_routing_rules, render_clients, entry_value, add_rule,
  sorted_subscription_inputs,
}
use lenker_panel.Panel.Render.Payload.{
  render_config, render_inbound, render_reality, render_outbounds, render_rules, policy,
  render_vless_reality_payload_with_reality,
}
use lenker_panel.Panel.Render.Accepts.{IsRenderable, render-accepted}
use lenker_panel.Contract.Gates.{gates_agree}
use lenker_panel.Contract.Decoding.{gate_decoded}
use lenker_panel.Contract.Deployment.{rendered-IsCommon}
use lenker_panel.Tests.{constant}

abbrev two_subscriptions : List SubscriptionInput
two_subscriptions =
    record {
      subscription_id = "sub-2";
      user_id = "user-1";
      plan_id = "plan-1";
      user_status = "active";
      subscription_status = "active";
      preferred_region = "";
      plan_name = "Basic";
      device_limit = pos 3;
      traffic_limit_bytes = some (pos 1000000);
      starts_at = "2026-01-01T00:00:00Z";
      expires_at = "2027-01-01T00:00:00Z";
    }
    ∷ record {
      subscription_id = "sub-1";
      user_id = "user-2";
      plan_id = "plan-1";
      user_status = "active";
      subscription_status = "active";
      preferred_region = "eu";
      plan_name = "Basic";
      device_limit = pos 1;
      traffic_limit_bytes = none;
      starts_at = "2026-01-01T00:00:00Z";
      expires_at = "2027-01-01T00:00:00Z";
    }
    ∷ []

abbrev render_input : RenderInput
render_input = record {
  node_id = "node-1";
  revision_number = pos 4;
  hostname = "de-1.example";
  region = "eu";
  country_code = "DE";
  subscription_inputs = two_subscriptions;
  routing_rules = record { rule_type = "geosite"; target = "ads"; action = "block" } ∷ [];
  global_settings = none;
  warp_credentials = none;
  rollback_target_revision = pos 3;
}

render_input-IsRenderable : IsRenderable render_input default_reality_config
unfolding is_blank with_defaults
render_input-IsRenderable = record {
  ids = (refl, (refl, tt));
  dest = refl;
  private_key = refl;
  warp = (refl, tt);
}

render-accepted_example :
    Validate.validate_vless_reality_payload
      (some (render_vless_reality_payload_with_reality render_input default_reality_config))
    ≡ ok tt
render-accepted_example =
    render-accepted render_input default_reality_config render_input-IsRenderable

abbrev config : Fields
config =
    render_config render_input (with_defaults default_reality_config)
      (render_access_entries (sorted_subscription_inputs two_subscriptions))

gates_agree_example :
    Xray.validate_xray_config_artifact (some config)
    ≡ Validate.validate_vless_reality_config (some config)
gates_agree_example = gates_agree config (rendered-IsCommon render_input _ _)

config-HasExact : HasExact config
unfolding render_config render_inbound render_reality render_outbounds render_rules
    render_custom_routing_rules render_clients with_defaults render_access_entries
    sorted_subscription_inputs entry_value policy add_rule
config-HasExact = ground arith

gate_decoded_example :
    Xray.validate_xray_config_artifact (some (wire_fields config))
    ≡ Xray.validate_xray_config_artifact (some config)
gate_decoded_example = gate_decoded config config-HasExact

abbrev bundle : Bundle
bundle = record {
  node_id = "node-1";
  revision_number = pos 4;
  status = "pending";
  bundle_hash = "";
  signature = "";
  signer = "lenker-dev-hmac-sha256";
  rollback_target_revision = pos 3;
  payload = fields (("config_text", text "hello") ∷ ("revision_number", int (pos 4)) ∷ []);
}

verify-seal_example : verify constant (seal constant bundle) ≡ ok tt
verify-seal_example = verify-seal constant bundle

abbrev fetched : Model.ConfigRevision
fetched = record {
  id = "rev-4";
  node_id = "node-1";
  revision_number = pos 4;
  status = "pending";
  bundle_hash = "";
  signature = "";
  signer = "lenker-dev-hmac-sha256";
  rollback_target_revision = pos 3;
  bundle = none;
  created_at = 1;
  applied_at = 0;
}

abbrev payload : Fields
payload = render_vless_reality_payload_with_reality render_input default_reality_config

payload-HasExact : HasExact payload
unfolding render_vless_reality_payload_with_reality render_config render_inbound render_reality
    render_outbounds render_rules render_custom_routing_rules render_clients with_defaults
    render_access_entries sorted_subscription_inputs entry_value policy add_rule
    render_subscription_summary
payload-HasExact = ground arith

payload_decoded_example :
    validate_rendered_config_payload (record fetched { bundle = some (wire_fields payload) })
    ≡ validate_rendered_config_payload (record fetched { bundle = some payload })
payload_decoded_example = payload_decoded fetched payload payload-HasExact
