-- ===== src/Panel/Render/Payload.antt =====
-- RenderVLESSRealityPayloadWithReality and RenderRollbackPayload of
-- services/panel-api/internal/configrender/xray.go.
use lenker_panel.Base.{
  ℕ, String, Bool, true, false, ◌||◌, Option, none, some, List, [], ◌∷◌, ◌++◌, map, pos,
  if◌then◌else◌, str_eq, is_empty, append, decimal, length,
}
use lenker_panel.Json.{Value, bool, int, text, obj, Fields, fields, array, object}
use lenker_panel.Panel.Render.{
  RealityConfig, with_defaults, GlobalSettingsInput, WarpInput, RoutingRuleInput, RenderInput,
  sorted_subscription_inputs, render_subscription_summary, render_access_entries, render_clients,
  render_custom_routing_rules,
}

-- the loop that looks for a block rule
unfoldable pub needs_block : List RoutingRuleInput → Bool
needs_block [] = false
needs_block (rule ∷ r) = str_eq rule.action "block" || needs_block r

unfoldable pub block_outbounds : Bool → List Value
block_outbounds false = []
block_outbounds true = object (("tag", text "block") ∷ ("protocol", text "blackhole") ∷ []) ∷ []

unfoldable pub warp_outbounds : Option WarpInput → List Value
warp_outbounds none = []
warp_outbounds (some warp) =
    object (
      ("tag", text "warp")
      ∷ ("protocol", text "wireguard")
      ∷ (
        "settings",
        object (
            ("secretKey", text warp.private_key)
            ∷ ("address", array (text warp.address ∷ []))
            ∷ (
              "peers",
              array (
                  object
                    (("publicKey", text warp.public_key) ∷ ("endpoint", text warp.endpoint) ∷ [])
                  ∷ []),
            )
            ∷ []),
      )
      ∷ [])
    ∷ []

unfoldable pub render_outbounds : RenderInput → List Value
unfolding needs_block block_outbounds warp_outbounds
render_outbounds input =
    object (("tag", text "direct") ∷ ("protocol", text "freedom") ∷ [])
    ∷ (block_outbounds (needs_block input.routing_rules) ++ warp_outbounds input.warp_credentials)

abbrev pub default_rule : String → Value
default_rule inbound_tag = object (
    ("type", text "field")
    ∷ ("inboundTag", array (text inbound_tag ∷ []))
    ∷ ("outboundTag", text "direct")
    ∷ [])

unfoldable pub render_rules : List RoutingRuleInput → String → List Value
render_rules rules inbound_tag =
    render_custom_routing_rules rules inbound_tag ++ (default_rule inbound_tag ∷ [])

unfoldable pub log_level : Option GlobalSettingsInput → String
log_level none = "warning"
log_level (some s) = if is_empty s.log_level then "warning" else s.log_level

unfoldable pub sniffing : Option GlobalSettingsInput → Bool
sniffing none = true
sniffing (some s) = s.sniffing

unfoldable pub dns_servers : Option GlobalSettingsInput → List String
dns_servers none = []
dns_servers (some s) = s.dns_servers

unfoldable pub policy : Value
policy = object (
    (
      "levels",
      object (
          (
            "0",
            object (
                ("handshake", int (pos 4))
                ∷ ("connIdle", int (pos 300))
                ∷ ("uplinkOnly", int (pos 2))
                ∷ ("downlinkOnly", int (pos 5))
                ∷ ("statsUserUplink", bool true)
                ∷ ("statsUserDownlink", bool true)
                ∷ []),
          )
          ∷ []),
    )
    ∷ (
      "system",
      object (
          ("statsInboundUplink", bool true)
          ∷ ("statsInboundDownlink", bool true)
          ∷ ("statsOutboundUplink", bool true)
          ∷ ("statsOutboundDownlink", bool true)
          ∷ []),
    )
    ∷ [])

-- `realitySettings`
unfoldable pub render_reality : RealityConfig → Fields
render_reality reality = fields (
    ("show", bool false)
    ∷ ("dest", text reality.dest)
    ∷ ("xver", int (pos 0))
    ∷ ("serverNames", array (text reality.sni ∷ []))
    ∷ ("privateKey", text reality.private_key)
    ∷ ("shortIds", array (text reality.short_id ∷ []))
    ∷ ("minClientVer", text "")
    ∷ ("maxClientVer", text "")
    ∷ ("maxTimeDiff", int (pos 0))
    ∷ [])

unfoldable pub render_inbound : RealityConfig → List Value → Bool → Fields
render_inbound reality access_entries sniff = fields (
    ("tag", text "vless-reality-in")
    ∷ ("listen", text "0.0.0.0")
    ∷ ("port", int reality.vless_port)
    ∷ ("protocol", text "vless")
    ∷ (
      "settings",
      object (
          ("clients", array (render_clients access_entries))
          ∷ ("decryption", text "none")
          ∷ ("fallbacks", array [])
          ∷ []),
    )
    ∷ (
      "streamSettings",
      object (
          ("network", text "tcp")
          ∷ ("security", text "reality")
          ∷ ("realitySettings", obj (render_reality reality))
          ∷ []),
    )
    ∷ (
      "sniffing",
      object (
          ("enabled", bool sniff)
          ∷ ("destOverride", array (text "http" ∷ text "tls" ∷ text "quic" ∷ []))
          ∷ []),
    )
    ∷ [])

-- `configMap["dns"] = …`, if there are servers
unfoldable pub dns_entry : List String → List (String × Value)
dns_entry [] = []
dns_entry (s ∷ r) = ("dns", object (("servers", array (map text (s ∷ r))) ∷ [])) ∷ []

unfoldable pub render_config : RenderInput → RealityConfig → List Value → Fields
unfolding log_level sniffing dns_servers policy dns_entry
render_config input reality access_entries = fields (
    (("log", object (("loglevel", text (log_level input.global_settings)) ∷ []))
      ∷ ("stats", object [])
      ∷ ("policy", policy)
      ∷ (
        "inbounds",
        array (obj (render_inbound reality access_entries (sniffing input.global_settings)) ∷ []),
      )
      ∷ ("outbounds", array (render_outbounds input))
      ∷ (
        "routing",
        object (
            ("domainStrategy", text "AsIs")
            ∷ ("rules", array (render_rules input.routing_rules "vless-reality-in"))
            ∷ []),
      )
      ∷ dns_entry (dns_servers input.global_settings)))

unfoldable pub config_text : RenderInput → ℕ → String
config_text input subscriptions = append "lenker xray vless reality skeleton node=" (
    append input.node_id (
      append " revision=" (
        append (decimal input.revision_number) (
          append " protocol=vless-reality-xtls-vision subscriptions="
            (decimal (pos subscriptions))))))

unfoldable pub render_vless_reality_payload_with_reality : RenderInput → RealityConfig → Fields
unfolding config_text
render_vless_reality_payload_with_reality input given =
    let inputs = sorted_subscription_inputs input.subscription_inputs in
    let access_entries = render_access_entries inputs in
    fields (
      ("schema_version", text "config-bundle.v1alpha1")
      ∷ ("generated_by", text "panel-api")
      ∷ ("protocol", text "vless-reality-xtls-vision")
      ∷ ("revision_number", int input.revision_number)
      ∷ ("rollback_target_revision", int input.rollback_target_revision)
      ∷ ("operation_kind", text "deploy")
      ∷ (
        "node",
        object (
            ("id", text input.node_id)
            ∷ ("hostname", text input.hostname)
            ∷ ("region", text input.region)
            ∷ ("country_code", text input.country_code)
            ∷ []),
      )
      ∷ ("core_type", text "xray")
      ∷ (
        "transport",
        object
            (("network", text "tcp") ∷ ("security", text "reality") ∷ ("xtls", text "vision") ∷ []),
      )
      ∷ ("config_kind", text "xray-config-compatible-skeleton")
      ∷ ("config", obj (render_config input (with_defaults given) access_entries))
      ∷ ("subscription_inputs", array (render_subscription_summary inputs))
      ∷ ("access_entries", array access_entries)
      ∷ ("config_text", text (config_text input (length inputs)))
      ∷ [])
