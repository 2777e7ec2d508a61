-- ===== src/Panel/Validate.antt =====
-- The precheck of the renderer: services/panel-api/internal/configrender/validate.go.
use lenker_panel.Base.{
  ℕ, ◌+◌, String, Bool, true, false, ◌&&◌, ◌||◌, Option, none, some, List, [], ◌∷◌, is_pos, ok, err,
  ◌>>=◌, ◌>>◌, require, guard, str_eq,
}
use lenker_panel.Json.{
  Value, Fields, get, has_key, as_object, as_array, as_text, as_bool, number_as_int, string_field,
  string_array,
}
use lenker_panel.Json.Gate.{
  invalid, at_client, Gate, require_text, require_object, contains, is_nonempty,
}

unfoldable pub validate_client : Fields → Gate (Unit {0})
validate_client client = do
  _ ← require (string_field client "id") (invalid "missing_vless_client_id")
  _ ← require (string_field client "email") (invalid "missing_vless_client_email")
  require_text client "flow" "xtls-rprx-vision" "invalid_vless_client_flow"
  _ ← require (number_as_int (get "level" client)) (invalid "missing_vless_client_level")
  ok tt

unfoldable pub wrap_client : ℕ → Gate (Unit {0}) → Gate (Unit {0})
wrap_client index (ok u) = ok u
wrap_client index (err e) = err (at_client e index)

-- the loop over the clients, from `index` on
unfoldable pub validate_clients : ℕ → List Value → Gate (Unit {0})
validate_clients index [] = ok tt
validate_clients index (raw ∷ rest) = do
  client ← require (as_object raw) (invalid "invalid_vless_client")
  wrap_client index (validate_client client)
  validate_clients (index + 1) rest

unfoldable pub validate_reality : Fields → Gate (Unit {0})
validate_reality settings = do
  _ ← require (as_bool (get "show" settings)) (invalid "missing_reality_show")
  _ ← require (string_field settings "dest") (invalid "missing_reality_dest")
  _ ← require (string_field settings "privateKey") (invalid "missing_reality_privateKey")
  _ ← require (as_text (get "minClientVer" settings)) (invalid "missing_reality_minClientVer")
  _ ← require (as_text (get "maxClientVer" settings)) (invalid "missing_reality_maxClientVer")
  names ←
      require (string_array (get "serverNames" settings)) (invalid "missing_reality_server_names")
  guard (is_nonempty names) (invalid "missing_reality_server_names")
  _ ← require (string_array (get "shortIds" settings)) (invalid "missing_reality_short_ids")
  _ ← require (number_as_int (get "xver" settings)) (invalid "missing_reality_xver")
  _ ← require (number_as_int (get "maxTimeDiff" settings)) (invalid "missing_reality_max_time_diff")
  ok tt

unfoldable pub validate_inbound : Fields → Gate String
validate_inbound inbound = do
  tag ← require (string_field inbound "tag") (invalid "missing_inbound_tag")
  require_text inbound "protocol" "vless" "invalid_inbound_protocol"
  port ← require (number_as_int (get "port" inbound)) (invalid "invalid_inbound_port")
  guard (is_pos port) (invalid "invalid_inbound_port")
  settings ← require_object inbound "settings" "missing_inbound_settings"
  require_text settings "decryption" "none" "invalid_vless_decryption"
  clients ← require (as_array (get "clients" settings)) (invalid "missing_vless_clients")
  validate_clients 0 clients
  stream ← require_object inbound "streamSettings" "missing_stream_settings"
  require_text stream "network" "tcp" "invalid_stream_network"
  require_text stream "security" "reality" "invalid_stream_security"
  reality ← require_object stream "realitySettings" "missing_reality_settings"
  validate_reality reality
  ok tag

unfoldable pub is_direct_freedom : String → String → Bool
is_direct_freedom tag protocol = str_eq tag "direct" && str_eq protocol "freedom"

unfoldable pub is_supported : String → Bool
is_supported protocol =
    str_eq protocol "freedom" || str_eq protocol "blackhole" || str_eq protocol "wireguard"

-- The loop over the outbounds: their tags, and whether one of them is the direct one.
unfoldable pub outbound_tags : List Value → Gate (List String × Bool)
outbound_tags [] = ok ([], false)
outbound_tags (raw ∷ rest) = do
  outbound ← require (as_object raw) (invalid "invalid_outbound")
  tag ← require (string_field outbound "tag") (invalid "missing_outbound_tag")
  protocol ← require (string_field outbound "protocol") (invalid "missing_outbound_protocol")
  guard (is_supported protocol) (invalid "unsupported_outbound_protocol")
  (tags, direct) ← outbound_tags rest
  ok (tag ∷ tags, is_direct_freedom tag protocol || direct)

unfoldable pub validate_outbounds : List Value → Gate (List String)
validate_outbounds outbounds = do
  (tags, direct) ← outbound_tags outbounds
  guard direct (invalid "missing_direct_freedom_outbound")
  ok tags

unfoldable pub all_known : List String → List String → Bool
all_known known [] = true
all_known known (t ∷ r) = contains known t && all_known known r

-- `if rawInboundTags, ok := rule["inboundTag"]; ok`
unfoldable pub validate_sources : List String → Bool → Value → Gate (Unit {0})
validate_sources inbound_tags false raw = ok tt
validate_sources inbound_tags true raw = do
  sources ← require (string_array raw) (invalid "invalid_routing_inbound_reference")
  guard (all_known inbound_tags sources) (invalid "invalid_routing_inbound_reference")

unfoldable pub validate_rule : List String → List String → Value → Gate (Unit {0})
validate_rule inbound_tags known raw = do
  rule ← require (as_object raw) (invalid "invalid_routing_rule")
  require_text rule "type" "field" "invalid_routing_rule_type"
  target ← require (string_field rule "outboundTag") (invalid "invalid_routing_outbound_reference")
  guard (contains known target) (invalid "invalid_routing_outbound_reference")
  validate_sources inbound_tags (has_key "inboundTag" rule) (get "inboundTag" rule)

unfoldable pub validate_rules : List String → List String → List Value → Gate (Unit {0})
validate_rules inbound_tags known [] = ok tt
validate_rules inbound_tags known (raw ∷ rest) = do
  validate_rule inbound_tags known raw
  validate_rules inbound_tags known rest

unfoldable pub validate_routing : Fields → List String → List String → Gate (Unit {0})
validate_routing routing inbound_tags known = do
  rules ← require (as_array (get "rules" routing)) (invalid "missing_routing_rules")
  guard (is_nonempty rules) (invalid "missing_routing_rules")
  validate_rules inbound_tags known rules

-- `if len(inbounds) != 1`
unfoldable pub single : List Value → Option Value
single (v ∷ []) = some v
single _ = none

-- ValidateVLESSRealityConfig; `none` is the nil map
unfoldable pub validate_vless_reality_config : Option Fields → Gate (Unit {0})
unfolding single validate_routing validate_rules validate_rule validate_sources all_known
    validate_outbounds outbound_tags is_supported is_direct_freedom validate_inbound
    validate_reality validate_clients wrap_client validate_client
validate_vless_reality_config given = do
  config ← require given (invalid "missing_config")
  _ ← require_object config "log" "missing_log"
  _ ← require_object config "policy" "missing_policy"
  _ ← require_object config "stats" "missing_stats"
  inbounds ← require (as_array (get "inbounds" config)) (invalid "missing_inbounds")
  raw ← require (single inbounds) (invalid "invalid_inbound_count")
  inbound ← require (as_object raw) (invalid "invalid_inbound")
  inbound_tag ← validate_inbound inbound
  outbounds ← require (as_array (get "outbounds" config)) (invalid "missing_outbounds")
  guard (is_nonempty outbounds) (invalid "missing_outbounds")
  known ← validate_outbounds outbounds
  routing ← require_object config "routing" "missing_routing"
  validate_routing routing (inbound_tag ∷ []) known

unfoldable pub is_operation : String → Bool
is_operation kind = str_eq kind "deploy" || str_eq kind "rollback"

-- `if value, ok := payload[key].(string); !ok || value != expected`
unfoldable pub require_value : Fields → String → String → String → Gate (Unit {0})
require_value payload key expected why = do
  value ← require (as_text (get key payload)) (invalid why)
  guard (str_eq value expected) (invalid why)

-- ValidateVLESSRealityPayload
unfoldable pub validate_vless_reality_payload : Option Fields → Gate (Unit {0})
unfolding require_value is_operation
validate_vless_reality_payload given = do
  payload ← require given (invalid "missing_payload")
  require_value payload "schema_version" "config-bundle.v1alpha1" "invalid_schema_version"
  require_value payload "generated_by" "panel-api" "invalid_generated_by"
  require_value payload "protocol" "vless-reality-xtls-vision" "invalid_protocol"
  require_value payload "core_type" "xray" "invalid_core_type"
  require_value payload "config_kind" "xray-config-compatible-skeleton" "invalid_config_kind"
  kind ← require (as_text (get "operation_kind" payload)) (invalid "invalid_operation_kind")
  guard (is_operation kind) (invalid "invalid_operation_kind")
  config ← require (as_object (get "config" payload)) (invalid "missing_config")
  validate_vless_reality_config (some config)
