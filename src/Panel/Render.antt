-- ===== src/Panel/Render.antt =====
-- The renderer of configuration payloads: services/panel-api/internal/configrender/xray.go.
pub mod Payload
pub mod Rollback
pub mod Accepts
use Prim.Native.String.{compare}
use Prim.Native.Nat.{Ordering}
use lenker_panel.Base.{
  ℕ, String, Bool, true, false, ◌&&◌, ◌||◌, not, Option, none, some, List, [], ◌∷◌, ◌++◌, map, ℤ,
  pos, is_pos, if◌then◌else◌, str_eq, is_empty, append, decimal, length,
}
use lenker_panel.Json.{
  Value, null, bool, int, text, arr, obj, Items, Fields, fields, array, object, get, put, as_object,
}
use lenker_panel.Json.Numbers.{float_of_int}

pub record RealityConfig : Type 0 where
  pub vless_port : ℤ
  pub sni : String
  pub dest : String
  pub short_id : String
  pub private_key : String
  pub public_key : String
  pub fingerprint : String
  pub spider_x : String

abbrev pub default_reality_config : RealityConfig
default_reality_config = record {
  vless_port = pos 443;
  sni = "www.cloudflare.com";
  dest = "www.cloudflare.com:443";
  short_id = "lenker00";
  private_key = "lenker-placeholder-reality-private-key";
  public_key = "lenker-placeholder-reality-public-key";
  fingerprint = "chrome";
  spider_x = "/";
}

abbrev or_default : String → String → String
or_default s d = if is_empty s then d else s

unfoldable pub with_defaults : RealityConfig → RealityConfig
with_defaults cfg = record {
  vless_port = if is_pos cfg.vless_port then cfg.vless_port else default_reality_config.vless_port;
  sni = or_default cfg.sni default_reality_config.sni;
  dest = or_default cfg.dest default_reality_config.dest;
  short_id = or_default cfg.short_id default_reality_config.short_id;
  private_key = or_default cfg.private_key default_reality_config.private_key;
  public_key = or_default cfg.public_key default_reality_config.public_key;
  fingerprint = or_default cfg.fingerprint default_reality_config.fingerprint;
  spider_x = or_default cfg.spider_x default_reality_config.spider_x;
}

pub record GlobalSettingsInput : Type 0 where
  pub log_level : String
  pub sniffing : Bool
  pub dns_servers : List String

pub record WarpInput : Type 0 where
  pub private_key : String
  pub public_key : String
  pub address : String
  pub endpoint : String

pub record RoutingRuleInput : Type 0 where
  pub rule_type : String
  pub target : String
  pub action : String

pub record SubscriptionInput : Type 0 where
  pub subscription_id : String
  pub user_id : String
  pub plan_id : String
  pub user_status : String
  pub subscription_status : String
  pub preferred_region : String
  pub plan_name : String
  pub device_limit : ℤ
  pub traffic_limit_bytes : Option ℤ
  pub starts_at : String
  pub expires_at : String

pub record AccessEntry : Type 0 where
  pub subscription_id : String
  pub user_id : String
  pub plan_id : String
  pub vless_client_id : String
  pub email : String
  pub flow : String
  pub device_limit : ℤ
  pub traffic_limit_bytes : Option ℤ
  pub expires_at : String

pub record RenderInput : Type 0 where
  pub node_id : String
  pub revision_number : ℤ
  pub hostname : String
  pub region : String
  pub country_code : String
  pub subscription_inputs : List SubscriptionInput
  pub routing_rules : List RoutingRuleInput
  pub global_settings : Option GlobalSettingsInput
  pub warp_credentials : Option WarpInput
  pub rollback_target_revision : ℤ

abbrev pub str_lt : String → String → Bool
str_lt a b = elim (compare a b) [ Ordering.lt ↦ true | _ ↦ false ]

-- the comparison handed to sort.SliceStable
unfoldable pub less : SubscriptionInput → SubscriptionInput → Bool
less a b =
    if not (str_eq a.subscription_id b.subscription_id)
    then str_lt a.subscription_id b.subscription_id
    else if not (str_eq a.user_id b.user_id)
    then str_lt a.user_id b.user_id
    else str_lt a.plan_id b.plan_id

unfoldable pub insert_input : SubscriptionInput → List SubscriptionInput → List SubscriptionInput
insert_input x [] = x ∷ []
insert_input x (y ∷ r) = if less y x then y ∷ insert_input x r else x ∷ y ∷ r

-- A stable sort has one result, whichever way it is computed.
unfoldable pub sorted_subscription_inputs : List SubscriptionInput → List SubscriptionInput
unfolding insert_input less
sorted_subscription_inputs [] = []
sorted_subscription_inputs (x ∷ r) = insert_input x (sorted_subscription_inputs r)

-- `*p`, or nil
abbrev limit_value : Option ℤ → Value
limit_value none = null
limit_value (some n) = int n

unfoldable pub summary_entry : SubscriptionInput → Value
summary_entry input = object (
    ("subscription_id", text input.subscription_id)
    ∷ ("user_id", text input.user_id)
    ∷ ("plan_id", text input.plan_id)
    ∷ ("user_status", text input.user_status)
    ∷ ("subscription_status", text input.subscription_status)
    ∷ ("preferred_region", text input.preferred_region)
    ∷ ("plan_name", text input.plan_name)
    ∷ ("device_limit", int input.device_limit)
    ∷ ("starts_at", text input.starts_at)
    ∷ ("expires_at", text input.expires_at)
    ∷ ("traffic_limit_bytes", limit_value input.traffic_limit_bytes)
    ∷ [])

unfoldable pub render_subscription_summary : List SubscriptionInput → List Value
unfolding summary_entry
render_subscription_summary inputs = map summary_entry inputs

unfoldable pub build_access_entry : SubscriptionInput → AccessEntry
build_access_entry input = record {
  subscription_id = input.subscription_id;
  user_id = input.user_id;
  plan_id = input.plan_id;
  vless_client_id = input.subscription_id;
  email = append "subscription:" input.subscription_id;
  flow = "xtls-rprx-vision";
  device_limit = input.device_limit;
  traffic_limit_bytes = input.traffic_limit_bytes;
  expires_at = input.expires_at;
}

unfoldable pub entry_value : AccessEntry → Value
entry_value access = object (
    ("subscription_id", text access.subscription_id)
    ∷ ("user_id", text access.user_id)
    ∷ ("plan_id", text access.plan_id)
    ∷ ("vless_client_id", text access.vless_client_id)
    ∷ ("email", text access.email)
    ∷ ("flow", text access.flow)
    ∷ ("device_limit", int access.device_limit)
    ∷ ("expires_at", text access.expires_at)
    ∷ ("traffic_limit_bytes", limit_value access.traffic_limit_bytes)
    ∷ [])

unfoldable pub render_access_entries : List SubscriptionInput → List Value
unfolding entry_value build_access_entry
render_access_entries [] = []
render_access_entries (input ∷ r) = entry_value (build_access_entry input) ∷ render_access_entries r

unfoldable pub client_of : Fields → Value
client_of entry = object (
    ("id", get "vless_client_id" entry)
    ∷ ("email", get "email" entry)
    ∷ ("flow", get "flow" entry)
    ∷ ("level", int (pos 0))
    ∷ [])

-- the loop of renderClients on one entry; one that is no map is skipped
unfoldable pub add_client : Option Fields → List Value → List Value
unfolding client_of
add_client none rest = rest
add_client (some entry) rest = client_of entry ∷ rest

unfoldable pub render_clients : List Value → List Value
unfolding add_client
render_clients [] = []
render_clients (raw ∷ r) = add_client (as_object raw) (render_clients r)

unfoldable pub action_to_outbound : String → String
action_to_outbound action =
    if str_eq action "block"
    then "block"
    else if str_eq action "direct"
    then "direct"
    else if str_eq action "warp"
    then "warp"
    else if str_eq action "proxy"
    then "direct"
    else "direct"

-- the switch on the rule's type; `none` is its `default: continue`
unfoldable pub rule_match : String → String → Option (String × Value)
rule_match kind target =
    if str_eq kind "domain"
    then some ("domain", array (text target ∷ []))
    else if str_eq kind "geosite"
    then some ("domain", array (text (append "geosite:" target) ∷ []))
    else if str_eq kind "geoip"
    then some ("ip", array (text (append "geoip:" target) ∷ []))
    else if str_eq kind "ip"
    then some ("ip", array (text target ∷ []))
    else if str_eq kind "port"
    then some ("port", text target)
    else if str_eq kind "protocol"
    then some ("protocol", array (text target ∷ []))
    else none

unfoldable pub add_rule :
    RoutingRuleInput → String → Option (String × Value) → List Value → List Value
add_rule rule inbound_tag none rest = rest
add_rule rule inbound_tag (some (key, value)) rest =
    object (
      ("type", text "field")
      ∷ ("outboundTag", text (action_to_outbound rule.action))
      ∷ ("inboundTag", array (text inbound_tag ∷ []))
      ∷ (key, value)
      ∷ [])
    ∷ rest

unfoldable pub render_custom_routing_rules : List RoutingRuleInput → String → List Value
unfolding add_rule rule_match action_to_outbound
render_custom_routing_rules [] inbound_tag = []
render_custom_routing_rules (rule ∷ r) inbound_tag =
    add_rule rule inbound_tag (rule_match rule.rule_type rule.target)
      (render_custom_routing_rules r inbound_tag)
