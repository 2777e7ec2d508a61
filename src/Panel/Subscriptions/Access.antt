-- ===== src/Panel/Subscriptions/Access.antt =====
-- Access of services/panel-api/internal/storage/subscriptions.go. How the database compares texts, its
-- collation, is a parameter.
pub mod Uri
pub mod Explained
use lenker_panel.Base.{
  String, Bool, true, not, ◌&&◌, ◌||◌, Option, none, some, List, [], ◌∷◌, ℤ, pos, Time, after,
  rfc3339, Result, ok, ◌>>=◌, ◌>>◌, require, guard, str_eq, is_empty, is_blank, append,
  if◌then◌else◌,
}
use lenker_panel.Panel.Nodes.{Node, find}
use lenker_panel.Panel.Render.{
  RealityConfig, with_defaults, SubscriptionInput, AccessEntry, build_access_entry,
}
use lenker_panel.Panel.Subscriptions.{
  Subscription, Account, Plan, Tables, SubscriptionsError, not_found, access_unavailable, no_rows,
  is_named,
}
use lenker_panel.Panel.Subscriptions.Access.Uri.{
  SubscriptionAccessEndpoint, SubscriptionAccessClient, build_vless_reality_uri,
}

pub record SubscriptionAccessNode : Type 0 where
  pub id : String
  pub name : String
  pub region : String
  pub country_code : String
  pub hostname : String
  pub status : String
  pub drain_state : String
  pub active_revision : ℤ

pub record SubscriptionAccess : Type 0 where
  pub export_kind : String
  pub subscription_id : String
  pub user_id : String
  pub user_label : String
  pub plan_id : String
  pub plan_name : String
  pub status : String
  pub protocol : String
  pub protocol_path : String
  pub node : SubscriptionAccessNode
  pub endpoint : SubscriptionAccessEndpoint
  pub client : SubscriptionAccessClient
  pub display_name : String
  pub uri : String

-- `s.preferred_region IS NOT NULL AND s.preferred_region <> ''`, negated
abbrev pub is_anywhere : Option String → Bool
is_anywhere none = true
is_anywhere (some region) = is_empty region

abbrev pub or_nowhere : Option String → String
or_nowhere none = ""
or_nowhere (some region) = region

abbrev pub is_preferred : Option String → Node → Bool
is_preferred region n = not (is_anywhere region) && str_eq n.region (or_nowhere region)

-- the WHERE of the lateral query
unfoldable pub offers : Option String → Node → Bool
offers region n =
    str_eq n.status "active"
    && str_eq n.drain_state "active"
    && not (is_empty n.hostname)
    && (is_anywhere region || str_eq n.region (or_nowhere region))

unfoldable pub access_node : Node → SubscriptionAccessNode
access_node n = record {
  id = n.id;
  name = n.name;
  region = n.region;
  country_code = n.country_code;
  hostname = n.hostname;
  status = n.status;
  drain_state = n.drain_state;
  active_revision = n.active_revision;
}

-- strings.TrimSpace(display_name), or the address
unfoldable pub user_label : Account → String
user_label u = if is_blank u.display_name then u.email else u.display_name

unfoldable pub endpoint_of : RealityConfig → Node → SubscriptionAccessEndpoint
unfolding with_defaults
endpoint_of reality n = record {
  address = n.hostname;
  port = (with_defaults reality).vless_port;
  network = "tcp";
  security = "reality";
  sni = (with_defaults reality).sni;
  public_key = (with_defaults reality).public_key;
  short_id = (with_defaults reality).short_id;
  fingerprint = (with_defaults reality).fingerprint;
  spider_x = (with_defaults reality).spider_x;
}

unfoldable pub access_input : Subscription → Account → Plan → SubscriptionInput
access_input s u p = record {
  subscription_id = s.id;
  user_id = s.user_id;
  plan_id = s.plan_id;
  user_status = u.status;
  subscription_status = s.status;
  preferred_region = or_nowhere s.preferred_region;
  plan_name = p.name;
  device_limit = s.device_limit;
  traffic_limit_bytes = s.traffic_limit_bytes;
  starts_at = rfc3339 s.starts_at;
  expires_at = rfc3339 s.expires_at;
}

unfoldable pub access_client : AccessEntry → SubscriptionAccessClient
access_client entry = record {
  id = entry.vless_client_id;
  email = entry.email;
  flow = entry.flow;
  level = pos 0;
  plan_id = entry.plan_id;
}

unfoldable pub export : RealityConfig → Subscription → Account → Plan → Node → SubscriptionAccess
unfolding access_node user_label endpoint_of access_input access_client build_access_entry
    build_vless_reality_uri
export reality s u p n =
    let endpoint = endpoint_of reality n in
    let client = access_client (build_access_entry (access_input s u p)) in
    let display_name = append "Lenker " (append n.region (append " " p.name)) in
    record {
      export_kind = "subscription_access.v1alpha1";
      subscription_id = s.id;
      user_id = s.user_id;
      user_label = user_label u;
      plan_id = s.plan_id;
      plan_name = p.name;
      status = s.status;
      protocol = "vless-reality-xtls-vision";
      protocol_path = "vless-reality-xtls-vision";
      node = access_node n;
      endpoint = endpoint;
      client = client;
      display_name = display_name;
      uri = build_vless_reality_uri endpoint client display_name;
    }

module _ (text_lt : String → String → Bool) where
  -- `a` comes before `b` in the ORDER BY
  unfoldable pub precedes : Option String → Node → Node → Bool
  precedes region a b =
      if is_preferred region a && not (is_preferred region b)
      then true
      else if is_preferred region b && not (is_preferred region a)
      then Bool.false
      else if text_lt a.region b.region
      then true
      else if text_lt b.region a.region
      then Bool.false
      else if text_lt a.name b.name
      then true
      else if text_lt b.name a.name
      then Bool.false
      else text_lt a.id b.id

  abbrev pub first_of : Option String → Node → Option Node → Node
  first_of region n none = n
  first_of region n (some m) = if precedes region m n then m else n

  -- the first row, or NULLs
  unfoldable pub choose_node : Option String → List Node → Option Node
  unfolding offers precedes
  choose_node region [] = none
  choose_node region (n ∷ r) =
      let rest = choose_node region r in
      if offers region n then some (first_of region n rest) else rest

  unfoldable pub access :
      (clock : Time)
      → RealityConfig
      → String
      → Tables
      → Result SubscriptionsError SubscriptionAccess
  unfolding find choose_node export
  access clock reality id db = do
    row ← require (find (is_named id) db.subscriptions) not_found
    let s = row.subscription
    u ← require (find (λ u. str_eq u.id s.user_id) db.users) not_found
    p ← require (find (λ p. str_eq p.id s.plan_id) db.plans) not_found
    guard (str_eq s.status "active" && str_eq u.status "active" && after s.expires_at clock)
        access_unavailable
    n ← require (choose_node s.preferred_region db.nodes) access_unavailable
    ok (export reality s u p n)
