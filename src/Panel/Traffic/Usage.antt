-- ===== src/Panel/Traffic/Usage.antt =====
-- GetUsageBySubscription, GetUsageByDevice and GetUsageByNode of
-- services/panel-api/internal/traffic, repository.go and service.go.
use lenker_panel.Base.{
  String, Bool, false, not, ◌&&◌, ◌||◌, Option, none, some, List, [], ◌∷◌, ℤ, pos, Time, after,
  is_zero, Result, ok, str_eq, is_blank, trim_space, if◌then◌else◌, guard, ◌>>◌,
}
use lenker_panel.Panel.Traffic.{TrafficLog, TrafficTables, TrafficError, invalid_input, plus}

pub record TrafficUsage : Type 0 where
  pub resource_type : String
  pub resource_id : String
  pub bytes_up : ℤ
  pub bytes_down : ℤ
  pub bytes_total : ℤ
  pub from : Option Time
  pub to : Option Time

-- timePtrIfSet
abbrev pub if_set : Time → Option Time
if_set t = if is_zero t then none else some t

-- the two conditions on recorded_at
unfoldable pub is_within : (from to : Time) → TrafficLog → Bool
is_within from to log =
    (is_zero from || not (after from log.recorded_at))
    && (is_zero to || not (after log.recorded_at to))

-- COALESCE(SUM(…), 0)
unfoldable pub sum_where : (TrafficLog → Bool) → (TrafficLog → ℤ) → List TrafficLog → ℤ
sum_where p f [] = pos 0
sum_where p f (x ∷ xs) = let rest = sum_where p f xs in if p x then plus (f x) rest else rest

unfoldable pub get_usage :
    (resource_type resource_id : String)
    → (TrafficLog → Bool)
    → (from to : Time) → List TrafficLog
    → TrafficUsage
unfolding is_within sum_where
get_usage resource_type resource_id is_of from to logs =
    let p = λ (x : TrafficLog). is_of x && is_within from to x in
    let up = sum_where p (λ x. x.bytes_up) logs in
    let down = sum_where p (λ x. x.bytes_down) logs in
    record {
      resource_type = resource_type;
      resource_id = resource_id;
      bytes_up = up;
      bytes_down = down;
      bytes_total = plus up down;
      from = if_set from;
      to = if_set to;
    }

unfoldable pub get_usage_by_subscription :
    String → (from to : Time) → TrafficTables → Result TrafficError TrafficUsage
unfolding get_usage
get_usage_by_subscription id from to t = do
  guard (not (is_blank id)) invalid_input
  ok (
      get_usage "subscription" (trim_space id) (λ x. str_eq x.subscription_id (trim_space id)) from
        to t.logs)

abbrev is_on_device : String → Option String → Bool
is_on_device id none = false
is_on_device id (some d) = str_eq d id

unfoldable pub get_usage_by_device :
    String → (from to : Time) → TrafficTables → Result TrafficError TrafficUsage
unfolding get_usage
get_usage_by_device id from to t = do
  guard (not (is_blank id)) invalid_input
  ok (
      get_usage "device" (trim_space id) (λ x. is_on_device (trim_space id) x.device_id) from to
        t.logs)

unfoldable pub get_usage_by_node :
    String → (from to : Time) → TrafficTables → Result TrafficError TrafficUsage
unfolding get_usage
get_usage_by_node id from to t = do
  guard (not (is_blank id)) invalid_input
  ok (get_usage "node" (trim_space id) (λ x. str_eq x.node_id (trim_space id)) from to t.logs)
