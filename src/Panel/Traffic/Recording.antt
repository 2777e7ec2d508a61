-- ===== src/Panel/Traffic/Recording.antt =====
-- The recording of services/panel-api/internal/traffic: CreateLog and NodeIDByToken of repository.go,
-- RecordTraffic and RecordReport of service.go.
use lenker_panel.Base.{
  ℕ, String, Bool, true, false, not, ◌&&◌, ◌||◌, Option, none, some, List, [], ◌∷◌, ◌++◌, ℤ, pos,
  is_neg, Time, is_zero, ok, str_eq, is_empty, is_blank, trim_space, length, if◌then◌else◌,
}
use lenker_panel.Crypto.{Crypto}
use lenker_panel.Panel.Nodes.{NodeRow, find, any}
use lenker_panel.Panel.Nodes.Bootstrap.{hash_string, is_valid}
use lenker_panel.Panel.Subscriptions.{is_named}
use lenker_panel.Panel.Devices.{is_device, str_ptr}
use lenker_panel.Panel.Traffic.{
  TrafficLog, invalid_input, unauthorized, constraint_violated, Run, return, ensure, require, ◌>>=◌,
  ◌>>◌, plus,
}
use lenker_panel.Panel.Traffic.Quotas.{increment_quota}

pub record TrafficReportItem : Type 0 where
  pub subscription_id : String
  pub device_id : Option String
  pub bytes_up : ℤ
  pub bytes_down : ℤ

pub record TrafficReportResult : Type 0 where
  pub node_id : String
  pub accepted : ℕ
  pub bytes_up : ℤ
  pub bytes_down : ℤ
  pub bytes_total : ℤ
  pub reported_at : Time

-- cleanStringPtr
abbrev pub clean_string_ptr : Option String → Option String
clean_string_ptr none = none
clean_string_ptr (some s) = str_ptr (trim_space s)

-- the foreign keys and the constraints of migration 14 on traffic_logs
unfoldable pub check_log : TrafficLog → Run (Unit {0})
unfolding any
check_log log t =
    (do
      ensure (any (is_named log.subscription_id) t.tables.subscriptions)
          (constraint_violated "traffic_logs_subscription_id_fkey")
      ensure (is_known log.device_id) (constraint_violated "traffic_logs_device_id_fkey")
      ensure (any (λ r. str_eq r.node.id log.node_id) t.node_rows)
          (constraint_violated "traffic_logs_node_id_fkey")
      ensure (not (is_neg log.bytes_up)) (constraint_violated "traffic_logs_bytes_up_check")
      ensure (not (is_neg log.bytes_down)) (constraint_violated "traffic_logs_bytes_down_check"))
      t
  where
    is_known : Option String → Bool
    is_known none = true
    is_known (some id) = any (is_device id) t.devices

-- CreateLog; a row keeps the total that is derived from it
unfoldable pub create_log :
    (now : Time) (log_id subscription_id : String) (device_id : Option String) (node_id : String)
    (bytes_up bytes_down : ℤ) (recorded_at : Time)
    → Run TrafficLog
unfolding check_log
create_log now log_id subscription_id device_id node_id bytes_up bytes_down recorded_at = do
  let log : TrafficLog = record {
    id = log_id;
    subscription_id = subscription_id;
    device_id = device_id;
    node_id = node_id;
    bytes_up = bytes_up;
    bytes_down = bytes_down;
    bytes_total = plus bytes_up bytes_down;
    recorded_at = if is_zero recorded_at then now else recorded_at;
    created_at = now;
  }
  check_log log
  λ t. (ok log, record t { logs = t.logs ++ (log ∷ []) })

unfoldable pub record_traffic :
    (now clock : Time) (log_id quota_id subscription_id : String) (device_id : Option String)
    (node_id : String) (bytes_up bytes_down : ℤ)
    → Run (Unit {0})
unfolding create_log increment_quota
record_traffic now clock log_id quota_id subscription_id device_id node_id bytes_up bytes_down = do
  ensure (not (is_blank subscription_id || is_blank node_id)) invalid_input
  ensure (not (is_neg bytes_up || is_neg bytes_down)) invalid_input
  create_log now log_id (trim_space subscription_id) (clean_string_ptr device_id)
      (trim_space node_id) bytes_up bytes_down clock
  increment_quota now quota_id (trim_space subscription_id) (plus bytes_up bytes_down)
  return tt

-- the entries of a report, cleaned, or none if one of them is invalid
unfoldable pub cleaned : List TrafficReportItem → Option (List TrafficReportItem)
cleaned [] = some []
cleaned (x ∷ xs) = go (cleaned xs)
  where
    item : TrafficReportItem
    item = record x {
      subscription_id = trim_space x.subscription_id;
      device_id = clean_string_ptr x.device_id;
    }

    go : Option (List TrafficReportItem) → Option (List TrafficReportItem)
    go none = none
    go (some rest) =
        if is_empty item.subscription_id || is_neg x.bytes_up || is_neg x.bytes_down
        then none
        else some (item ∷ rest)

unfoldable pub sum_of_bytes : (TrafficReportItem → ℤ) → List TrafficReportItem → ℤ
sum_of_bytes f [] = pos 0
sum_of_bytes f (x ∷ xs) = plus (f x) (sum_of_bytes f xs)

module _ (c : Crypto) where
  -- `auth_token_hash = $1 AND registered_at IS NOT NULL AND status != 'disabled'`
  unfoldable pub is_reporter : String → NodeRow → Bool
  is_reporter hash r =
      has_hash r.auth_token_hash
      && is_valid r.node.registered_at
      && not (str_eq r.node.status "disabled")
    where
      has_hash : Option String → Bool
      has_hash none = false
      has_hash (some h) = str_eq h hash

  unfoldable pub node_id_by_token : String → Run String
  unfolding find is_reporter hash_string
  node_id_by_token token t =
      (do
        r ← require (find (is_reporter (hash_string c token)) t.node_rows) unauthorized
        return r.node.id)
        t

  -- The identifiers of the rows of each entry are in `ids`: that of its log, and that of a quota.
  unfoldable pub record_all :
      (now clock : Time) (ids : ℕ → String × String) (node_id : String)
      → List TrafficReportItem
      → Run (Unit {0})
  unfolding record_traffic
  record_all now clock ids node_id [] = return tt
  record_all now clock ids node_id (x ∷ xs) = do
    record_traffic now clock (ids (length xs)).0 (ids (length xs)).1 x.subscription_id x.device_id
        node_id x.bytes_up x.bytes_down
    record_all now clock ids node_id xs

  -- RecordReport, where a resolver is set
  unfoldable pub record_report :
      (now clock : Time) (ids : ℕ → String × String) (node_token : String)
      → List TrafficReportItem
      → Run TrafficReportResult
  unfolding cleaned node_id_by_token record_all sum_of_bytes
  record_report now clock ids node_token entries = do
    ensure (not (is_blank node_token)) unauthorized
    ensure (not (is_none entries)) invalid_input
    items ← require (cleaned entries) invalid_input
    node_id ← node_id_by_token (trim_space node_token)
    record_all now clock ids node_id items
    return (record {
      node_id = node_id;
      accepted = length items;
      bytes_up = sum_of_bytes (λ x. x.bytes_up) items;
      bytes_down = sum_of_bytes (λ x. x.bytes_down) items;
      bytes_total =
          plus (sum_of_bytes (λ x. x.bytes_up) items) (sum_of_bytes (λ x. x.bytes_down) items);
      reported_at = clock;
    })
    where
      is_none : List TrafficReportItem → Bool
      is_none [] = true
      is_none (x ∷ xs) = false
