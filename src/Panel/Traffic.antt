-- ===== src/Panel/Traffic.antt =====
-- The traffic of the panel: services/panel-api/internal/traffic, model.go, repository.go and
-- service.go. Each statement stands for itself, so a call leaves tables behind whether it succeeds or
-- fails. Counts of bytes are unbounded integers.
pub mod Quotas
pub mod Recording
pub mod Usage
pub mod Limits
pub mod Refusals
pub mod Accounts
use lenker_panel.Base.{
  ℕ, zero, suc, ◌+◌, ◌-◌, String, Bool, true, false, not, ◌&&◌, ◌||◌, Option, none, some, List, [],
  ◌∷◌, ◌++◌, ℤ, pos, negsuc, is_neg, is_pos, Time, after, is_zero, Result, ok, err, str_eq,
  is_empty, is_blank, trim_space, ltb, if◌then◌else◌,
}
use lenker_panel.Crypto.{Crypto}
use lenker_panel.Panel.Nodes.{NodeRow, find, update_where, any}
use lenker_panel.Panel.Nodes.Bootstrap.{hash_string, is_valid}
use lenker_panel.Panel.Subscriptions.{Subscription, StoredSubscription, Tables, is_named, is_limit}
use lenker_panel.Panel.Devices.{Device, is_device}

pub record TrafficLog : Type 0 where
  pub id : String
  pub subscription_id : String
  pub device_id : Option String
  pub node_id : String
  pub bytes_up : ℤ
  pub bytes_down : ℤ
  pub bytes_total : ℤ
  pub recorded_at : Time
  pub created_at : Time

pub record TrafficQuota : Type 0 where
  pub id : String
  pub subscription_id : String
  pub bytes_limit : Option ℤ
  pub bytes_used : ℤ
  pub bytes_remaining : Option ℤ
  pub exceeded : Bool
  pub reset_at : Option Time
  pub created_at : Time
  pub updated_at : Time

pub record SetQuotaInput : Type 0 where
  pub subscription_id : String
  pub bytes_limit : Option ℤ
  pub bytes_used : Option ℤ
  pub reset_at : Option Time

-- A row of traffic_quotas.
pub record QuotaRow : Type 0 where
  pub id : String
  pub subscription_id : String
  pub bytes_limit : Option ℤ
  pub bytes_used : ℤ
  pub reset_at : Option Time
  pub created_at : Time
  pub updated_at : Time

pub record TrafficTables : Type 0 where
  pub tables : Tables
  pub node_rows : List NodeRow
  pub devices : List Device
  pub quotas : List QuotaRow
  pub logs : List TrafficLog

pub data TrafficError : Type 0 where
  not_found invalid_input unauthorized : TrafficError
  constraint_violated : (name : String) → TrafficError

abbrev pub Run : Type 0 → Type 0
Run A = TrafficTables → Result TrafficError A × TrafficTables

abbrev pub next {ℓ κ} :
    {A : Type ℓ} {B : Type κ}
    → Result TrafficError A × TrafficTables
    → (A → TrafficTables → Result TrafficError B × TrafficTables)
    → Result TrafficError B × TrafficTables
next (err e, t) k = (err e, t)
next (ok a, t) k = k a t

abbrev pub return {ℓ} : {A : Type ℓ} → A → TrafficTables → Result TrafficError A × TrafficTables
return a t = (ok a, t)

abbrev pub fail {ℓ} :
    {A : Type ℓ} → TrafficError → TrafficTables → Result TrafficError A × TrafficTables
fail e t = (err e, t)

-- `if !cond { return err }`
abbrev pub ensure :
    Bool → TrafficError → TrafficTables → Result TrafficError (Unit {0}) × TrafficTables
ensure true e t = (ok tt, t)
ensure false e t = (err e, t)

infixl 5 ◌>>=◌
abbrev pub ◌>>=◌ {ℓ κ} :
    {A : Type ℓ} {B : Type κ}
    → (TrafficTables → Result TrafficError A × TrafficTables)
    → (A → TrafficTables → Result TrafficError B × TrafficTables)
    → TrafficTables
    → Result TrafficError B × TrafficTables
(m >>= k) t = next (m t) k

infixl 5 ◌>>◌
abbrev pub ◌>>◌ {ℓ κ} :
    {A : Type ℓ} {B : Type κ}
    → (TrafficTables → Result TrafficError A × TrafficTables)
    → (TrafficTables → Result TrafficError B × TrafficTables)
    → TrafficTables
    → Result TrafficError B × TrafficTables
(m >> k) t = next (m t) (λ _. k)

abbrev less_by : ℕ → ℕ → ℤ
less_by a b = if ltb a b then negsuc (b - a - 1) else pos (a - b)

-- `a + b`
abbrev pub plus : ℤ → ℤ → ℤ
plus (pos a) (pos b) = pos (a + b)
plus (pos a) (negsuc b) = less_by a (suc b)
plus (negsuc a) (pos b) = less_by b (suc a)
plus (negsuc a) (negsuc b) = negsuc (suc (a + b))

-- `a - b`
abbrev pub minus : ℤ → ℤ → ℤ
minus a (pos zero) = a
minus a (pos (suc b)) = plus a (negsuc b)
minus a (negsuc b) = plus a (pos (suc b))

-- TrafficQuota.WithDerivedFields
unfoldable pub with_derived_fields : TrafficQuota → TrafficQuota
with_derived_fields q = record q {
  exceeded = reached q.bytes_limit;
  bytes_remaining = remaining q.bytes_limit;
}
  where
    reached : Option ℤ → Bool
    reached none = false
    reached (some l) = not (is_neg (minus q.bytes_used l))

    remaining : Option ℤ → Option ℤ
    remaining none = none
    remaining (some l) =
        let left = minus l q.bytes_used in if is_neg left then some (pos 0) else some left

unfoldable pub scan_traffic_quota : QuotaRow → TrafficQuota
unfolding with_derived_fields
scan_traffic_quota r = with_derived_fields (record {
  id = r.id;
  subscription_id = r.subscription_id;
  bytes_limit = r.bytes_limit;
  bytes_used = r.bytes_used;
  bytes_remaining = none;
  exceeded = false;
  reset_at = r.reset_at;
  created_at = r.created_at;
  updated_at = r.updated_at;
})

abbrev pub is_quota_of : String → QuotaRow → Bool
is_quota_of id r = str_eq r.subscription_id id

-- COALESCE
abbrev pub coalesce {ℓ} : {A : Type ℓ} → Option A → Option A → Option A
coalesce none b = b
coalesce (some a) b = some a

-- the row of the SELECT in GetQuota
unfoldable pub quota_or_default : StoredSubscription → Option QuotaRow → QuotaRow
quota_or_default s none = record {
  id = "";
  subscription_id = s.subscription.id;
  bytes_limit = s.subscription.traffic_limit_bytes;
  bytes_used = s.subscription.traffic_used_bytes;
  reset_at = none;
  created_at = s.created_at;
  updated_at = s.updated_at;
}
quota_or_default s (some q) = record q {
  subscription_id = s.subscription.id;
  bytes_limit = coalesce q.bytes_limit s.subscription.traffic_limit_bytes;
}

abbrev pub require {ℓ} :
    {A : Type ℓ} → Option A → TrafficError → TrafficTables → Result TrafficError A × TrafficTables
require none e t = (err e, t)
require (some a) e t = (ok a, t)

unfoldable pub repository_quota : String → Run TrafficQuota
unfolding find quota_or_default scan_traffic_quota
repository_quota id t =
    (do
      s ← require (find (is_named id) t.tables.subscriptions) not_found
      return (scan_traffic_quota (quota_or_default s (find (is_quota_of id) t.quotas))))
      t

-- the constraints of migration 14 on traffic_quotas
unfoldable pub check_quota_row : QuotaRow → Run (Unit {0})
check_quota_row r = do
  ensure (is_limit r.bytes_limit) (constraint_violated "traffic_quotas_bytes_limit_check")
  ensure (not (is_neg r.bytes_used)) (constraint_violated "traffic_quotas_bytes_used_check")

-- `INSERT … SELECT … FROM subscriptions … ON CONFLICT (subscription_id) DO UPDATE … RETURNING …`
unfoldable pub upsert :
    (id : String) (made : Subscription → QuotaRow) (changed : Subscription → QuotaRow → QuotaRow)
    → Run TrafficQuota
unfolding find update_where any check_quota_row scan_traffic_quota
upsert id made changed t =
    (do
      s ← require (find (is_named id) t.tables.subscriptions) not_found
      let row = stored s.subscription (find (is_quota_of id) t.quotas)
      check_quota_row row
      write s.subscription row)
      t
  where
    stored : Subscription → Option QuotaRow → QuotaRow
    stored s none = made s
    stored s (some q) = changed s q

    write : Subscription → QuotaRow → Run TrafficQuota
    write s row t = (
      ok (scan_traffic_quota row),
      record t {
        quotas =
            if any (is_quota_of id) t.quotas
            then update_where (is_quota_of id) (changed s) t.quotas
            else t.quotas ++ (made s ∷ []);
      },
    )
