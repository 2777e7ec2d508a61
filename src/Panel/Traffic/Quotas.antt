-- ===== src/Panel/Traffic/Quotas.antt =====
-- The quotas of services/panel-api/internal/traffic: SetQuota, UpdateQuota, IncrementQuota and
-- ResetQuota of repository.go, and what service.go puts around them.
use lenker_panel.Base.{
  String, Bool, true, false, not, Option, none, some, ℤ, pos, is_neg, Time, after, is_zero, Result,
  ok, err, is_empty, is_blank, trim_space, if◌then◌else◌,
}
use lenker_panel.Panel.Nodes.{find, update_where, any}
use lenker_panel.Panel.Subscriptions.{Subscription, StoredSubscription, is_named, is_limit}
use lenker_panel.Panel.Subscriptions.Lifecycle.{with_subscription}
use lenker_panel.Panel.Traffic.{
  TrafficQuota, SetQuotaInput, QuotaRow, TrafficTables, TrafficError, not_found, invalid_input,
  constraint_violated, Run, return, ensure, ◌>>=◌, ◌>>◌, plus, repository_quota, require, upsert,
  check_quota_row, is_quota_of,
}

-- `UPDATE subscriptions SET traffic_limit_bytes = …, traffic_used_bytes = … WHERE id = $1`
unfoldable pub update_usage :
    (now : Time) (id : String) (f : Subscription → Subscription) → Run Bool
unfolding find update_where any
update_usage now id f t =
    (do
      ensure (has_limit (find (is_named id) t.tables.subscriptions))
          (constraint_violated "subscriptions_traffic_limit_bytes_check")
      ensure (has_usage (find (is_named id) t.tables.subscriptions))
          (constraint_violated "subscriptions_traffic_used_bytes_check")
      write)
      t
  where
    has_limit : Option StoredSubscription → Bool
    has_limit none = true
    has_limit (some r) = is_limit (f r.subscription).traffic_limit_bytes

    has_usage : Option StoredSubscription → Bool
    has_usage none = true
    has_usage (some r) = not (is_neg (f r.subscription).traffic_used_bytes)

    write : Run Bool
    write t = (
      ok (any (is_named id) t.tables.subscriptions),
      record t {
        tables = record t.tables {
          subscriptions =
              update_where (is_named id) (with_subscription now f) t.tables.subscriptions;
        };
      },
    )

unfoldable pub with_usage : Option ℤ → ℤ → Subscription → Subscription
with_usage limit used s = record s { traffic_limit_bytes = limit; traffic_used_bytes = used }

unfoldable pub sync_subscription_quota :
    (now : Time) (id : String) (limit : Option ℤ) (used : ℤ) → Run (Unit {0})
unfolding update_usage with_usage
sync_subscription_quota now id limit used = do
  affected ← update_usage now id (with_usage limit used)
  ensure affected not_found

-- a new row, with the defaults of migration 14
unfoldable pub new_quota :
    (quota_id : String) (now : Time) (limit : Option ℤ) (used : ℤ) (reset_at : Option Time)
    → Subscription
    → QuotaRow
new_quota quota_id now limit used reset_at s = record {
  id = quota_id;
  subscription_id = s.id;
  bytes_limit = limit;
  bytes_used = used;
  reset_at = reset_at;
  created_at = now;
  updated_at = now;
}

-- optionalTimePtr
abbrev pub set_time : Option Time → Option Time
set_time none = none
set_time (some t) = if is_zero t then none else some t

-- SetQuota of the repository
unfoldable pub repository_set_quota :
    (now : Time) (quota_id : String) → SetQuotaInput → (used : ℤ) → Run TrafficQuota
unfolding upsert new_quota sync_subscription_quota
repository_set_quota now quota_id input used = do
  quota ←
      upsert input.subscription_id
        (new_quota quota_id now input.bytes_limit used (set_time input.reset_at))
        (λ _ q. record q {
          bytes_limit = input.bytes_limit;
          bytes_used = used;
          reset_at = set_time input.reset_at;
          updated_at = now;
        })
  sync_subscription_quota now input.subscription_id input.bytes_limit used
  return quota

-- UpdateQuota of the repository
unfoldable pub update_quota : (now : Time) (id : String) (used : ℤ) → Run (Unit {0})
unfolding find update_where check_quota_row sync_subscription_quota
update_quota now id used t =
    (do
      q ← require (find (is_quota_of id) t.quotas) not_found
      check_quota_row (changed q)
      write
      sync_subscription_quota now id q.bytes_limit used)
      t
  where
    changed : QuotaRow → QuotaRow
    changed q = record q { bytes_used = used; updated_at = now }

    write : Run (Unit {0})
    write t = (ok tt, record t { quotas = update_where (is_quota_of id) changed t.quotas })

unfoldable pub plus_used : ℤ → Subscription → Subscription
plus_used delta s = record s { traffic_used_bytes = plus s.traffic_used_bytes delta }

unfoldable pub grown : (now : Time) (delta : ℤ) → QuotaRow → QuotaRow
grown now delta q = record q { bytes_used = plus q.bytes_used delta; updated_at = now }

unfoldable pub increment_quota : (now : Time) (quota_id id : String) (delta : ℤ) → Run TrafficQuota
unfolding upsert new_quota grown update_usage plus_used
increment_quota now quota_id id delta = do
  quota ←
      upsert id (λ s. new_quota quota_id now s.traffic_limit_bytes delta none s)
        (λ _ q. grown now delta q)
  update_usage now id (plus_used delta)
  return quota

unfoldable pub emptied : Time → QuotaRow → QuotaRow
emptied now q = record q { bytes_used = pos 0; reset_at = none; updated_at = now }

-- ResetQuota of the repository
unfoldable pub repository_reset_quota : (now : Time) (quota_id id : String) → Run TrafficQuota
unfolding upsert new_quota emptied sync_subscription_quota
repository_reset_quota now quota_id id = do
  quota ←
      upsert id (λ s. new_quota quota_id now s.traffic_limit_bytes (pos 0) none s)
        (λ _ q. emptied now q)
  sync_subscription_quota now id quota.bytes_limit (pos 0)
  return quota

-- ResetQuotaIfNeeded; `clock` is the program's time
unfoldable pub reset_quota_if_needed : (now clock : Time) (quota_id id : String) → Run (Unit {0})
unfolding repository_quota repository_reset_quota
reset_quota_if_needed now clock quota_id id t = go (repository_quota (trim_space id) t)
  where
    is_due : Option Time → Bool
    is_due none = false
    is_due (some at) = not (after at clock)

    dropped :
        Result TrafficError TrafficQuota × TrafficTables
        → Result TrafficError (Unit {0}) × TrafficTables
    dropped (err e, t) = (err e, t)
    dropped (ok q, t) = (ok tt, t)

    go :
        Result TrafficError TrafficQuota × TrafficTables
        → Result TrafficError (Unit {0}) × TrafficTables
    go (err not_found, t) = (ok tt, t)
    go (err e, t) = (err e, t)
    go (ok q, t) =
        let reset = dropped (repository_reset_quota now quota_id (trim_space id) t) in
        if is_due q.reset_at then reset else (ok tt, t)

unfoldable pub get_quota : (now clock : Time) (quota_id id : String) → Run TrafficQuota
unfolding reset_quota_if_needed repository_quota
get_quota now clock quota_id id = do
  ensure (not (is_blank id)) invalid_input
  reset_quota_if_needed now clock quota_id id
  repository_quota (trim_space id)

unfoldable pub reset_quota : (now : Time) (quota_id id : String) → Run TrafficQuota
unfolding repository_reset_quota
reset_quota now quota_id id = do
  ensure (not (is_blank id)) invalid_input
  repository_reset_quota now quota_id (trim_space id)

abbrev pub is_natural : Option ℤ → Bool
is_natural none = true
is_natural (some n) = not (is_neg n)

-- the bytes used that SetQuota keeps or is given
unfoldable pub used_of : SetQuotaInput → (id : String) → Run ℤ
unfolding repository_quota
used_of input id t = go input.bytes_used (repository_quota id t)
  where
    go :
        Option ℤ
        → Result TrafficError TrafficQuota × TrafficTables
        → Result TrafficError ℤ × TrafficTables
    go (some n) current = (ok n, t)
    go none (ok q, t') = (ok q.bytes_used, t')
    go none (err not_found, t') = (ok (pos 0), t')
    go none (err e, t') = (err e, t')

unfoldable pub set_quota : (now : Time) (quota_id : String) → SetQuotaInput → Run TrafficQuota
unfolding used_of repository_set_quota
set_quota now quota_id input = do
  let id = trim_space input.subscription_id
  ensure (not (is_empty id)) invalid_input
  ensure (is_limit input.bytes_limit) invalid_input
  ensure (is_natural input.bytes_used) invalid_input
  used ← used_of input id
  repository_set_quota now quota_id (record input { subscription_id = id }) used

-- what CheckQuota answers
pub record QuotaCheck : Type 0 where
  pub used : ℤ
  pub limit : ℤ
  pub exceeded : Bool

unfoldable pub check_quota : (now clock : Time) (quota_id id : String) → Run QuotaCheck
unfolding get_quota
check_quota now clock quota_id id t = go (get_quota now clock quota_id id t)
  where
    of_limit : TrafficQuota → Option ℤ → QuotaCheck
    of_limit q none = record { used = q.bytes_used; limit = pos 0; exceeded = false }
    of_limit q (some l) = record { used = q.bytes_used; limit = l; exceeded = q.exceeded }

    go :
        Result TrafficError TrafficQuota × TrafficTables
        → Result TrafficError QuotaCheck × TrafficTables
    go (err not_found, t) = (ok (record { used = pos 0; limit = pos 0; exceeded = false }), t)
    go (err e, t) = (err e, t)
    go (ok q, t) = (ok (of_limit q q.bytes_limit), t)
