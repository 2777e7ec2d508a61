-- ===== src/Panel/Traffic/Limits.antt =====
-- The limit of services/panel-api/internal/traffic against the limit of the subscription in
-- services/panel-api/internal/storage/subscriptions.go.
use lenker_panel.Base.{
  ◌≡◌, refl, sym, ap, ◌∙◌, String, some, ℤ, Time, ok, >>=-eq-ok, ok-injective, require,
  require-eq-ok, false,
}
use lenker_panel.Panel.Nodes.Tables.{find-updated}
use lenker_panel.Panel.Nodes.{find}
use lenker_panel.Panel.Subscriptions.{Subscription, Tables, is_named, not_found}
use lenker_panel.Panel.Subscriptions.Lifecycle.{
  UpdateSubscriptionInput, update, update_subscription, find_subscription, with_input,
  with_columns_of, check_changed, with_subscription,
}
use lenker_panel.Panel.Traffic.{
  TrafficQuota, QuotaRow, TrafficTables, is_quota_of, repository_quota, quota_or_default,
  scan_traffic_quota, with_derived_fields,
}

-- Where a subscription has a quota with a limit, an update of the subscription that sets another limit
-- changes the subscription's, but GetQuota goes on to answer with the quota's.
pub update_leaves_quota :
    (now : Time) (id : String) (input : UpdateSubscriptionInput) (t : TrafficTables) (q : QuotaRow)
    (limit wanted : ℤ) (s : Subscription) (db : Tables)
    → find (is_quota_of id) t.quotas ≡ some q
    → q.bytes_limit ≡ some limit
    → input.clear_traffic_limit ≡ false
    → input.traffic_limit_bytes ≡ some wanted
    → update now id input t.tables ≡ ok (s, db)
    → (s.traffic_limit_bytes ≡ some wanted)
      × ((quota : TrafficQuota) × (repository_quota id (record t { tables = db })
            ≡ (ok quota, record t { tables = db }))
          × (quota.bytes_limit ≡ some limit))
unfolding update update_subscription find_subscription with_input with_columns_of repository_quota
    quota_or_default scan_traffic_quota with_derived_fields
update_leaves_quota now id input t q limit wanted s db found limited kept given h =
    let (current, _, h1) = >>=-eq-ok (find_subscription id t.tables) _ h in
    let f = with_columns_of (with_input input current) in
    let (row, stored, h2) =
      >>=-eq-ok (require (find (is_named id) t.tables.subscriptions) not_found) _ h1 in
    let (_, _, h3) = >>=-eq-ok (check_changed id f t.tables.subscriptions) _ h2 in
    let e = ok-injective _ refl h3 in
    let there : find (is_named id) db.subscriptions ≡ some (with_subscription now f row) =
      ap (λ x. find (is_named id) x.1.subscriptions) (sym e)
      ∙ find-updated (is_named id) (with_subscription now f) t.tables.subscriptions row (λ y. refl)
          (require-eq-ok _ not_found row stored) in
    (
      ap (λ x. x.0.traffic_limit_bytes) (sym e) ∙ rw (given, kept) refl,
      (
        scan_traffic_quota (quota_or_default (with_subscription now f row) (some q)),
        rw (there, found) refl,
        rw limited refl,
      ),
    )
