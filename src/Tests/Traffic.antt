-- ===== src/Tests/Traffic.antt =====
-- The theorems on traffic, at a subscription with a quota.
use lenker_panel.Base.{
  ◌≡◌, ◌⊎◌, refl, inl, String, ℕ, false, none, some, List, [], ◌∷◌, pos, negsuc, ok, err,
  trim_space,
}
use lenker_panel.Panel.Nodes.{find, update_where, any}
use lenker_panel.Panel.Subscriptions.{Subscription, Tables, check_subscription}
use lenker_panel.Panel.Subscriptions.Calls.{left}
use lenker_panel.Panel.Subscriptions.Lifecycle.{
  UpdateSubscriptionInput, update, update_subscription, find_subscription, with_input,
  with_columns_of, check_changed,
}
use lenker_panel.Panel.Traffic.{
  QuotaRow, TrafficQuota, TrafficTables, repository_quota, upsert, check_quota_row,
  scan_traffic_quota, with_derived_fields, invalid_input, unauthorized,
}
use lenker_panel.Panel.Traffic.Recording.{TrafficReportItem, record_report}
use lenker_panel.Panel.Traffic.Quotas.{increment_quota, update_usage, grown, plus_used}
use lenker_panel.Panel.Traffic.Accounts.{IsBalanced, increment-IsBalanced}
use lenker_panel.Panel.Traffic.Limits.{update_leaves_quota}
use lenker_panel.Panel.Traffic.Refusals.{is_entry, refused_report_writes_nothing}
use lenker_panel.Tests.{constant}
use lenker_panel.Tests.Nodes.{one_row}
use lenker_panel.Tests.Subscriptions.{one_subscription, one_table}

abbrev a_quota : QuotaRow
a_quota = record {
  id = "q";
  subscription_id = "s";
  bytes_limit = some (pos 1000);
  bytes_used = pos 400;
  reset_at = none;
  created_at = 20;
  updated_at = 20;
}

abbrev traffic_tables : TrafficTables
traffic_tables = record {
  tables = one_table;
  node_rows = one_row ∷ [];
  devices = [];
  quotas = a_quota ∷ [];
  logs = [];
}

abbrev larger_limit : UpdateSubscriptionInput
larger_limit = record {
  status = none;
  traffic_limit_bytes = some (pos 5000);
  clear_traffic_limit = false;
  device_limit = none;
  preferred_region = none;
  clear_preferred_region = false;
}

abbrev larger_subscription : Subscription
larger_subscription = record one_subscription { traffic_limit_bytes = some (pos 5000) }

abbrev larger_tables : Tables
larger_tables = left one_table (update 60 "s" larger_limit one_table)

updates_it : update 60 "s" larger_limit one_table ≡ ok (larger_subscription, larger_tables)
unfolding update update_subscription find_subscription find update_where check_changed
    check_subscription with_input with_columns_of
updates_it = refl

update_leaves_quota_example :
    (larger_subscription.traffic_limit_bytes ≡ some (pos 5000))
    × ((quota : TrafficQuota) × (repository_quota "s"
            (record traffic_tables { tables = larger_tables })
          ≡ (ok quota, record traffic_tables { tables = larger_tables }))
        × (quota.bytes_limit ≡ some (pos 1000)))
unfolding find
update_leaves_quota_example =
    update_leaves_quota 60 "s" larger_limit traffic_tables a_quota (pos 1000) (pos 5000)
      larger_subscription larger_tables refl refl refl refl updates_it

abbrev an_entry : TrafficReportItem
an_entry = record {
  subscription_id = "s";
  device_id = none;
  bytes_up = pos 10;
  bytes_down = pos 20;
}

abbrev some_entries : List TrafficReportItem
some_entries = an_entry ∷ record an_entry { bytes_up = negsuc 0 } ∷ []

abbrev some_ids : ℕ → String × String
some_ids n = ("log", "quota")

refused_report_writes_nothing_example :
    (record_report constant 70 70 some_ids "token" some_entries traffic_tables
      ≡ (err unauthorized, traffic_tables))
    ⊎ (record_report constant 70 70 some_ids "token" some_entries traffic_tables
        ≡ (err invalid_input, traffic_tables))
unfolding any is_entry trim_space
refused_report_writes_nothing_example =
    refused_report_writes_nothing constant 70 70 some_ids "token" some_entries traffic_tables
      (inl refl)

abbrev counted_tables : TrafficTables
counted_tables = record traffic_tables {
  tables = record one_table {
    subscriptions =
        record {
          subscription = record one_subscription { traffic_used_bytes = pos 400 };
          created_at = 10;
          updated_at = 10;
        }
        ∷ [];
  };
}

counted_tables-IsBalanced : IsBalanced "s" (pos 400) counted_tables
unfolding find
counted_tables-IsBalanced = record {
  row = record {
    subscription = record one_subscription { traffic_used_bytes = pos 400 };
    created_at = 10;
    updated_at = 10;
  };
  stored = refl;
  used_eq = refl;
  agrees = refl;
}

abbrev grown_quota : TrafficQuota
grown_quota = record {
  id = "q";
  subscription_id = "s";
  bytes_limit = some (pos 1000);
  bytes_used = pos 430;
  bytes_remaining = some (pos 570);
  exceeded = false;
  reset_at = none;
  created_at = 20;
  updated_at = 80;
}

abbrev grown_tables : TrafficTables
grown_tables = (increment_quota 80 "new" "s" (pos 30) counted_tables).1

increments : increment_quota 80 "new" "s" (pos 30) counted_tables ≡ (ok grown_quota, grown_tables)
unfolding increment_quota upsert find update_where any check_quota_row update_usage grown plus_used
    scan_traffic_quota with_derived_fields
increments = refl

increment-IsBalanced_example : IsBalanced "s" (pos 430) grown_tables
increment-IsBalanced_example =
    increment-IsBalanced 80 "new" "s" 30 (pos 400) counted_tables grown_quota grown_tables
      counted_tables-IsBalanced increments
