-- ===== src/Tests/Devices.antt =====
-- The theorems on devices, at a table of two.
use lenker_panel.Base.{
  ◌≡◌, ◌≤◌, refl, String, true, false, Option, none, some, List, [], ◌∷◌, arith, ok,
}
use lenker_panel.Panel.Nodes.{find, update_where}
use lenker_panel.Panel.Subscriptions.Rows.{count}
use lenker_panel.Panel.Subscriptions.Lifecycle.{find_subscription}
use lenker_panel.Panel.Devices.{
  Device, count_active_by_subscription, register_device, touched, update_last_seen, seen,
  update_device, with_names, enforce_limit, is_active_on,
}
use lenker_panel.Panel.Devices.Limit.{
  DeviceCall, registers, deactivates, deletes, device_calls, calls-Fits,
}
use lenker_panel.Panel.Devices.Reactivation.{inactive_stays}
use lenker_panel.Tests.Subscriptions.{one_subscription, one_table}

abbrev as_written : String → Option String
as_written ip = some ip

abbrev phone : Device
phone = record {
  id = "d1";
  subscription_id = "s";
  device_fingerprint = "phone";
  device_name = none;
  platform = none;
  app_version = none;
  first_seen_at = 20;
  last_seen_at = 20;
  last_ip = none;
  is_active = true;
  created_at = 20;
  updated_at = 20;
}

abbrev laptop : Device
laptop = record phone { id = "d2"; device_fingerprint = "laptop"; is_active = false }

abbrev two_devices : List Device
two_devices = phone ∷ laptop ∷ []

abbrev some_device_calls : List DeviceCall
some_device_calls =
    registers 30 30 "d3" "s" "tablet" "Tablet" "android" "1.0" "10.0.0.1"
    ∷ deactivates 40 "d1"
    ∷ deletes "d2"
    ∷ []

stored_subscription : find_subscription "s" one_table ≡ ok one_subscription
unfolding find_subscription find
stored_subscription = refl

few_active : count_active_by_subscription "s" two_devices ≤ 3
unfolding count_active_by_subscription count is_active_on
few_active = omega arith

calls-Fits_example :
    count_active_by_subscription "s"
      (device_calls as_written one_table some_device_calls two_devices)
    ≤ 3
calls-Fits_example =
    calls-Fits as_written one_table "s" 3 one_subscription stored_subscription refl
      some_device_calls two_devices few_active

abbrev named_laptop : Device
named_laptop = record laptop {
  device_name = some "Laptop";
  platform = some "linux";
  app_version = some "1.0";
  last_seen_at = 50;
  last_ip = some "10.0.0.2";
  updated_at = 51;
}

registers_again :
    register_device as_written one_table 51 50 "d4" "s" "laptop" "Laptop" "linux" "1.0" "10.0.0.2"
      two_devices
    ≡ (ok named_laptop, phone ∷ named_laptop ∷ [])
unfolding register_device find update_where touched update_last_seen seen update_device with_names
    enforce_limit find_subscription count_active_by_subscription count is_active_on
registers_again = refl

inactive_stays_example :
    (named_laptop.is_active ≡ false)
    × (count_active_by_subscription "s" (phone ∷ named_laptop ∷ [])
        ≡ count_active_by_subscription "s" two_devices)
unfolding find
inactive_stays_example =
    inactive_stays as_written one_table 51 50 "d4" "s" "laptop" "Laptop" "linux" "1.0" "10.0.0.2"
      two_devices laptop named_laptop (phone ∷ named_laptop ∷ []) refl refl refl registers_again
