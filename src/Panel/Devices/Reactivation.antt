-- ===== src/Panel/Devices/Reactivation.antt =====
-- A device that registers again, in services/panel-api/internal/devices/service.go.
use mathlib.Core.Path.{subst}
use lenker_panel.Base.{
  ℕ, ◌≡◌, refl, ◌∙◌, String, false, Option, some, List, Time, Result, ok, err, is_empty, Bool-cases,
  Option-cases, inl, inr,
}
use lenker_panel.Panel.Nodes.{find, update_where}
use lenker_panel.Panel.Nodes.Tables.{find-updated}
use lenker_panel.Panel.Subscriptions.{Tables}
use lenker_panel.Panel.Subscriptions.Rows.{count-kept}
use lenker_panel.Panel.Devices.{
  Device, DevicesError, is_device, is_same, is_active_on, is_platform, str_ptr, with_names,
  update_device, count_active_by_subscription, enforce_limit, settled, checked, update_last_seen,
  seen, touched, register_device,
}

-- the device is found by its identifier and is not active, and `n` are active
record IsIdle (id subscription_id : String) (n : ℕ) (ds : List Device) : Type 0 where
  device : Device
  found : find (is_device id) ds ≡ some device
  idle : device.is_active ≡ false
  active : count_active_by_subscription subscription_id ds ≡ n

updated-IsIdle :
    (f : Device → Device) (id subscription_id : String) (n : ℕ) (ds : List Device)
    → ((d : Device) → is_device id (f d) ≡ is_device id d)
    → ((d : Device) → (f d).is_active ≡ d.is_active)
    → ((d : Device) → is_active_on subscription_id (f d) ≡ is_active_on subscription_id d)
    → IsIdle id subscription_id n ds
    → IsIdle id subscription_id n (update_where (is_device id) f ds)
unfolding count_active_by_subscription
updated-IsIdle f id subscription_id n ds named same counted h = record {
  device = f h.device;
  found = find-updated (is_device id) f ds h.device named h.found;
  idle = same h.device ∙ h.idle;
  active = count-kept (is_active_on subscription_id) (is_device id) f ds counted ∙ h.active;
}

-- what a registration says, where it succeeds
abbrev Says : (id subscription_id : String) → ℕ → Result DevicesError Device × List Device → Type 0
Says id subscription_id n (err e, ds) = Unit
Says id subscription_id n (ok d, ds) =
    (d.is_active ≡ false) × (count_active_by_subscription subscription_id ds ≡ n)

module _ (inet : String → Option String) where
  touched-IsIdle :
      (clock : Time) (ip id subscription_id : String) (n : ℕ) (ds : List Device)
      → IsIdle id subscription_id n ds
      → IsIdle id subscription_id n (touched inet clock id ip ds)
  unfolding touched update_last_seen seen is_active_on
  touched-IsIdle clock ip id subscription_id n ds h = elim (Bool-cases (is_empty ip)) [
    | inl e ↦ rw e h
    | inr e ↦ elim (Option-cases (inet ip)) [
      | inl k ↦ rw (e, k) h
      | inr (a, k) ↦
          rw (e, k)
            (updated-IsIdle (seen inet clock (some a)) id subscription_id n ds (λ d. refl)
              (λ d. refl) (λ d. refl) h)
    ]
  ]

  update-Says :
      (now : Time) (id subscription_id name platform app_version : String) (n : ℕ)
      (ds : List Device)
      → IsIdle id subscription_id n ds
      → Says id subscription_id n (settled ds (update_device now id name platform app_version ds))
  unfolding update_device with_names is_active_on
  update-Says now id subscription_id name platform app_version n ds h =
      let f = with_names now name platform app_version in
      let idle = updated-IsIdle f id subscription_id n ds (λ d. refl) (λ d. refl) (λ d. refl) h in
      elim (Bool-cases (is_platform (str_ptr platform))) [
        | inl e ↦ rw (h.found, e) (h.idle, idle.active)
        | inr e ↦ rw (h.found, e) tt
      ]

  -- A device that is not active is still not active after it has registered again, although the
  -- registration succeeds and the code means to activate it; the subscription has as many active
  -- devices as before.
  pub inactive_stays :
      (db : Tables) (now clock : Time)
      (id subscription_id fingerprint name platform app_version ip : String) (ds : List Device)
      (existing d : Device) (ds' : List Device)
      → find (is_same subscription_id fingerprint) ds ≡ some existing
      → find (is_device existing.id) ds ≡ some existing
      → existing.is_active ≡ false
      → register_device inet db now clock id subscription_id fingerprint name platform app_version
          ip ds
        ≡ (ok d, ds')
      → (d.is_active ≡ false)
        × (count_active_by_subscription subscription_id ds'
            ≡ count_active_by_subscription subscription_id ds)
  unfolding register_device
  inactive_stays db now clock id subscription_id fingerprint name platform app_version ip ds
        existing d ds' same found idle h =
      let n = count_active_by_subscription subscription_id ds in
      let after_touch =
        touched-IsIdle clock ip existing.id subscription_id n ds
          (record { device = existing; found = found; idle = idle; active = refl }) in
      let seen_again = touched inet clock existing.id ip ds in
      let says =
        update-Says now existing.id subscription_id name platform app_version n seen_again
          after_touch in
      subst (Says existing.id subscription_id n) (rw (same, idle) at h) (
        after_check (enforce_limit db subscription_id seen_again) seen_again
          (settled seen_again (update_device now existing.id name platform app_version seen_again))
          n existing.id subscription_id says)
    where
      after_check :
          (m : Result DevicesError (Unit {0})) (ds : List Device)
          (next : Result DevicesError Device × List Device) (n : ℕ) (id subscription_id : String)
          → Says id subscription_id n next
          → Says id subscription_id n (checked ds m next)
      after_check (err e) ds next n id subscription_id h = tt
      after_check (ok u) ds next n id subscription_id h = h
