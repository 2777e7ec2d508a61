-- ===== src/Panel/Devices/Limit.antt =====
-- The device limit of services/panel-api/internal/devices.
use lenker_panel.Base.{
  ℕ, suc, ◌≤◌, ◌≡◌, refl, sym, ap, ◌∙◌, String, Bool, true, false, not, ◌&&◌, Option, some, List,
  [], ◌∷◌, ◌++◌, pos, Time, Result, ok, err, require, guard, guard-eq-ok, >>=-eq-ok, ok-injective,
  str_eq, leb, arith, Bool-cases, Option-cases, is_empty, inl, inr, eq_iff,
}
use mathlib.Core.Path.{subst}
use lenker_panel.Panel.Nodes.{find, update_where, any}
use lenker_panel.Panel.Subscriptions.{Subscription, Tables}
use lenker_panel.Panel.Subscriptions.Rows.{count, count-append, count-lost, count-kept}
use lenker_panel.Panel.Subscriptions.Lifecycle.{find_subscription}
use lenker_panel.Panel.Devices.{
  Device, DevicesError, not_found, device_limit_exceeded, constraint_violated, is_device, is_same,
  is_active_on, is_platform, str_ptr, with_names, update_device, delete_where, delete_device,
  inactive, mark_inactive, count_active_by_subscription, enforce_limit, is_full, settled, checked,
  update_last_seen, seen, new_device, create_device, touched, register_device, address_of,
}

-- the calls of the service and the handler that change the table
pub data DeviceCall : Type 0 where
  registers :
      (now clock : Time) (id subscription_id fingerprint name platform app_version ip : String)
      → DeviceCall
  deactivates : (now : Time) (id : String) → DeviceCall
  deletes : (id : String) → DeviceCall

false-right : (b : Bool) → (b && false) ≡ false
false-right true = refl
false-right false = refl

module _ (inet : String → Option String) (db : Tables) where
  unfoldable pub device_call : DeviceCall → List Device → List Device
  unfolding register_device mark_inactive delete_device
  device_call (registers now clock id subscription_id fingerprint name platform app_version ip) ds =
      (register_device inet db now clock id subscription_id fingerprint name platform app_version ip
        ds).1
  device_call (deactivates now id) ds = (settled ds (mark_inactive now id ds)).1
  device_call (deletes id) ds = (settled ds (delete_device id ds)).1

  unfoldable pub device_calls : List DeviceCall → List Device → List Device
  unfolding device_call
  device_calls [] ds = ds
  device_calls (x ∷ xs) ds = device_calls xs (device_call x ds)

  module _ (subscription_id : String) (limit : ℕ) where
    abbrev Fits : List Device → Type 0
    Fits ds = count_active_by_subscription subscription_id ds ≤ limit

    settled-Fits :
        {A : Type 0} (ds : List Device) (m : Result DevicesError (A × List Device))
        → Fits ds
        → ((a : A) (ds' : List Device) → m ≡ ok (a, ds') → Fits ds')
        → Fits (settled ds m).1
    settled-Fits ds (err e) h k = h
    settled-Fits ds (ok (a, ds')) h k = k a ds' refl

    checked-Fits :
        {A : Type 0} (ds : List Device) (m : Result DevicesError (Unit {0}))
        (next : Result DevicesError A × List Device)
        → Fits ds
        → (m ≡ ok tt → Fits next.1)
        → Fits (checked ds m next).1
    checked-Fits ds (err e) next h k = h
    checked-Fits ds (ok u) next h k = k refl

    kept-Fits :
        (q : Device → Bool) (f : Device → Device) (ds : List Device)
        → ((d : Device) → is_active_on subscription_id (f d) ≡ is_active_on subscription_id d)
        → Fits ds
        → Fits (update_where q f ds)
    unfolding count_active_by_subscription
    kept-Fits q f ds same h =
        omega (arith, count-kept (is_active_on subscription_id) q f ds same, h)

    touched-Fits :
        (clock : Time) (id ip : String) (ds : List Device)
        → Fits ds
        → Fits (touched inet clock id ip ds)
    unfolding touched update_last_seen seen is_active_on
    touched-Fits clock id ip ds h = elim (Bool-cases (is_empty ip)) [
      | inl e ↦ rw e h
      | inr e ↦ elim (Option-cases (inet ip)) [
        | inl k ↦ rw (e, k) h
        | inr (a, k) ↦
            rw (e, k) (kept-Fits (is_device id) (seen inet clock (some a)) ds (λ d. refl) h)
      ]
    ]

    update-Fits :
        (now : Time) (id name platform app_version : String) (ds : List Device) (d : Device)
        (ds' : List Device)
        → Fits ds
        → update_device now id name platform app_version ds ≡ ok (d, ds')
        → Fits ds'
    unfolding update_device with_names is_active_on
    update-Fits now id name platform app_version ds d ds' h e =
        let (_, _, h1) = >>=-eq-ok (require (find (is_device id) ds) not_found) _ e in
        let (_, _, h2) =
          >>=-eq-ok
            (guard (is_platform (str_ptr platform)) (constraint_violated "devices_platform_check"))
            _ h1 in
        subst Fits (ap (λ x. x.1) (ok-injective _ refl h2))
          (kept-Fits (is_device id) (with_names now name platform app_version) ds (λ d. refl) h)

    deleted :
        (p : Device → Bool) (ds : List Device)
        → count (is_active_on subscription_id) (delete_where p ds)
          ≤ count (is_active_on subscription_id) ds
    unfolding count delete_where
    deleted p [] = omega arith
    deleted p (d ∷ ds) =
        let rest = deleted p ds in
        elim (Bool-cases (p d)) [
          | inl e ↦ elim (Bool-cases (is_active_on subscription_id d)) [
            | inl k ↦ rw (e, k) (omega (arith, rest))
            | inr k ↦ rw (e, k) rest
          ]
          | inr e ↦ elim (Bool-cases (is_active_on subscription_id d)) [
            | inl k ↦ rw (e, k) (omega (arith, rest))
            | inr k ↦ rw (e, k) rest
          ]
        ]

    module _ (s : Subscription) (stored : find_subscription subscription_id db ≡ ok s)
        (limited : s.device_limit ≡ pos limit) where
      -- the limit lets one more device in
      room :
          (ds : List Device)
          → enforce_limit db subscription_id ds ≡ ok tt
          → suc (count_active_by_subscription subscription_id ds) ≤ limit
      unfolding enforce_limit
      room ds h =
          let passed : guard
                (not (is_full (count_active_by_subscription subscription_id ds) (pos limit)))
                device_limit_exceeded
              ≡ ok tt =
            rw (stored, limited) at h in
          let open_place =
            guard-eq-ok (not (leb limit (count_active_by_subscription subscription_id ds)))
              device_limit_exceeded passed in
          ground (arith, open_place)

      -- one more device, for the subscription with room or for another one
      added-Fits :
          (other : String) (d : Device) (ds : List Device)
          → d.subscription_id ≡ other
          → Fits ds
          → enforce_limit db other ds ≡ ok tt
          → Fits (ds ++ (d ∷ []))
      unfolding count_active_by_subscription is_active_on
      added-Fits other d ds same h enforced =
          let p = is_active_on subscription_id in
          let not_counted : p d ≡ false → count p (ds ++ (d ∷ [])) ≤ limit = λ v.
            let more : count p (ds ++ (d ∷ [])) ≡ count p ds = count-append p ds d ∙ rw v refl in
            omega (arith, more, h) in
          elim (Bool-cases (str_eq d.subscription_id subscription_id)) [
            | inl k ↦
                let own : other ≡ subscription_id = sym same ∙ (eq_iff _ _).0 k in
                let free = room ds (subst (λ x. enforce_limit db x ds ≡ ok tt) own enforced) in
                elim (Bool-cases (p d)) [
                  | inl v ↦
                      let more : count p (ds ++ (d ∷ [])) ≡ suc (count p ds) =
                        count-append p ds d ∙ rw v refl in
                      omega (arith, more, free)
                  | inr v ↦ not_counted v
                ]
            | inr k ↦ not_counted (rw k refl)
          ]

      created-Fits :
          (now : Time) (id other fingerprint name platform app_version ip : String)
          (ds : List Device) (d : Device) (ds' : List Device)
          → Fits ds
          → enforce_limit db other ds ≡ ok tt
          → create_device inet now id other fingerprint name platform app_version ip ds
            ≡ ok (d, ds')
          → Fits ds'
      unfolding create_device new_device
      created-Fits now id other fingerprint name platform app_version ip ds d ds' h enforced e =
          let (address, _, h1) = >>=-eq-ok (address_of inet ip) _ e in
          let (_, _, h2) =
            >>=-eq-ok
              (guard (is_platform (str_ptr platform))
                (constraint_violated "devices_platform_check"))
              _ h1 in
          let (_, _, h3) =
            >>=-eq-ok
              (guard (not (any (is_same other fingerprint) ds))
                (constraint_violated "devices_subscription_fingerprint_unique"))
              _ h2 in
          subst Fits (ap (λ x. x.1) (ok-injective _ refl h3)) (
            added-Fits other
              (new_device inet now id other fingerprint name platform app_version address) ds refl h
              enforced)

      register-Fits :
          (now clock : Time) (id other fingerprint name platform app_version ip : String)
          (ds : List Device)
          → Fits ds
          → Fits
              (register_device inet db now clock id other fingerprint name platform app_version ip
                ds).1
      unfolding register_device
      register-Fits now clock id other fingerprint name platform app_version ip ds h =
          elim (Option-cases (find (is_same other fingerprint) ds)) [
            | inl e ↦ rw e (
                checked-Fits ds (enforce_limit db other ds) _ h (λ enforced.
                  settled-Fits ds _ h (λ d ds' made.
                    created-Fits now id other fingerprint name platform app_version ip ds d ds' h
                      enforced made)))
            | inr (existing, e) ↦
                let ds' = touched inet clock existing.id ip ds in
                let h' = touched-Fits clock existing.id ip ds h in
                let next =
                  settled-Fits ds' (update_device now existing.id name platform app_version ds') h'
                    (λ d ds'' made.
                      update-Fits now existing.id name platform app_version ds' d ds'' h' made) in
                elim (Bool-cases (existing.is_active)) [
                  | inl k ↦ rw (e, k) next
                  | inr k ↦
                      rw (e, k) (checked-Fits ds' (enforce_limit db other ds') _ h' (λ _. next))
                ]
          ]

      call-Fits : (x : DeviceCall) (ds : List Device) → Fits ds → Fits (device_call x ds)
      unfolding device_call mark_inactive delete_device inactive is_active_on
          count_active_by_subscription
      call-Fits (registers now clock id other fingerprint name platform app_version ip) ds h =
          register-Fits now clock id other fingerprint name platform app_version ip ds h
      call-Fits (deactivates now id) ds h = settled-Fits ds (mark_inactive now id ds) h (λ _ ds' e.
          let (_, _, h1) = >>=-eq-ok (require (find (is_device id) ds) not_found) _ e in
          subst Fits (ap (λ x. x.1) (ok-injective _ refl h1)) (
            let fewer =
              count-lost (is_active_on subscription_id) (is_device id) (inactive now) ds
                (λ d. false-right (str_eq d.subscription_id subscription_id)) in
            omega (arith, fewer, h)))
      call-Fits (deletes id) ds h = settled-Fits ds (delete_device id ds) h (λ _ ds' e.
          let (_, _, h1) = >>=-eq-ok (require (find (is_device id) ds) not_found) _ e in
          subst Fits (ap (λ x. x.1) (ok-injective _ refl h1))
            (omega (arith, deleted (is_device id) ds, h)))

      -- Whatever registrations, deactivations and deletions follow one another, a subscription with a
      -- limit that is not negative never has more active devices than it allows, if so at the beginning.
      pub calls-Fits :
          (xs : List DeviceCall) (ds : List Device)
          → count_active_by_subscription subscription_id ds ≤ limit
          → count_active_by_subscription subscription_id (device_calls xs ds) ≤ limit
      unfolding device_calls
      calls-Fits [] ds h = h
      calls-Fits (x ∷ xs) ds h = calls-Fits xs (device_call x ds) (call-Fits x ds h)
