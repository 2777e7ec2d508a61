-- ===== src/Panel/Devices.antt =====
-- The devices of the panel: services/panel-api/internal/devices, model.go, repository.go and service.go.
-- No transaction holds the statements of a registration together, so a call leaves a table behind
-- whether it succeeds or fails. What PostgreSQL takes as an address, and how it shows it, is a
-- parameter; the lengths of its VARCHAR columns are not modelled.
pub mod Limit
pub mod Reactivation
use lenker_panel.Base.{
  ℕ, suc, String, Bool, true, false, not, ◌&&◌, Option, none, some, List, [], ◌∷◌, ◌++◌, ℤ, pos,
  negsuc, Time, after, Result, ok, err, ◌>>=◌, ◌>>◌, require, guard, str_eq, is_empty, leb,
  if◌then◌else◌,
}
use lenker_panel.Json.Gate.{contains}
use lenker_panel.Panel.Nodes.{find, update_where, any}
use lenker_panel.Panel.Subscriptions.{Tables, SubscriptionsError}
use lenker_panel.Panel.Subscriptions.Rows.{count}
use lenker_panel.Panel.Subscriptions.Lifecycle.{find_subscription}

pub record Device : Type 0 where
  pub id : String
  pub subscription_id : String
  pub device_fingerprint : String
  pub device_name : Option String
  pub platform : Option String
  pub app_version : Option String
  pub first_seen_at : Time
  pub last_seen_at : Time
  pub last_ip : Option String
  pub is_active : Bool
  pub created_at : Time
  pub updated_at : Time

-- `no_subscription` is an error of the subscriptions' repository, handed on; `constraint_violated` and
-- `invalid_address` are answers of the database.
pub data DevicesError : Type 0 where
  device_limit_exceeded not_found invalid_address : DevicesError
  no_subscription : SubscriptionsError → DevicesError
  constraint_violated : (name : String) → DevicesError

abbrev pub is_device : String → Device → Bool
is_device id d = str_eq d.id id

abbrev pub is_same : (subscription_id fingerprint : String) → Device → Bool
is_same subscription_id fingerprint d =
    str_eq d.subscription_id subscription_id && str_eq d.device_fingerprint fingerprint

-- `WHERE subscription_id = $1 AND is_active = true`
unfoldable pub is_active_on : String → Device → Bool
is_active_on subscription_id d = str_eq d.subscription_id subscription_id && d.is_active

abbrev pub is_platform : Option String → Bool
is_platform none = true
is_platform (some p) = contains ("ios" ∷ "android" ∷ "windows" ∷ "macos" ∷ "linux" ∷ []) p

-- strPtr
abbrev pub str_ptr : String → Option String
str_ptr s = if is_empty s then none else some s

-- `d` with the names that a registration gives
unfoldable pub with_names : (now : Time) (name platform app_version : String) → Device → Device
with_names now name platform app_version d = record d {
  device_name = str_ptr name;
  platform = str_ptr platform;
  app_version = str_ptr app_version;
  updated_at = now;
}

-- Update
unfoldable pub update_device :
    (now : Time) (id name platform app_version : String)
    → List Device
    → Result DevicesError (Device × List Device)
unfolding find update_where with_names
update_device now id name platform app_version ds = do
  d ← require (find (is_device id) ds) not_found
  guard (is_platform (str_ptr platform)) (constraint_violated "devices_platform_check")
  ok (
    with_names now name platform app_version d,
    update_where (is_device id) (with_names now name platform app_version) ds,
  )

unfoldable pub delete_where : (Device → Bool) → List Device → List Device
delete_where p [] = []
delete_where p (d ∷ ds) = let rest = delete_where p ds in if p d then rest else d ∷ rest

-- Delete
unfoldable pub delete_device : String → List Device → Result DevicesError (Unit {0} × List Device)
unfolding find delete_where
delete_device id ds = do
  require (find (is_device id) ds) not_found
  ok (tt, delete_where (is_device id) ds)

unfoldable pub find_device : String → List Device → Result DevicesError Device
unfolding find
find_device id ds = require (find (is_device id) ds) not_found

-- ORDER BY last_seen_at DESC; rows of one time stay in the table's order
unfoldable pub insert_last_seen : Device → List Device → List Device
insert_last_seen d [] = d ∷ []
insert_last_seen d (e ∷ es) =
    let rest = insert_last_seen d es in
    if after e.last_seen_at d.last_seen_at then e ∷ rest else d ∷ e ∷ es

unfoldable pub list_by_subscription : String → List Device → List Device
unfolding insert_last_seen
list_by_subscription subscription_id [] = []
list_by_subscription subscription_id (d ∷ ds) =
    let rest = list_by_subscription subscription_id ds in
    if str_eq d.subscription_id subscription_id then insert_last_seen d rest else rest

unfoldable pub count_active_by_subscription : String → List Device → ℕ
unfolding count is_active_on
count_active_by_subscription subscription_id ds = count (is_active_on subscription_id) ds

unfoldable pub inactive : Time → Device → Device
inactive now d = record d { is_active = false; updated_at = now }

unfoldable pub mark_inactive :
    (now : Time) (id : String) → List Device → Result DevicesError (Unit {0} × List Device)
unfolding find update_where inactive
mark_inactive now id ds = do
  require (find (is_device id) ds) not_found
  ok (tt, update_where (is_device id) (inactive now) ds)

-- `count >= limit`
abbrev pub is_full : ℕ → ℤ → Bool
is_full n (pos m) = leb m n
is_full n (negsuc m) = true

-- the error of the subscriptions' repository
abbrev pub of_subscription {ℓ} : {A : Type ℓ} → Result SubscriptionsError A → Result DevicesError A
of_subscription (ok a) = ok a
of_subscription (err e) = err (no_subscription e)

unfoldable pub enforce_limit : Tables → String → List Device → Result DevicesError (Unit {0})
unfolding find_subscription count_active_by_subscription
enforce_limit db subscription_id ds = do
  s ← of_subscription (find_subscription subscription_id db)
  guard (not (is_full (count_active_by_subscription subscription_id ds) s.device_limit))
      device_limit_exceeded

-- a result, and the table that the call leaves
abbrev pub Leaves : Type 0 → Type 0
Leaves A = Result DevicesError A × List Device

-- an action that fails leaves the table as it was
abbrev pub settled {ℓ} :
    {A : Type ℓ}
    → List Device
    → Result DevicesError (A × List Device)
    → Result DevicesError A × List Device
settled ds (err e) = (err e, ds)
settled ds (ok (a, ds')) = (ok a, ds')

-- a check before an action
abbrev pub checked {ℓ} :
    {A : Type ℓ}
    → List Device
    → Result DevicesError (Unit {0})
    → Result DevicesError A × List Device
    → Result DevicesError A × List Device
checked ds (err e) next = (err e, ds)
checked ds (ok u) next = next

module _ (inet : String → Option String) where
  unfoldable pub seen : (clock : Time) → Option String → Device → Device
  seen clock ip d = record d { last_seen_at = clock; last_ip = ip; updated_at = clock }

  -- UpdateLastSeen with an address, where its error is dropped
  unfoldable pub update_last_seen : (clock : Time) (id ip : String) → List Device → List Device
  unfolding update_where seen
  update_last_seen clock id ip ds = go (inet ip)
    where
      go : Option String → List Device
      go none = ds
      go (some address) = update_where (is_device id) (seen clock (some address)) ds

  unfoldable pub new_device :
      (now : Time) (id subscription_id fingerprint name platform app_version : String)
      (last_ip : Option String)
      → Device
  new_device now id subscription_id fingerprint name platform app_version last_ip = record {
    id = id;
    subscription_id = subscription_id;
    device_fingerprint = fingerprint;
    device_name = str_ptr name;
    platform = str_ptr platform;
    app_version = str_ptr app_version;
    first_seen_at = now;
    last_seen_at = now;
    last_ip = last_ip;
    is_active = true;
    created_at = now;
    updated_at = now;
  }

  -- the address column
  unfoldable pub address_of : String → Result DevicesError (Option String)
  address_of ip =
      if is_empty ip then ok none else (require (inet ip) invalid_address >>= λ a. ok (some a))

  -- Create
  unfoldable pub create_device :
      (now : Time) (id subscription_id fingerprint name platform app_version ip : String)
      → List Device
      → Result DevicesError (Device × List Device)
  unfolding any address_of new_device
  create_device now id subscription_id fingerprint name platform app_version ip ds = do
    address ← address_of ip
    guard (is_platform (str_ptr platform)) (constraint_violated "devices_platform_check")
    guard (not (any (is_same subscription_id fingerprint) ds))
        (constraint_violated "devices_subscription_fingerprint_unique")
    let d = new_device now id subscription_id fingerprint name platform app_version address
    ok (d, ds ++ (d ∷ []))

  -- the address and the time of a device that is known, if there is an address
  unfoldable pub touched : (clock : Time) (id ip : String) → List Device → List Device
  unfolding update_last_seen
  touched clock id ip ds = if is_empty ip then ds else update_last_seen clock id ip ds

  -- RegisterDevice; `now` is the database's time, `clock` the program's
  unfoldable pub register_device :
      Tables
      → (now clock : Time) (id subscription_id fingerprint name platform app_version ip : String)
      → List Device
      → Leaves Device
  unfolding find touched enforce_limit update_device create_device
  register_device db now clock id subscription_id fingerprint name platform app_version ip ds =
      go (find (is_same subscription_id fingerprint) ds)
    where
      go : Option Device → Leaves Device
      go none = checked ds (enforce_limit db subscription_id ds) (
          settled ds
            (create_device now id subscription_id fingerprint name platform app_version ip ds))
      go (some existing) =
          let ds' = touched clock existing.id ip ds in
          let next = settled ds' (update_device now existing.id name platform app_version ds') in
          if existing.is_active
          then next
          else checked ds' (enforce_limit db subscription_id ds') next
