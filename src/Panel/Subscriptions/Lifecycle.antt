-- ===== src/Panel/Subscriptions/Lifecycle.antt =====
-- List, Create, FindByID, Update and Renew of
-- services/panel-api/internal/storage/subscriptions.go.
use lenker_panel.Base.{
  ℕ, zero, suc, ◌+◌, ◌-◌, ◌*◌, String, Bool, ◌&&◌, Option, none, some, List, [], ◌∷◌, ◌++◌, map, ℤ,
  pos, negsuc, Time, after, Result, ok, ◌>>=◌, ◌>>◌, require, str_eq, if◌then◌else◌,
}
use lenker_panel.Panel.Nodes.{find, update_where}
use lenker_panel.Panel.Subscriptions.{
  Subscription, StoredSubscription, Account, Plan, Tables, SubscriptionsError, not_found, Action,
  is_named, check_subscription,
}

pub record CreateSubscriptionInput : Type 0 where
  pub user_id : String
  pub plan_id : String
  pub preferred_region : Option String

pub record UpdateSubscriptionInput : Type 0 where
  pub status : Option String
  pub traffic_limit_bytes : Option ℤ
  pub clear_traffic_limit : Bool
  pub device_limit : Option ℤ
  pub preferred_region : Option String
  pub clear_preferred_region : Bool

-- ORDER BY created_at DESC; rows of one time stay in the table's order
unfoldable pub insert_newest :
    StoredSubscription → List StoredSubscription → List StoredSubscription
insert_newest x [] = x ∷ []
insert_newest x (y ∷ r) =
    let rest = insert_newest x r in if after y.created_at x.created_at then y ∷ rest else x ∷ y ∷ r

unfoldable pub newest_first : List StoredSubscription → List StoredSubscription
unfolding insert_newest
newest_first [] = []
newest_first (x ∷ r) = insert_newest x (newest_first r)

-- LIMIT
unfoldable pub limit {ℓ} : {A : Type ℓ} → ℕ → List A → List A
limit zero xs = []
limit (suc n) [] = []
limit (suc n) (x ∷ xs) = x ∷ limit n xs

unfoldable pub list_subscriptions : Tables → List Subscription
unfolding newest_first limit
list_subscriptions db = map (λ r. r.subscription) (limit 100 (newest_first db.subscriptions))

unfoldable pub find_subscription : String → Tables → Result SubscriptionsError Subscription
unfolding find
find_subscription id db = do
  row ← require (find (is_named id) db.subscriptions) not_found
  ok row.subscription

-- `t + n * INTERVAL '1 day'`, in UTC and after the year 1
abbrev pub add_days : Time → ℤ → Time
add_days t (pos n) = t + n * 86400000000000
add_days t (negsuc n) = t - suc n * 86400000000000

-- The row of the INSERT: the columns it does not name have the defaults of the migration.
unfoldable pub new_subscription :
    (id : String) (now : Time) (preferred_region : Option String) → Account → Plan → Subscription
new_subscription id now preferred_region u p = record {
  id = id;
  user_id = u.id;
  plan_id = p.id;
  status = "active";
  starts_at = now;
  expires_at = add_days now p.duration_days;
  traffic_limit_bytes = p.traffic_limit_bytes;
  traffic_used_bytes = pos 0;
  device_limit = p.device_limit;
  preferred_region = preferred_region;
}

-- `now` is the database's time, `clock` the program's
unfoldable pub create_subscription :
    (now clock : Time) (id : String) → CreateSubscriptionInput → Action Subscription
unfolding new_subscription check_subscription
create_subscription now clock id input db = do
  u ← require (find (λ u. str_eq u.id input.user_id) db.users) not_found
  p ← require (find (λ p. str_eq p.id input.plan_id && str_eq p.status "active") db.plans) not_found
  let subscription = new_subscription id clock input.preferred_region u p
  check_subscription subscription
  ok (
    subscription,
    record db {
      subscriptions =
          db.subscriptions
          ++ (record { subscription = subscription; created_at = now; updated_at = now } ∷ []);
    },
  )

abbrev pub with_subscription :
    Time → (Subscription → Subscription) → StoredSubscription → StoredSubscription
with_subscription now f r = record {
  subscription = f r.subscription;
  created_at = r.created_at;
  updated_at = now;
}

-- the constraints on the rows that an UPDATE changes
unfoldable pub check_changed :
    String
    → (Subscription → Subscription)
    → List StoredSubscription
    → Result SubscriptionsError (Unit {0})
unfolding check_subscription
check_changed id f [] = ok tt
check_changed id f (r ∷ rs) = do
  if is_named id r then check_subscription (f r.subscription) else ok tt
  check_changed id f rs

-- `UPDATE subscriptions SET …, updated_at = now() WHERE id = $1 RETURNING …`
unfoldable pub update_subscription :
    (now : Time) (id : String) (f : Subscription → Subscription) → Action Subscription
unfolding find update_where check_changed
update_subscription now id f db = do
  row ← require (find (is_named id) db.subscriptions) not_found
  check_changed id f db.subscriptions
  ok (
    f row.subscription,
    record db {
      subscriptions = update_where (is_named id) (with_subscription now f) db.subscriptions;
    },
  )

abbrev pub or_current {ℓ} : {A : Type ℓ} → Option A → A → A
or_current none current = current
or_current (some a) current = a

-- a limit or a region that is cleared, given, or left alone
abbrev pub changed {ℓ} : {A : Type ℓ} → Bool → Option A → Option A → Option A
changed cleared none current = if cleared then none else current
changed cleared (some a) current = if cleared then none else some a

-- what Update makes of the subscription that it has read
unfoldable pub with_input : UpdateSubscriptionInput → Subscription → Subscription
with_input input current = record current {
  status = or_current input.status current.status;
  traffic_limit_bytes =
      changed input.clear_traffic_limit input.traffic_limit_bytes current.traffic_limit_bytes;
  device_limit = or_current input.device_limit current.device_limit;
  preferred_region =
      changed input.clear_preferred_region input.preferred_region current.preferred_region;
}

-- the columns that the UPDATE sets from it
unfoldable pub with_columns_of : Subscription → Subscription → Subscription
with_columns_of current s = record s {
  status = current.status;
  traffic_limit_bytes = current.traffic_limit_bytes;
  device_limit = current.device_limit;
  preferred_region = current.preferred_region;
}

-- Update, where no other statement runs between its two
unfoldable pub update : (now : Time) (id : String) → UpdateSubscriptionInput → Action Subscription
unfolding find_subscription with_input with_columns_of update_subscription
update now id input db = do
  current ← find_subscription id db
  update_subscription now id (with_columns_of (with_input input current)) db

unfoldable pub extended : (now : Time) (extend_days : ℤ) → Subscription → Subscription
extended now extend_days s = record s {
  status = "active";
  expires_at = add_days (if after s.expires_at now then s.expires_at else now) extend_days;
}

unfoldable pub renew : (now : Time) (id : String) (extend_days : ℤ) → Action Subscription
unfolding extended update_subscription
renew now id extend_days = update_subscription now id (extended now extend_days)
