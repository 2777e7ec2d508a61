-- ===== src/Panel/Subscriptions/AccessTokens.antt =====
-- The access tokens of services/panel-api/internal/storage/subscriptions.go: CreateAccessToken,
-- RotateAccessToken, RevokeAccessToken, AccessTokenStatus, AccessByToken, SubscriptionIDByToken.
use lenker_panel.Base.{
  ℕ, suc, String, Bool, not, ◌&&◌, Option, none, some, List, [], ◌∷◌, ◌++◌, Time, after, Result, ok,
  ◌>>=◌, ◌>>◌, require, guard, str_eq, is_empty, trim_space, append, if◌then◌else◌,
}
use lenker_panel.Crypto.{Crypto}
use lenker_panel.Crypto.Hex.{encode_to_string}
use lenker_panel.Panel.Nodes.{find, update_where, any}
use lenker_panel.Panel.Nodes.Bootstrap.{hash_string}
use lenker_panel.Panel.Render.{RealityConfig}
use lenker_panel.Panel.Subscriptions.{
  AccessTokenRow, Tables, SubscriptionsError, not_found, access_unavailable, invalid_access_token,
  no_rows, constraint_violated, Action, is_named,
}
use lenker_panel.Panel.Subscriptions.Lifecycle.{find_subscription}
use lenker_panel.Panel.Subscriptions.Access.{SubscriptionAccess, access}

pub record SubscriptionAccessToken : Type 0 where
  pub subscription_id : String
  pub token : String
  pub expires_at : Time
  pub created_at : Time

pub record SubscriptionAccessTokenStatus : Type 0 where
  pub subscription_id : String
  pub status : String
  pub issued : Bool
  pub issued_at : Option Time
  pub revoked_at : Option Time
  pub generation : ℕ

unfoldable pub new_subscription_access_token : List ℕ → String
new_subscription_access_token raw = append "lnksa_" (encode_to_string raw)

-- `WHERE subscription_id = $1 AND status = 'active'`
unfoldable pub is_active_of : String → AccessTokenRow → Bool
is_active_of id t = str_eq t.subscription_id id && str_eq t.status "active"

unfoldable pub revoked : Time → AccessTokenRow → AccessTokenRow
revoked now t = record t { status = "revoked"; updated_at = now }

unfoldable pub revoke_active : Time → String → List AccessTokenRow → List AccessTokenRow
unfolding update_where is_active_of revoked
revoke_active now id rows = update_where (is_active_of id) (revoked now) rows

unfoldable pub ensure_subscription_eligible_for_access_token :
    (now : Time) (id : String) → Tables → Result SubscriptionsError (Unit {0})
unfolding find
ensure_subscription_eligible_for_access_token now id db = do
  row ← require (find (is_named id) db.subscriptions) not_found
  u ← require (find (λ u. str_eq u.id row.subscription.user_id) db.users) access_unavailable
  guard
      (str_eq row.subscription.status "active"
        && str_eq u.status "active"
        && after row.subscription.expires_at now)
      access_unavailable

-- the constraints of migration 9 on the INSERT
unfoldable pub check_access_token :
    AccessTokenRow → List AccessTokenRow → Result SubscriptionsError (Unit {0})
unfolding any
check_access_token t rows = do
  guard (after t.expires_at t.created_at)
      (constraint_violated "subscription_access_tokens_expires_at_check")
  guard (not (any (λ r. str_eq r.token_hash t.token_hash) rows))
      (constraint_violated "subscription_access_tokens_token_hash_key")

unfoldable pub new_access_token_row :
    (now : Time) (id token_hash : String) (expires_at : Time) → AccessTokenRow
new_access_token_row now id token_hash expires_at = record {
  subscription_id = id;
  token_hash = token_hash;
  status = "active";
  expires_at = expires_at;
  created_at = now;
  updated_at = now;
}

-- `WHERE token_hash = $1 AND status = 'active' AND expires_at > now()`
unfoldable pub opens : (now : Time) (token_hash : String) → AccessTokenRow → Bool
opens now token_hash t =
    str_eq t.token_hash token_hash && str_eq t.status "active" && after t.expires_at now

-- the first row of ORDER BY CASE WHEN status = 'active' THEN 0 ELSE 1 END, created_at DESC
unfoldable pub is_more_current : AccessTokenRow → AccessTokenRow → Bool
is_more_current a b =
    if str_eq a.status "active"
    then not (str_eq b.status "active" && after b.created_at a.created_at)
    else not (str_eq b.status "active") && not (after b.created_at a.created_at)

unfoldable pub current_token : String → List AccessTokenRow → Option AccessTokenRow
unfolding is_more_current
current_token id [] = none
current_token id (t ∷ r) = choose t (current_token id r)
  where
    choose : AccessTokenRow → Option AccessTokenRow → Option AccessTokenRow
    choose t none = if str_eq t.subscription_id id then some t else none
    choose t (some u) =
        if str_eq t.subscription_id id && is_more_current t u then some t else some u

-- COUNT(*)
unfoldable pub token_count : String → List AccessTokenRow → ℕ
token_count id [] = 0
token_count id (t ∷ r) =
    let rest = token_count id r in if str_eq t.subscription_id id then suc rest else rest

unfoldable pub access_token_status :
    (id : String) → Tables → Result SubscriptionsError SubscriptionAccessTokenStatus
unfolding find_subscription current_token token_count
access_token_status id db = do
  find_subscription id db
  ok (status (current_token id db.access_tokens) (token_count id db.access_tokens))
  where
    status : Option AccessTokenRow → ℕ → SubscriptionAccessTokenStatus
    status none n = record {
      subscription_id = id;
      status = "never_issued";
      issued = Bool.false;
      issued_at = none;
      revoked_at = none;
      generation = n;
    }
    status (some t) n = record {
      subscription_id = id;
      status = t.status;
      issued = Bool.true;
      issued_at = some t.created_at;
      revoked_at = if str_eq t.status "revoked" then some t.updated_at else none;
      generation = n;
    }

unfoldable pub revoke_access_token :
    (now : Time) (id : String) → Action SubscriptionAccessTokenStatus
unfolding find_subscription revoke_active access_token_status
revoke_access_token now id db = do
  find_subscription id db
  let db' : Tables = record db { access_tokens = revoke_active now id db.access_tokens }
  status ← access_token_status id db'
  ok (status, db')

module _ (c : Crypto) where
  unfoldable pub replace_access_token_in_tx :
      (now : Time) (id token : String) → Action SubscriptionAccessToken
  unfolding find revoke_active new_access_token_row check_access_token hash_string
  replace_access_token_in_tx now id token db = do
    row ← require (find (is_named id) db.subscriptions) no_rows
    let rows = revoke_active now id db.access_tokens
    let t = new_access_token_row now id (hash_string c token) row.subscription.expires_at
    check_access_token t rows
    ok (
      record {
        subscription_id = id;
        token = "";
        expires_at = row.subscription.expires_at;
        created_at = now;
      },
      record db { access_tokens = rows ++ (t ∷ []) },
    )

  -- CreateAccessToken and RotateAccessToken
  unfoldable pub replace_access_token :
      (now : Time) (raw : List ℕ) (id : String) → Action SubscriptionAccessToken
  unfolding new_subscription_access_token ensure_subscription_eligible_for_access_token
      replace_access_token_in_tx
  replace_access_token now raw id db = do
    let token = new_subscription_access_token raw
    ensure_subscription_eligible_for_access_token now id db
    result ← replace_access_token_in_tx now id token db
    ok (record result.0 { token = token }, result.1)

  unfoldable pub subscription_id_by_token :
      (now : Time) (token : String) → Tables → Result SubscriptionsError String
  unfolding find opens hash_string trim_space
  subscription_id_by_token now token db = do
    guard (not (is_empty (trim_space token))) invalid_access_token
    t ←
        require (find (opens now (hash_string c (trim_space token))) db.access_tokens)
          invalid_access_token
    ok t.subscription_id

  -- The query is that of SubscriptionIDByToken, whose order does not show: one row at most has a hash.
  unfoldable pub access_by_token :
      (text_lt : String → String → Bool) (now clock : Time)
      → RealityConfig
      → (token : String) → Tables
      → Result SubscriptionsError SubscriptionAccess
  unfolding subscription_id_by_token access
  access_by_token text_lt now clock reality token db = do
    id ← subscription_id_by_token now token db
    access text_lt clock reality id db
