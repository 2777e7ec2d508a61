-- ===== src/Panel/Subscriptions/Handoff.antt =====
-- The handoff invites of services/panel-api/internal/storage/subscriptions.go: CreateHandoffInvite,
-- HandoffInviteStatus, RevokeHandoffInvite and ClaimHandoffInvite.
use lenker_panel.Base.{
  ℕ, suc, ◌+◌, String, Bool, not, ◌&&◌, Option, none, some, List, [], ◌∷◌, ◌++◌, Time, after,
  Result, ok, ◌>>=◌, ◌>>◌, require, guard, str_eq, is_empty, trim_space, append, if◌then◌else◌,
}
use lenker_panel.Crypto.{Crypto}
use lenker_panel.Crypto.Hex.{encode_to_string}
use lenker_panel.Panel.Nodes.{find, update_where, any}
use lenker_panel.Panel.Nodes.Bootstrap.{hash_string}
use lenker_panel.Panel.Render.{RealityConfig}
use lenker_panel.Panel.Subscriptions.{
  HandoffInviteRow, Tables, SubscriptionsError, invalid_handoff_token, no_rows, constraint_violated,
  Action, is_named,
}
use lenker_panel.Panel.Subscriptions.Lifecycle.{find_subscription}
use lenker_panel.Panel.Subscriptions.Access.{SubscriptionAccess, access}
use lenker_panel.Panel.Subscriptions.AccessTokens.{
  new_subscription_access_token, ensure_subscription_eligible_for_access_token,
  replace_access_token_in_tx,
}

pub record SubscriptionHandoffInvite : Type 0 where
  pub subscription_id : String
  pub handoff_token : String
  pub expires_at : Time
  pub created_at : Time

pub record SubscriptionHandoffInviteStatus : Type 0 where
  pub subscription_id : String
  pub status : String
  pub issued : Bool
  pub issued_at : Option Time
  pub expires_at : Option Time
  pub claimed_at : Option Time
  pub revoked_at : Option Time
  pub generation : ℕ

pub record SubscriptionHandoffClaim : Type 0 where
  pub subscription_id : String
  pub access_token : String
  pub access_token_expires_at : Time
  pub claimed_at : Time
  pub access : SubscriptionAccess

unfoldable pub new_subscription_handoff_token : List ℕ → String
new_subscription_handoff_token raw = append "lnkhi_" (encode_to_string raw)

-- `WHERE subscription_id = $1 AND status = 'active'`
unfoldable pub is_pending_of : String → HandoffInviteRow → Bool
is_pending_of id t = str_eq t.subscription_id id && str_eq t.status "active"

unfoldable pub withdrawn : Time → HandoffInviteRow → HandoffInviteRow
withdrawn now t = record t { status = "revoked"; updated_at = now }

unfoldable pub withdraw_active : Time → String → List HandoffInviteRow → List HandoffInviteRow
unfolding update_where is_pending_of withdrawn
withdraw_active now id rows = update_where (is_pending_of id) (withdrawn now) rows

unfoldable pub claimed : Time → HandoffInviteRow → HandoffInviteRow
claimed now t = record t { status = "claimed"; claimed_at = some now; updated_at = now }

-- the constraints of migration 10 on the INSERT
unfoldable pub check_handoff_invite :
    HandoffInviteRow → List HandoffInviteRow → Result SubscriptionsError (Unit {0})
unfolding any
check_handoff_invite t rows = do
  guard (after t.expires_at t.created_at)
      (constraint_violated "subscription_handoff_invites_expires_at_check")
  guard (not (any (λ r. str_eq r.token_hash t.token_hash) rows))
      (constraint_violated "subscription_handoff_invites_token_hash_key")

-- `LEAST(expires_at, now() + INTERVAL '24 hours')`
unfoldable pub invite_expiry : (now expires_at : Time) → Time
invite_expiry now expires_at =
    if after expires_at (now + 86400000000000) then now + 86400000000000 else expires_at

unfoldable pub new_invite_row :
    (invite_id : String) (now : Time) (id token_hash : String) (expires_at : Time)
    → HandoffInviteRow
new_invite_row invite_id now id token_hash expires_at = record {
  id = invite_id;
  subscription_id = id;
  token_hash = token_hash;
  status = "active";
  expires_at = expires_at;
  claimed_at = none;
  created_at = now;
  updated_at = now;
}

-- `WHERE token_hash = $1 AND status = 'active' AND expires_at > now()`
unfoldable pub is_claimable : (now : Time) (token_hash : String) → HandoffInviteRow → Bool
is_claimable now token_hash t =
    str_eq t.token_hash token_hash && str_eq t.status "active" && after t.expires_at now

-- `status = 'active' AND expires_at > now()`
abbrev is_open : Time → HandoffInviteRow → Bool
is_open now t = str_eq t.status "active" && after t.expires_at now

-- the first row of ORDER BY CASE WHEN … THEN 0 ELSE 1 END, created_at DESC
unfoldable pub is_more_open : Time → HandoffInviteRow → HandoffInviteRow → Bool
is_more_open now a b =
    if is_open now a
    then not (is_open now b && after b.created_at a.created_at)
    else not (is_open now b) && not (after b.created_at a.created_at)

unfoldable pub current_invite : Time → String → List HandoffInviteRow → Option HandoffInviteRow
unfolding is_more_open
current_invite now id [] = none
current_invite now id (t ∷ r) = choose t (current_invite now id r)
  where
    choose : HandoffInviteRow → Option HandoffInviteRow → Option HandoffInviteRow
    choose t none = if str_eq t.subscription_id id then some t else none
    choose t (some u) =
        if str_eq t.subscription_id id && is_more_open now t u then some t else some u

unfoldable pub invite_count : String → List HandoffInviteRow → ℕ
invite_count id [] = 0
invite_count id (t ∷ r) =
    let rest = invite_count id r in if str_eq t.subscription_id id then suc rest else rest

-- `now` is the database's time, `clock` the program's
unfoldable pub handoff_invite_status :
    (now clock : Time) (id : String)
    → Tables
    → Result SubscriptionsError SubscriptionHandoffInviteStatus
unfolding find_subscription current_invite invite_count
handoff_invite_status now clock id db = do
  find_subscription id db
  ok (status (current_invite now id db.handoff_invites) (invite_count id db.handoff_invites))
  where
    status : Option HandoffInviteRow → ℕ → SubscriptionHandoffInviteStatus
    status none n = record {
      subscription_id = id;
      status = "never_issued";
      issued = Bool.false;
      issued_at = none;
      expires_at = none;
      claimed_at = none;
      revoked_at = none;
      generation = n;
    }
    status (some t) n = record {
      subscription_id = id;
      status =
          if str_eq t.status "active" && not (after t.expires_at clock)
          then "expired"
          else t.status;
      issued = Bool.true;
      issued_at = some t.created_at;
      expires_at = some t.expires_at;
      claimed_at = t.claimed_at;
      revoked_at = if str_eq t.status "revoked" then some t.updated_at else none;
      generation = n;
    }

unfoldable pub revoke_handoff_invite :
    (now clock : Time) (id : String) → Action SubscriptionHandoffInviteStatus
unfolding find_subscription withdraw_active handoff_invite_status
revoke_handoff_invite now clock id db = do
  find_subscription id db
  let db' : Tables = record db { handoff_invites = withdraw_active now id db.handoff_invites }
  status ← handoff_invite_status now clock id db'
  ok (status, db')

module _ (c : Crypto) where
  unfoldable pub create_handoff_invite :
      (now : Time) (invite_id : String) (raw : List ℕ) (id : String)
      → Action SubscriptionHandoffInvite
  unfolding find ensure_subscription_eligible_for_access_token withdraw_active invite_expiry
      new_invite_row check_handoff_invite new_subscription_handoff_token hash_string
  create_handoff_invite now invite_id raw id db = do
    let token = new_subscription_handoff_token raw
    ensure_subscription_eligible_for_access_token now id db
    row ← require (find (is_named id) db.subscriptions) no_rows
    let rows = withdraw_active now id db.handoff_invites
    let expires_at = invite_expiry now row.subscription.expires_at
    let t = new_invite_row invite_id now id (hash_string c token) expires_at
    check_handoff_invite t rows
    ok (
      record {
        subscription_id = id;
        handoff_token = token;
        expires_at = expires_at;
        created_at = now;
      },
      record db { handoff_invites = rows ++ (t ∷ []) },
    )

  -- Access runs outside the transaction, which has changed nothing yet.
  unfoldable pub claim_handoff_invite :
      (text_lt : String → String → Bool) (now clock : Time)
      → RealityConfig
      → (raw : List ℕ) (token : String) → Action SubscriptionHandoffClaim
  unfolding find is_claimable ensure_subscription_eligible_for_access_token access claimed
      replace_access_token_in_tx new_subscription_access_token update_where hash_string trim_space
  claim_handoff_invite text_lt now clock reality raw token db = do
    guard (not (is_empty (trim_space token))) invalid_handoff_token
    let access_token = new_subscription_access_token raw
    t ←
        require (find (is_claimable now (hash_string c (trim_space token))) db.handoff_invites)
          invalid_handoff_token
    ensure_subscription_eligible_for_access_token now t.subscription_id db
    a ← access text_lt clock reality t.subscription_id db
    let db' : Tables = record db {
      handoff_invites = update_where (λ r. str_eq r.id t.id) (claimed now) db.handoff_invites;
    }
    issued ← replace_access_token_in_tx c now t.subscription_id access_token db'
    ok (
      record {
        subscription_id = t.subscription_id;
        access_token = access_token;
        access_token_expires_at = issued.0.expires_at;
        claimed_at = now;
        access = a;
      },
      issued.1,
    )
