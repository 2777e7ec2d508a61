-- ===== src/Panel/Subscriptions.antt =====
-- The subscriptions of the panel: services/panel-api/internal/storage/subscriptions.go. Here are the
-- rows of the tables that it uses, with their CHECK and UNIQUE constraints from migrations/, and the
-- errors; Lifecycle, Access, AccessTokens and Handoff have the operations.
pub mod Rows
pub mod Effects
pub mod Lifecycle
pub mod Access
pub mod AccessTokens
pub mod Handoff
pub mod Calls
pub mod Moves
pub mod Closed
pub mod ClosedMoves
pub mod Spent
pub mod Opening
pub mod OneActive
pub mod Consistent
use lenker_panel.Base.{
  String, Bool, not, ◌&&◌, Option, none, some, List, ℤ, is_neg, is_pos, Time, after, Result, guard,
  ◌>>=◌, ◌>>◌, str_eq, ◌∷◌, [],
}
use lenker_panel.Json.Gate.{contains}
use lenker_panel.Panel.Nodes.{Node}

pub record Subscription : Type 0 where
  pub id : String
  pub user_id : String
  pub plan_id : String
  pub status : String
  pub starts_at : Time
  pub expires_at : Time
  pub traffic_limit_bytes : Option ℤ
  pub traffic_used_bytes : ℤ
  pub device_limit : ℤ
  pub preferred_region : Option String

-- A row of subscriptions.
pub record StoredSubscription : Type 0 where
  pub subscription : Subscription
  pub created_at : Time
  pub updated_at : Time

-- A row of subscription_access_tokens.
pub record AccessTokenRow : Type 0 where
  pub subscription_id : String
  pub token_hash : String
  pub status : String
  pub expires_at : Time
  pub created_at : Time
  pub updated_at : Time

-- A row of subscription_handoff_invites.
pub record HandoffInviteRow : Type 0 where
  pub id : String
  pub subscription_id : String
  pub token_hash : String
  pub status : String
  pub expires_at : Time
  pub claimed_at : Option Time
  pub created_at : Time
  pub updated_at : Time

-- The columns of users and plans that the repository reads.
pub record Account : Type 0 where
  pub id : String
  pub email : String
  pub display_name : String
  pub status : String

pub record Plan : Type 0 where
  pub id : String
  pub name : String
  pub status : String
  pub duration_days : ℤ
  pub traffic_limit_bytes : Option ℤ
  pub device_limit : ℤ

pub record Tables : Type 0 where
  pub subscriptions : List StoredSubscription
  pub users : List Account
  pub plans : List Plan
  pub nodes : List Node
  pub access_tokens : List AccessTokenRow
  pub handoff_invites : List HandoffInviteRow

-- `no_rows` is sql.ErrNoRows, where the code hands it on, and `constraint_violated` what the database
-- answers.
pub data SubscriptionsError : Type 0 where
  not_found access_unavailable invalid_access_token invalid_handoff_token no_rows :
      SubscriptionsError
  constraint_violated : (name : String) → SubscriptionsError

-- A statement, or a transaction that is rolled back when it fails.
abbrev pub Action : Type 0 → Type 0
Action A = Tables → Result SubscriptionsError (A × Tables)

-- `WHERE id = $1`
abbrev pub is_named : String → StoredSubscription → Bool
is_named id row = str_eq row.subscription.id id

abbrev pub is_limit : Option ℤ → Bool
is_limit none = Bool.true
is_limit (some n) = is_pos n

-- The constraints of migration 1 on subscriptions.
unfoldable pub check_subscription : Subscription → Result SubscriptionsError (Unit {0})
check_subscription s = do
  guard (contains ("active" ∷ "expired" ∷ "suspended" ∷ []) s.status)
      (constraint_violated "subscriptions_status_check")
  guard (after s.expires_at s.starts_at) (constraint_violated "subscriptions_period_check")
  guard (is_pos s.device_limit) (constraint_violated "subscriptions_device_limit_check")
  guard (is_limit s.traffic_limit_bytes)
      (constraint_violated "subscriptions_traffic_limit_bytes_check")
  guard (not (is_neg s.traffic_used_bytes))
      (constraint_violated "subscriptions_traffic_used_bytes_check")
