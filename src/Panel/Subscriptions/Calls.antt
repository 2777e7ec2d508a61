-- ===== src/Panel/Subscriptions/Calls.antt =====
-- The calls that change the tables of services/panel-api/internal/storage/subscriptions.go, one after
-- another; a call that fails leaves the tables as they were.
use lenker_panel.Base.{ℕ, ◌≡◌, refl, String, Bool, List, [], ◌∷◌, ℤ, Time, Result, ok, err}
use lenker_panel.Crypto.{Crypto}
use lenker_panel.Panel.Render.{RealityConfig}
use lenker_panel.Panel.Subscriptions.{Tables, SubscriptionsError}
use lenker_panel.Panel.Subscriptions.Lifecycle.{
  CreateSubscriptionInput, UpdateSubscriptionInput, create_subscription, update, renew,
}
use lenker_panel.Panel.Subscriptions.AccessTokens.{replace_access_token, revoke_access_token}
use lenker_panel.Panel.Subscriptions.Handoff.{
  create_handoff_invite, revoke_handoff_invite, claim_handoff_invite,
}

-- The times, the identifiers of the database and the random bytes of a call are in it.
pub data Call : Type 0 where
  creates : (now clock : Time) (id : String) → CreateSubscriptionInput → Call
  updates : (now : Time) (id : String) → UpdateSubscriptionInput → Call
  renews : (now : Time) (id : String) (extend_days : ℤ) → Call
  issues : (now : Time) (raw : List ℕ) (id : String) → Call
  revokes : (now : Time) (id : String) → Call
  invites : (now : Time) (invite_id : String) (raw : List ℕ) (id : String) → Call
  withdraws : (now clock : Time) (id : String) → Call
  claims : (now clock : Time) (raw : List ℕ) (token : String) → Call

abbrev pub left {ℓ} : {A : Type ℓ} → Tables → Result SubscriptionsError (A × Tables) → Tables
left db (err e) = db
left db (ok (a, db')) = db'

-- What holds of the tables before and after each success holds of what a call leaves.
pub left-kept {ℓ} :
    {A : Type ℓ} (P : Tables → Type 0) (db : Tables) (m : Result SubscriptionsError (A × Tables))
    → P db
    → ((a : A) (db' : Tables) → m ≡ ok (a, db') → P db')
    → P (left db m)
left-kept P db (err e) h k = h
left-kept P db (ok (a, db')) h k = k a db' refl

module _ (c : Crypto) (text_lt : String → String → Bool) (reality : RealityConfig) where
  unfoldable pub call : Call → Tables → Tables
  unfolding create_subscription update renew replace_access_token revoke_access_token
      create_handoff_invite revoke_handoff_invite claim_handoff_invite
  call (creates now clock id input) db = left db (create_subscription now clock id input db)
  call (updates now id input) db = left db (update now id input db)
  call (renews now id extend_days) db = left db (renew now id extend_days db)
  call (issues now raw id) db = left db (replace_access_token c now raw id db)
  call (revokes now id) db = left db (revoke_access_token now id db)
  call (invites now invite_id raw id) db = left db (create_handoff_invite c now invite_id raw id db)
  call (withdraws now clock id) db = left db (revoke_handoff_invite now clock id db)
  call (claims now clock raw token) db =
      left db (claim_handoff_invite c text_lt now clock reality raw token db)

  unfoldable pub calls : List Call → Tables → Tables
  unfolding call
  calls [] db = db
  calls (x ∷ xs) db = calls xs (call x db)

  pub calls-kept :
      (P : Tables → Type 0) (xs : List Call) (db : Tables)
      → ((x : Call) (db : Tables) → P db → P (call x db))
      → P db
      → P (calls xs db)
  unfolding calls
  calls-kept P [] db step h = h
  calls-kept P (x ∷ xs) db step h = calls-kept P xs (call x db) step (step x db h)
