-- ===== src/Panel/Subscriptions/Effects.antt =====
-- What the operations of services/panel-api/internal/storage/subscriptions.go that succeed do to the
-- tables.
use mathlib.Core.Option.{some-injective}
use lenker_panel.Base.{
  ℕ, ◌≡◌, refl, sym, ap, ◌∙◌, String, Bool, true, false, not, List, [], ◌∷◌, ◌++◌, Time, ok,
  >>=-eq-ok, ok-injective, guard, guard-eq-ok, require, require-eq-ok, str_eq, is_empty, trim_space,
  some, after,
}
use lenker_panel.Crypto.{Crypto}
use lenker_panel.Panel.Nodes.{find, update_where, any}
use lenker_panel.Panel.Nodes.Bootstrap.{hash_string}
use lenker_panel.Panel.Render.{RealityConfig}
use lenker_panel.Panel.Subscriptions.{
  Subscription, StoredSubscription, AccessTokenRow, HandoffInviteRow, Tables, not_found, no_rows,
  is_named, invalid_handoff_token, constraint_violated,
}
use lenker_panel.Panel.Subscriptions.Lifecycle.{
  update_subscription, with_subscription, check_changed, find_subscription,
}
use lenker_panel.Panel.Subscriptions.Access.{access}
use lenker_panel.Panel.Subscriptions.AccessTokens.{
  SubscriptionAccessToken, SubscriptionAccessTokenStatus, new_subscription_access_token,
  revoke_active, new_access_token_row, check_access_token,
  ensure_subscription_eligible_for_access_token, replace_access_token_in_tx, replace_access_token,
  revoke_access_token, access_token_status,
}
use lenker_panel.Panel.Subscriptions.Handoff.{
  SubscriptionHandoffInvite, SubscriptionHandoffInviteStatus, SubscriptionHandoffClaim,
  new_subscription_handoff_token, withdraw_active, invite_expiry, new_invite_row,
  check_handoff_invite, create_handoff_invite, is_claimable, claimed, claim_handoff_invite,
  revoke_handoff_invite, handoff_invite_status,
}

not-false : (b : Bool) → not b ≡ true → b ≡ false
not-false true h = cc
not-false false h = refl

-- The active tokens of the subscription are revoked, and a token with a new hash is added.
pub record TokenIssued (now : Time) (id hash : String) (db db' : Tables) : Type 0 where
  pub row : StoredSubscription
  pub subscription_found : find (is_named id) db.subscriptions ≡ some row
  pub tables : db' ≡ record db {
    access_tokens =
        revoke_active now id db.access_tokens
        ++ (new_access_token_row now id hash row.subscription.expires_at ∷ []);
  }
  pub fresh : any (λ r. str_eq r.token_hash hash) (revoke_active now id db.access_tokens) ≡ false

pub record InviteIssued (now : Time) (id hash invite_id : String) (db db' : Tables) : Type 0 where
  pub expires_at : Time
  pub tables : db' ≡ record db {
    handoff_invites =
        withdraw_active now id db.handoff_invites
        ++ (new_invite_row invite_id now id hash expires_at ∷ []);
  }
  pub fresh :
      any (λ r. str_eq r.token_hash hash) (withdraw_active now id db.handoff_invites) ≡ false

fresh_token :
    (t : AccessTokenRow) (rows : List AccessTokenRow)
    → check_access_token t rows ≡ ok tt
    → any (λ r. str_eq r.token_hash t.token_hash) rows ≡ false
unfolding check_access_token
fresh_token t rows h =
    let (_, _, unique) =
      >>=-eq-ok
        (guard (after t.expires_at t.created_at)
          (constraint_violated "subscription_access_tokens_expires_at_check"))
        _ h in
    not-false _
      (guard-eq-ok _ (constraint_violated "subscription_access_tokens_token_hash_key") unique)

fresh_invite :
    (t : HandoffInviteRow) (rows : List HandoffInviteRow)
    → check_handoff_invite t rows ≡ ok tt
    → any (λ r. str_eq r.token_hash t.token_hash) rows ≡ false
unfolding check_handoff_invite
fresh_invite t rows h =
    let (_, _, unique) =
      >>=-eq-ok
        (guard (after t.expires_at t.created_at)
          (constraint_violated "subscription_handoff_invites_expires_at_check"))
        _ h in
    not-false _
      (guard-eq-ok _ (constraint_violated "subscription_handoff_invites_token_hash_key") unique)

module _ (c : Crypto) where
  pub replace-TokenIssued :
      (now : Time) (id token : String) (db : Tables) (r : SubscriptionAccessToken) (db' : Tables)
      → replace_access_token_in_tx c now id token db ≡ ok (r, db')
      → TokenIssued now id (hash_string c token) db db'
  unfolding replace_access_token_in_tx new_access_token_row
  replace-TokenIssued now id token db r db' h =
      let (row, found, h1) =
        >>=-eq-ok (require (find (is_named id) db.subscriptions) no_rows) _ h in
      let rows = revoke_active now id db.access_tokens in
      let t = new_access_token_row now id (hash_string c token) row.subscription.expires_at in
      let (_, checked, h2) = >>=-eq-ok (check_access_token t rows) _ h1 in
      record {
        row = row;
        subscription_found = require-eq-ok _ no_rows row found;
        tables = sym (ap (λ x. x.1) (ok-injective _ refl h2));
        fresh = fresh_token t rows checked;
      }

  pub replace-expires :
      (now : Time) (id token : String) (db : Tables) (r : SubscriptionAccessToken) (db' : Tables)
      (row : StoredSubscription)
      → replace_access_token_in_tx c now id token db ≡ ok (r, db')
      → find (is_named id) db.subscriptions ≡ some row
      → r.expires_at ≡ row.subscription.expires_at
  unfolding replace_access_token_in_tx
  replace-expires now id token db r db' row h found =
      let (row', found', h1) =
        >>=-eq-ok (require (find (is_named id) db.subscriptions) no_rows) _ h in
      let rows = revoke_active now id db.access_tokens in
      let t = new_access_token_row now id (hash_string c token) row'.subscription.expires_at in
      let (_, _, h2) = >>=-eq-ok (check_access_token t rows) _ h1 in
      sym (ap (λ x. x.0.expires_at) (ok-injective _ refl h2))
      ∙ ap (λ x. x.subscription.expires_at)
          (some-injective _ _ (sym (require-eq-ok _ no_rows row' found') ∙ found))

  pub issue-TokenIssued :
      (now : Time) (raw : List ℕ) (id : String) (db : Tables) (r : SubscriptionAccessToken)
      (db' : Tables)
      → replace_access_token c now raw id db ≡ ok (r, db')
      → TokenIssued now id (hash_string c (new_subscription_access_token raw)) db db'
  unfolding replace_access_token
  issue-TokenIssued now raw id db r db' h =
      let (_, _, h1) = >>=-eq-ok (ensure_subscription_eligible_for_access_token now id db) _ h in
      let (x, done, h2) =
        >>=-eq-ok (replace_access_token_in_tx c now id (new_subscription_access_token raw) db) _
          h1 in
      replace-TokenIssued now id (new_subscription_access_token raw) db x.0 db'
        (done ∙ ap (λ y. ok (x.0, y)) (ap (λ x. x.1) (ok-injective _ refl h2)))

  pub invite-InviteIssued :
      (now : Time) (invite_id : String) (raw : List ℕ) (id : String) (db : Tables)
      (r : SubscriptionHandoffInvite) (db' : Tables)
      → create_handoff_invite c now invite_id raw id db ≡ ok (r, db')
      → InviteIssued now id (hash_string c (new_subscription_handoff_token raw)) invite_id db db'
  unfolding create_handoff_invite new_invite_row
  invite-InviteIssued now invite_id raw id db r db' h =
      let (_, _, h1) = >>=-eq-ok (ensure_subscription_eligible_for_access_token now id db) _ h in
      let (row, found, h2) =
        >>=-eq-ok (require (find (is_named id) db.subscriptions) no_rows) _ h1 in
      let rows = withdraw_active now id db.handoff_invites in
      let expires_at = invite_expiry now row.subscription.expires_at in
      let t =
        new_invite_row invite_id now id (hash_string c (new_subscription_handoff_token raw))
          expires_at in
      let (_, checked, h3) = >>=-eq-ok (check_handoff_invite t rows) _ h2 in
      record {
        expires_at = expires_at;
        tables = sym (ap (λ x. x.1) (ok-injective _ refl h3));
        fresh = fresh_invite t rows checked;
      }

  abbrev pub with_claimed : Time → HandoffInviteRow → Tables → Tables
  with_claimed now t db = record db {
    handoff_invites = update_where (λ r. str_eq r.id t.id) (claimed now) db.handoff_invites;
  }

  -- The invite is marked, then a token is issued.
  pub record Claimed (now : Time) (raw : List ℕ) (token : String) (db : Tables)
      (r : SubscriptionHandoffClaim) (db' : Tables) : Type 0 where
    pub invite : HandoffInviteRow
    pub invite_found :
        find (is_claimable now (hash_string c (trim_space token))) db.handoff_invites ≡ some invite
    pub issued :
        TokenIssued now invite.subscription_id
          (hash_string c (new_subscription_access_token raw))
          (with_claimed now invite db)
          db'
    pub answered :
        (x : SubscriptionAccessToken) × (replace_access_token_in_tx c now invite.subscription_id
            (new_subscription_access_token raw)
            (with_claimed now invite db)
          ≡ ok (x, db'))
        × (r.access_token_expires_at ≡ x.expires_at)
    pub own : r.subscription_id ≡ invite.subscription_id
    pub token_eq : r.access_token ≡ new_subscription_access_token raw

  pub claim-Claimed :
      (text_lt : String → String → Bool) (now clock : Time) (reality : RealityConfig) (raw : List ℕ)
      (token : String) (db : Tables) (r : SubscriptionHandoffClaim) (db' : Tables)
      → claim_handoff_invite c text_lt now clock reality raw token db ≡ ok (r, db')
      → Claimed now raw token db r db'
        × (access text_lt clock reality r.subscription_id db ≡ ok r.access)
  unfolding claim_handoff_invite
  claim-Claimed text_lt now clock reality raw token db r db' h =
      let (_, _, h1) =
        >>=-eq-ok (guard (not (is_empty (trim_space token))) invalid_handoff_token) _ h in
      let (t, found, h2) = >>=-eq-ok (require _ invalid_handoff_token) _ h1 in
      let (_, _, h3) =
        >>=-eq-ok (ensure_subscription_eligible_for_access_token now t.subscription_id db) _ h2 in
      let (a, served, h4) = >>=-eq-ok (access text_lt clock reality t.subscription_id db) _ h3 in
      let (x, done, h5) =
        >>=-eq-ok
          (replace_access_token_in_tx c now t.subscription_id (new_subscription_access_token raw)
            (with_claimed now t db))
          _ h4 in
      let e = ok-injective _ refl h5 in
      (
        record {
          invite = t;
          invite_found = require-eq-ok _ invalid_handoff_token t found;
          issued =
              replace-TokenIssued now t.subscription_id (new_subscription_access_token raw)
                (with_claimed now t db) x.0 db' (done ∙ ap (λ y. ok (x.0, y)) (ap (λ x. x.1) e));
          answered = (
            x.0,
            done ∙ ap (λ y. ok (x.0, y)) (ap (λ x. x.1) e),
            sym (ap (λ x. x.0.access_token_expires_at) e),
          );
          own = sym (ap (λ x. x.0.subscription_id) e);
          token_eq = sym (ap (λ x. x.0.access_token) e);
        },
        ap (λ s. access text_lt clock reality s db) (sym (ap (λ x. x.0.subscription_id) e))
            ∙ served
            ∙ ap (λ y. ok y) (ap (λ x. x.0.access) e),
      )

pub revoke-Revoked :
    (now : Time) (id : String) (db : Tables) (r : SubscriptionAccessTokenStatus) (db' : Tables)
    → revoke_access_token now id db ≡ ok (r, db')
    → db' ≡ record db { access_tokens = revoke_active now id db.access_tokens }
unfolding revoke_access_token
revoke-Revoked now id db r db' h =
    let (_, _, h1) = >>=-eq-ok (find_subscription id db) _ h in
    let (_, _, h2) =
      >>=-eq-ok
        (access_token_status id
          (record db { access_tokens = revoke_active now id db.access_tokens }))
        _ h1 in
    sym (ap (λ x. x.1) (ok-injective _ refl h2))

pub revoke-Withdrawn :
    (now clock : Time) (id : String) (db : Tables) (r : SubscriptionHandoffInviteStatus)
    (db' : Tables)
    → revoke_handoff_invite now clock id db ≡ ok (r, db')
    → db' ≡ record db { handoff_invites = withdraw_active now id db.handoff_invites }
unfolding revoke_handoff_invite
revoke-Withdrawn now clock id db r db' h =
    let (_, _, h1) = >>=-eq-ok (find_subscription id db) _ h in
    let (_, _, h2) =
      >>=-eq-ok
        (handoff_invite_status now clock id
          (record db { handoff_invites = withdraw_active now id db.handoff_invites }))
        _ h1 in
    sym (ap (λ x. x.1) (ok-injective _ refl h2))

pub record Changed (now : Time) (id : String) (f : Subscription → Subscription) (db db' : Tables)
    : Type 0 where
  pub tables : db' ≡ record db {
    subscriptions = update_where (is_named id) (with_subscription now f) db.subscriptions;
  }
  pub checked : check_changed id f db.subscriptions ≡ ok tt

pub update-Changed :
    (now : Time) (id : String) (f : Subscription → Subscription) (db : Tables) (r : Subscription)
    (db' : Tables)
    → update_subscription now id f db ≡ ok (r, db')
    → Changed now id f db db'
unfolding update_subscription
update-Changed now id f db r db' h =
    let (row, _, h1) = >>=-eq-ok (require (find (is_named id) db.subscriptions) not_found) _ h in
    let (_, checked, h2) = >>=-eq-ok (check_changed id f db.subscriptions) _ h1 in
    record { tables = sym (ap (λ x. x.1) (ok-injective _ refl h2)); checked = checked }
