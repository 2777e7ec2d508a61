-- ===== src/Panel/Subscriptions/Spent.antt =====
-- Tokens and invites of services/panel-api/internal/storage/subscriptions.go that are spent stay so.
use mathlib.Core.Path.{subst}
use lenker_panel.Base.{
  ℕ, ◌≡◌, refl, sym, ◌∙◌, String, Bool, not, List, Time, ok, err, some, is_empty, trim_space,
  require, require-eq-ok, guard, >>=-eq-ok, ok-injective, Bool-cases, inl, inr,
}
use lenker_panel.Crypto.{Crypto}
use lenker_panel.Panel.Nodes.{find}
use lenker_panel.Panel.Nodes.Bootstrap.{hash_string}
use lenker_panel.Panel.Render.{RealityConfig}
use lenker_panel.Panel.Subscriptions.{
  AccessTokenRow, Tables, invalid_access_token, invalid_handoff_token,
}
use lenker_panel.Panel.Subscriptions.AccessTokens.{
  SubscriptionAccessToken, SubscriptionAccessTokenStatus, revoke_active, new_access_token_row,
  opens, subscription_id_by_token, access_by_token, revoke_access_token, replace_access_token,
}
use lenker_panel.Panel.Subscriptions.Handoff.{
  SubscriptionHandoffClaim, is_claimable, claim_handoff_invite,
}
use lenker_panel.Panel.Subscriptions.Effects.{
  TokenIssued, issue-TokenIssued, claim-Claimed, revoke-Revoked,
}
use lenker_panel.Panel.Subscriptions.Calls.{Call, calls, calls-kept}
use lenker_panel.Panel.Subscriptions.Moves.{call-Moves}
use lenker_panel.Panel.Subscriptions.OneActive.{IsTokenTable, IsInviteTable}
use lenker_panel.Panel.Subscriptions.Closed.{IsClosed, IsClosed-append, IsClosed-none, other_hash}
use lenker_panel.Panel.Subscriptions.ClosedMoves.{
  all_true, IsClosedToken, IsClosedInvite, has_token, live_token, has_invite, live_invite,
  TokenMove-IsClosed, InviteMove-IsClosed, opened-IsClosed, claimable-IsClosed,
}

module _ (c : Crypto) (text_lt : String → String → Bool) (reality : RealityConfig) where
  calls-IsClosedToken :
      (hash : String) (xs : List Call) (db : Tables)
      → IsClosedToken hash db
      → IsClosedToken hash (calls c text_lt reality xs db)
  calls-IsClosedToken hash xs db h =
      calls-kept c text_lt reality (IsClosedToken hash) xs db
        (λ x db. TokenMove-IsClosed hash (call-Moves c text_lt reality x db).0) h

  calls-IsClosedInvite :
      (hash : String) (xs : List Call) (db : Tables)
      → IsClosedInvite hash db
      → IsClosedInvite hash (calls c text_lt reality xs db)
  calls-IsClosedInvite hash xs db h =
      calls-kept c text_lt reality (IsClosedInvite hash) xs db
        (λ x db. InviteMove-IsClosed hash (call-Moves c text_lt reality x db).1) h

  refused :
      (later : Time) (token : String) (db : Tables)
      → IsClosedToken (hash_string c (trim_space token)) db
      → subscription_id_by_token c later token db ≡ err invalid_access_token
  unfolding subscription_id_by_token opens
  refused later token db h =
      let hash = hash_string c (trim_space token) in
      let nothing =
        IsClosed-none (has_token hash) (live_token hash) (opens later hash) db.access_tokens
          (λ r k. all_true _ _ _ k) h in
      elim (Bool-cases (is_empty (trim_space token))) [
        | inl e ↦ rw e refl
        | inr e ↦ rw (e, nothing) refl
      ]

  unclaimable :
      (later clock : Time) (raw : List ℕ) (token : String) (db : Tables)
      → IsClosedInvite (hash_string c (trim_space token)) db
      → claim_handoff_invite c text_lt later clock reality raw token db ≡ err invalid_handoff_token
  unfolding claim_handoff_invite is_claimable
  unclaimable later clock raw token db h =
      let hash = hash_string c (trim_space token) in
      let nothing =
        IsClosed-none (has_invite hash) (live_invite hash) (is_claimable later hash)
          db.handoff_invites (λ r k. all_true _ _ _ k) h in
      elim (Bool-cases (is_empty (trim_space token))) [
        | inl e ↦ rw e refl
        | inr e ↦ rw (e, nothing) refl
      ]

  -- After an invite has been claimed, whatever calls follow, every other claim of it is refused.
  pub claimed_once :
      (now clock : Time) (raw : List ℕ) (token : String) (db : Tables)
      (r : SubscriptionHandoffClaim) (db' : Tables)
      → IsInviteTable db.handoff_invites
      → claim_handoff_invite c text_lt now clock reality raw token db ≡ ok (r, db')
      → (xs : List Call) (later later_clock : Time) (raw' : List ℕ)
      → claim_handoff_invite c text_lt later later_clock reality raw' token
          (calls c text_lt reality xs db')
        ≡ err invalid_handoff_token
  claimed_once now clock raw token db r db' one h xs later later_clock raw' =
      let (i, _) = claim-Claimed c text_lt now clock reality raw token db r db' h in
      let hash = hash_string c (trim_space token) in
      let closed : IsClosedInvite hash db' =
        subst (IsClosedInvite hash) (sym i.issued.tables)
          (claimable-IsClosed hash now db.handoff_invites i.invite one i.invite_found) in
      unclaimable later later_clock raw' token (calls c text_lt reality xs db')
        (calls-IsClosedInvite hash xs db' closed)

  -- The operations after which the tokens of a subscription so far are spent.
  pub data Closing (id : String) (db db' : Tables) : Type 0 where
    by_revoke :
        (now : Time) (r : SubscriptionAccessTokenStatus)
        → revoke_access_token now id db ≡ ok (r, db')
        → Closing id db db'
    by_issue :
        (now : Time) (raw : List ℕ) (r : SubscriptionAccessToken)
        → replace_access_token c now raw id db ≡ ok (r, db')
        → Closing id db db'
    by_claim :
        (now clock : Time) (raw : List ℕ) (token : String) (r : SubscriptionHandoffClaim)
        → claim_handoff_invite c text_lt now clock reality raw token db ≡ ok (r, db')
        → r.subscription_id ≡ id
        → Closing id db db'

  issued-IsClosedToken :
      (hash : String) (now : Time) (id new : String) (db db' : Tables)
      → TokenIssued now id new db db'
      → IsClosed (has_token hash) (live_token hash) (revoke_active now id db.access_tokens)
      → IsClosedToken hash db'
  unfolding new_access_token_row
  issued-IsClosedToken hash now id new db db' i k = subst (IsClosedToken hash) (sym i.tables) (
      IsClosed-append (has_token hash) (live_token hash) (revoke_active now id db.access_tokens)
        (new_access_token_row now id new i.row.subscription.expires_at) k
        (other_hash (has_token hash) (live_token hash) (λ r. r.token_hash) new hash
          (revoke_active now id db.access_tokens) i.fresh k.0))

  Closing-IsClosedToken :
      (before : Time) (hash id : String) (db db' : Tables) (t : AccessTokenRow)
      → IsTokenTable db.access_tokens
      → find (opens before hash) db.access_tokens ≡ some t
      → t.subscription_id ≡ id
      → Closing id db db'
      → IsClosedToken hash db'
  Closing-IsClosedToken before hash id db db' t one found e (by_revoke now r h) =
      subst (IsClosedToken hash) (sym (revoke-Revoked now id db r db' h))
        (opened-IsClosed hash before now id db.access_tokens t one found e)
  Closing-IsClosedToken before hash id db db' t one found e (by_issue now raw r h) =
      issued-IsClosedToken hash now id _ db db' (issue-TokenIssued c now raw id db r db' h)
        (opened-IsClosed hash before now id db.access_tokens t one found e)
  Closing-IsClosedToken before hash id db db' t one found e (by_claim now clock raw token r h k) =
      let (i, _) = claim-Claimed c text_lt now clock reality raw token db r db' h in
      let own : t.subscription_id ≡ i.invite.subscription_id = e ∙ sym k ∙ i.own in
      issued-IsClosedToken hash now i.invite.subscription_id _ _ db' i.issued
        (opened-IsClosed hash before now i.invite.subscription_id db.access_tokens t one found own)

  -- A token that opens a subscription does not open anything, whatever calls follow, after the
  -- subscription's token has been revoked, issued anew or rotated, or handed over by a claim.
  pub spent_for_good :
      (before : Time) (token id : String) (db db' : Tables)
      → IsTokenTable db.access_tokens
      → subscription_id_by_token c before token db ≡ ok id
      → Closing id db db'
      → (xs : List Call) (later clock : Time)
      → (subscription_id_by_token c later token (calls c text_lt reality xs db')
          ≡ err invalid_access_token)
        × (access_by_token c text_lt later clock reality token (calls c text_lt reality xs db')
            ≡ err invalid_access_token)
  unfolding subscription_id_by_token access_by_token
  spent_for_good before token id db db' one h closing xs later clock =
      let hash = hash_string c (trim_space token) in
      let (_, _, h1) =
        >>=-eq-ok (guard (not (is_empty (trim_space token))) invalid_access_token) _ h in
      let (t, found, h2) = >>=-eq-ok (require _ invalid_access_token) _ h1 in
      let closed =
        Closing-IsClosedToken before hash id db db' t one
          (require-eq-ok _ invalid_access_token t found) (ok-injective _ refl h2) closing in
      let e =
        refused later token (calls c text_lt reality xs db')
          (calls-IsClosedToken hash xs db' closed) in
      (e, rw e refl)
