-- ===== src/Panel/Subscriptions/Moves.antt =====
-- What each call of services/panel-api/internal/storage/subscriptions.go does to the tokens and the
-- invites.
use mathlib.Core.Path.{subst}
use lenker_panel.Base.{
  ◌≡◌, refl, sym, ap, String, Bool, ok, ◌&&◌, List, [], ◌∷◌, ◌++◌, Time, str_eq, false, >>=-eq-ok,
  ok-injective, require,
}
use lenker_panel.Crypto.{Crypto}
use lenker_panel.Panel.Nodes.{find, update_where, any}
use lenker_panel.Panel.Render.{RealityConfig}
use lenker_panel.Panel.Subscriptions.{
  Subscription, AccessTokenRow, HandoffInviteRow, Tables, not_found, check_subscription,
}
use lenker_panel.Panel.Subscriptions.Lifecycle.{
  CreateSubscriptionInput, create_subscription, update, renew, with_columns_of, with_input,
  extended, find_subscription, new_subscription,
}
use lenker_panel.Panel.Subscriptions.AccessTokens.{revoke_active, new_access_token_row}
use lenker_panel.Panel.Subscriptions.Handoff.{withdraw_active, claimed, new_invite_row}
use lenker_panel.Panel.Subscriptions.Effects.{
  issue-TokenIssued, invite-InviteIssued, claim-Claimed, revoke-Revoked, revoke-Withdrawn,
  update-Changed,
}
use lenker_panel.Panel.Subscriptions.Calls.{
  Call, creates, updates, renews, issues, revokes, invites, withdraws, claims, left-kept, call,
}

pub data TokenMove (rows : List AccessTokenRow) : List AccessTokenRow → Type 0 where
  tokens_kept : TokenMove rows rows
  tokens_revoked : (now : Time) (id : String) → TokenMove rows (revoke_active now id rows)
  token_added :
      (now : Time) (id hash : String) (expires_at : Time)
      → any (λ r. str_eq r.token_hash hash) (revoke_active now id rows) ≡ false
      → TokenMove rows
          (revoke_active now id rows ++ (new_access_token_row now id hash expires_at ∷ []))

pub data InviteMove (rows : List HandoffInviteRow) : List HandoffInviteRow → Type 0 where
  invites_kept : InviteMove rows rows
  invites_withdrawn : (now : Time) (id : String) → InviteMove rows (withdraw_active now id rows)
  invite_added :
      (now : Time) (id hash invite_id : String) (expires_at : Time)
      → any (λ r. str_eq r.token_hash hash) (withdraw_active now id rows) ≡ false
      → InviteMove rows
          (withdraw_active now id rows ++ (new_invite_row invite_id now id hash expires_at ∷ []))
  invite_claimed :
      (now : Time) (id : String)
      → InviteMove rows (update_where (λ r. str_eq r.id id) (claimed now) rows)

abbrev pub Moves : Tables → Tables → Type 0
Moves db db' =
    TokenMove db.access_tokens db'.access_tokens × InviteMove db.handoff_invites db'.handoff_invites

-- the new tables, by an equation
tables-Moves : (db : Tables) {db' new : Tables} → db' ≡ new → Moves db new → Moves db db'
tables-Moves db e m = subst (Moves db) (sym e) m

created-Moves :
    (now clock : Time) (id : String) (input : CreateSubscriptionInput) (db : Tables)
    (s : Subscription) (db' : Tables)
    → create_subscription now clock id input db ≡ ok (s, db')
    → Moves db db'
unfolding create_subscription
created-Moves now clock id input db s db' e =
    let (u, _, h1) =
      >>=-eq-ok (require (find (λ u. str_eq u.id input.user_id) db.users) not_found) _ e in
    let (p, _, h2) =
      >>=-eq-ok
        (require (find (λ p. str_eq p.id input.plan_id && str_eq p.status "active") db.plans)
          not_found)
        _ h1 in
    let (_, _, h3) =
      >>=-eq-ok (check_subscription (new_subscription id clock input.preferred_region u p)) _ h2 in
    tables-Moves db (sym (ap (λ x. x.1) (ok-injective _ refl h3))) (tokens_kept, invites_kept)

module _ (c : Crypto) (text_lt : String → String → Bool) (reality : RealityConfig) where
  pub call-Moves : (x : Call) (db : Tables) → Moves db (call c text_lt reality x db)
  unfolding call update renew
  call-Moves (creates now clock id input) db =
      left-kept (Moves db) db (create_subscription now clock id input db)
        (tokens_kept, invites_kept) (λ s db' e. created-Moves now clock id input db s db' e)
  call-Moves (updates now id input) db =
      left-kept (Moves db) db (update now id input db) (tokens_kept, invites_kept)
        (λ s db' e.
          let (current, _, h1) = >>=-eq-ok (find_subscription id db) _ e in
          let f = with_columns_of (with_input input current) in
          tables-Moves db ((update-Changed now id f db s db' h1).tables)
            (tokens_kept, invites_kept))
  call-Moves (renews now id extend_days) db =
      left-kept (Moves db) db (renew now id extend_days db) (tokens_kept, invites_kept)
        (λ s db' e.
          let f = extended now extend_days in
          tables-Moves db ((update-Changed now id f db s db' e).tables) (tokens_kept, invites_kept))
  call-Moves (issues now raw id) db =
      left-kept (Moves db) db _ (tokens_kept, invites_kept)
        (λ s db' e.
          let i = issue-TokenIssued c now raw id db s db' e in
          tables-Moves db (i.tables)
            (token_added now id _ i.row.subscription.expires_at i.fresh, invites_kept))
  call-Moves (revokes now id) db =
      left-kept (Moves db) db _ (tokens_kept, invites_kept)
        (λ s db' e.
          tables-Moves db (revoke-Revoked now id db s db' e) (tokens_revoked now id, invites_kept))
  call-Moves (invites now invite_id raw id) db =
      left-kept (Moves db) db _ (tokens_kept, invites_kept)
        (λ s db' e.
          let i = invite-InviteIssued c now invite_id raw id db s db' e in
          tables-Moves db (i.tables)
            (tokens_kept, invite_added now id _ invite_id i.expires_at i.fresh))
  call-Moves (withdraws now clock id) db =
      left-kept (Moves db) db _ (tokens_kept, invites_kept)
        (λ s db' e.
          tables-Moves db (revoke-Withdrawn now clock id db s db' e)
            (tokens_kept, invites_withdrawn now id))
  call-Moves (claims now clock raw token) db =
      left-kept (Moves db) db _ (tokens_kept, invites_kept)
        (λ s db' e.
          let (i, _) = claim-Claimed c text_lt now clock reality raw token db s db' e in
          let k = i.issued in
          tables-Moves db (k.tables) (
            token_added now i.invite.subscription_id _ k.row.subscription.expires_at k.fresh,
            invite_claimed now i.invite.id,
          ))
