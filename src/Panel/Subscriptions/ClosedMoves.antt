-- ===== src/Panel/Subscriptions/ClosedMoves.antt =====
-- Tokens and invites that are not active stay so, whatever a call does to their rows.
use lenker_panel.Base.{
  ◌≡◌, refl, String, Bool, true, false, ◌&&◌, List, Time, str_eq, eq_refl, some, after,
}
use lenker_panel.Panel.Nodes.{find, update_where}
use lenker_panel.Panel.Nodes.Tables.{find-true}
use lenker_panel.Panel.Subscriptions.{AccessTokenRow, HandoffInviteRow, Tables}
use lenker_panel.Panel.Subscriptions.AccessTokens.{
  is_active_of, revoked, revoke_active, new_access_token_row, opens,
}
use lenker_panel.Panel.Subscriptions.Handoff.{
  is_pending_of, withdrawn, withdraw_active, claimed, new_invite_row, is_claimable,
}
use lenker_panel.Panel.Subscriptions.Moves.{
  TokenMove, tokens_kept, tokens_revoked, token_added, InviteMove, invites_kept, invites_withdrawn,
  invite_added, invite_claimed,
}
use lenker_panel.Panel.Subscriptions.OneActive.{IsTokenTable, IsInviteTable}
use lenker_panel.Panel.Subscriptions.Closed.{
  IsClosed, IsClosed-updated, IsClosed-append, IsClosed-found, other_hash,
}

pub all_true : (a b d : Bool) → (a && b && d) ≡ true → (a ≡ true) × (b ≡ true)
all_true true true d h = (refl, refl)
all_true true false d h = cc
all_true false b d h = cc

-- tokens with this hash were issued, and none is active
abbrev pub IsClosedToken : String → Tables → Type 0
IsClosedToken hash db =
    IsClosed (λ r. str_eq r.token_hash hash) (λ r. str_eq r.status "active") db.access_tokens

abbrev pub IsClosedInvite : String → Tables → Type 0
IsClosedInvite hash db =
    IsClosed (λ r. str_eq r.token_hash hash) (λ r. str_eq r.status "active") db.handoff_invites

module _ (hash : String) where
  abbrev pub has_token : AccessTokenRow → Bool
  has_token r = str_eq r.token_hash hash

  abbrev pub live_token : AccessTokenRow → Bool
  live_token r = str_eq r.status "active"

  abbrev pub has_invite : HandoffInviteRow → Bool
  has_invite r = str_eq r.token_hash hash

  abbrev pub live_invite : HandoffInviteRow → Bool
  live_invite r = str_eq r.status "active"

  revoke-IsClosed :
      (now : Time) (id : String) (rows : List AccessTokenRow)
      → IsClosed has_token live_token rows
      → IsClosed has_token live_token (revoke_active now id rows)
  unfolding revoke_active revoked
  revoke-IsClosed now id rows h =
      IsClosed-updated has_token live_token (is_active_of id) (revoked now) rows (λ r. refl)
        (λ r. refl) h

  pub TokenMove-IsClosed :
      {rows rows' : List AccessTokenRow}
      → TokenMove rows rows'
      → IsClosed has_token live_token rows
      → IsClosed has_token live_token rows'
  unfolding new_access_token_row
  TokenMove-IsClosed tokens_kept h = h
  TokenMove-IsClosed {rows} (tokens_revoked now id) h = revoke-IsClosed now id rows h
  TokenMove-IsClosed {rows} (token_added now id new expires_at fresh) h =
      let k = revoke-IsClosed now id rows h in
      IsClosed-append has_token live_token (revoke_active now id rows)
        (new_access_token_row now id new expires_at) k
        (other_hash has_token live_token (λ r. r.token_hash) new hash (revoke_active now id rows)
          fresh k.0)

  withdraw-IsClosed :
      (now : Time) (id : String) (rows : List HandoffInviteRow)
      → IsClosed has_invite live_invite rows
      → IsClosed has_invite live_invite (withdraw_active now id rows)
  unfolding withdraw_active withdrawn
  withdraw-IsClosed now id rows h =
      IsClosed-updated has_invite live_invite (is_pending_of id) (withdrawn now) rows (λ r. refl)
        (λ r. refl) h

  pub InviteMove-IsClosed :
      {rows rows' : List HandoffInviteRow}
      → InviteMove rows rows'
      → IsClosed has_invite live_invite rows
      → IsClosed has_invite live_invite rows'
  unfolding new_invite_row claimed
  InviteMove-IsClosed invites_kept h = h
  InviteMove-IsClosed {rows} (invites_withdrawn now id) h = withdraw-IsClosed now id rows h
  InviteMove-IsClosed {rows} (invite_added now id new invite_id expires_at fresh) h =
      let k = withdraw-IsClosed now id rows h in
      IsClosed-append has_invite live_invite (withdraw_active now id rows)
        (new_invite_row invite_id now id new expires_at) k
        (other_hash has_invite live_invite (λ r. r.token_hash) new hash
          (withdraw_active now id rows) fresh k.0)
  InviteMove-IsClosed {rows} (invite_claimed now id) h =
      IsClosed-updated has_invite live_invite (λ r. str_eq r.id id) (claimed now) rows (λ r. refl)
        (λ r. refl) h

  -- the active tokens of the subscription that a token with this hash opens are revoked
  pub opened-IsClosed :
      (before now : Time) (id : String) (rows : List AccessTokenRow) (t : AccessTokenRow)
      → IsTokenTable rows
      → find (opens before hash) rows ≡ some t
      → t.subscription_id ≡ id
      → IsClosed has_token live_token (revoke_active now id rows)
  unfolding revoke_active revoked is_active_of opens
  opened-IsClosed before now id rows t one found e =
      let (_, live) =
        all_true (str_eq t.token_hash hash) (str_eq t.status "active") (after t.expires_at before)
          (find-true (opens before hash) rows t found) in
      IsClosed-found has_token live_token (opens before hash) (is_active_of id) (revoked now) rows t
        (λ r k. (all_true _ _ _ k).0) (λ r. refl) (λ r. refl) (one.one_hash hash) found
        (rw (e, eq_refl id, live) refl)

  pub claimable-IsClosed :
      (now : Time) (rows : List HandoffInviteRow) (t : HandoffInviteRow)
      → IsInviteTable rows
      → find (is_claimable now hash) rows ≡ some t
      → IsClosed has_invite live_invite (update_where (λ r. str_eq r.id t.id) (claimed now) rows)
  unfolding claimed is_claimable
  claimable-IsClosed now rows t one found =
      IsClosed-found has_invite live_invite (is_claimable now hash) (λ r. str_eq r.id t.id)
        (claimed now) rows t (λ r k. (all_true _ _ _ k).0) (λ r. refl) (λ r. refl)
        (one.one_hash hash) found (eq_refl t.id)
