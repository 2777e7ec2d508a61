-- ===== src/Panel/Subscriptions/Consistent.antt =====
-- What all the calls of services/panel-api/internal/storage/subscriptions.go keep to.
use mathlib.Core.Path.{subst}
use lenker_panel.Base.{
  ◌≡◌, refl, sym, ap, String, Bool, ◌&&◌, List, [], ◌∷◌, Time, All, All-append, ok, str_eq,
  Bool-cases, inl, inr, >>=-eq-ok, ok-injective, require,
}
use lenker_panel.Crypto.{Crypto}
use lenker_panel.Panel.Nodes.{find, update_where}
use lenker_panel.Panel.Render.{RealityConfig}
use lenker_panel.Panel.Subscriptions.{
  Subscription, StoredSubscription, Tables, is_named, not_found, check_subscription,
}
use lenker_panel.Panel.Subscriptions.Lifecycle.{
  CreateSubscriptionInput, new_subscription, create_subscription, update, renew, check_changed,
  with_subscription, with_columns_of, with_input, extended, find_subscription,
}
use lenker_panel.Panel.Subscriptions.Effects.{
  TokenIssued, with_claimed, Changed, issue-TokenIssued, invite-InviteIssued, claim-Claimed,
  revoke-Revoked, revoke-Withdrawn, update-Changed,
}
use lenker_panel.Panel.Subscriptions.Calls.{
  Call, creates, updates, renews, issues, revokes, invites, withdraws, claims, left-kept, call,
  calls, calls-kept,
}
use lenker_panel.Panel.Subscriptions.OneActive.{
  IsTokenTable, IsInviteTable, revoke-IsTokenTable, issued-IsTokenTable, withdraw-IsInviteTable,
  issued-IsInviteTable, claimed-IsInviteTable,
}

pub record IsConsistent (db : Tables) : Type 0 where
  pub tokens : IsTokenTable db.access_tokens
  pub invites : IsInviteTable db.handoff_invites
  pub subscriptions : All (λ r. check_subscription r.subscription ≡ ok tt) db.subscriptions

changed-checked :
    (now : Time) (id : String) (f : Subscription → Subscription) (rows : List StoredSubscription)
    → All (λ r. check_subscription r.subscription ≡ ok tt) rows
    → check_changed id f rows ≡ ok tt
    → All
        (λ r. check_subscription r.subscription ≡ ok tt)
        (update_where (is_named id) (with_subscription now f) rows)
unfolding check_changed update_where
changed-checked now id f [] h k = tt
changed-checked now id f (r ∷ rs) h k = elim (Bool-cases (is_named id r)) [
  | inl e ↦
      let (u, checked, rest) = >>=-eq-ok (check_subscription (f r.subscription)) _ (rw e at k) in
      rw e (checked, changed-checked now id f rs h.1 rest)
  | inr e ↦ rw e (h.0, changed-checked now id f rs h.1 (rw e at k))
]

module _ (c : Crypto) (text_lt : String → String → Bool) (reality : RealityConfig) where
  TokenIssued-IsConsistent :
      (now : Time) (id hash : String) (db db' : Tables)
      → TokenIssued now id hash db db'
      → IsConsistent db
      → IsConsistent db'
  TokenIssued-IsConsistent now id hash db db' i h = subst IsConsistent (sym i.tables) (record {
    tokens =
        issued-IsTokenTable now id hash i.row.subscription.expires_at db.access_tokens h.tokens
          i.fresh;
    invites = h.invites;
    subscriptions = h.subscriptions;
  })

  Changed-IsConsistent :
      (now : Time) (id : String) (f : Subscription → Subscription) (db db' : Tables)
      → Changed now id f db db'
      → IsConsistent db
      → IsConsistent db'
  Changed-IsConsistent now id f db db' i h = subst IsConsistent (sym i.tables) (record {
    tokens = h.tokens;
    invites = h.invites;
    subscriptions = changed-checked now id f db.subscriptions h.subscriptions i.checked;
  })

  created-IsConsistent :
      (now clock : Time) (id : String) (input : CreateSubscriptionInput) (db : Tables)
      (s : Subscription) (db' : Tables)
      → create_subscription now clock id input db ≡ ok (s, db')
      → IsConsistent db
      → IsConsistent db'
  unfolding create_subscription
  created-IsConsistent now clock id input db s db' e h =
      let (u, _, h1) =
        >>=-eq-ok (require (find (λ u. str_eq u.id input.user_id) db.users) not_found) _ e in
      let (p, _, h2) =
        >>=-eq-ok
          (require (find (λ p. str_eq p.id input.plan_id && str_eq p.status "active") db.plans)
            not_found)
          _ h1 in
      let (_, checked, h3) =
        >>=-eq-ok (check_subscription (new_subscription id clock input.preferred_region u p)) _
          h2 in
      subst IsConsistent (ap (λ x. x.1) (ok-injective _ refl h3)) (record {
        tokens = h.tokens;
        invites = h.invites;
        subscriptions = All-append _ db.subscriptions _ h.subscriptions (checked, tt);
      })

  call-IsConsistent :
      (x : Call) (db : Tables) → IsConsistent db → IsConsistent (call c text_lt reality x db)
  unfolding call update renew
  call-IsConsistent (creates now clock id input) db h =
      left-kept IsConsistent db (create_subscription now clock id input db) h
        (λ s db' e. created-IsConsistent now clock id input db s db' e h)
  call-IsConsistent (updates now id input) db h =
      left-kept IsConsistent db (update now id input db) h (λ s db' e.
        let (current, _, h1) = >>=-eq-ok (find_subscription id db) _ e in
        let f = with_columns_of (with_input input current) in
        Changed-IsConsistent now id f db db' (update-Changed now id f db s db' h1) h)
  call-IsConsistent (renews now id extend_days) db h =
      left-kept IsConsistent db (renew now id extend_days db) h (λ s db' e.
        let f = extended now extend_days in
        Changed-IsConsistent now id f db db' (update-Changed now id f db s db' e) h)
  call-IsConsistent (issues now raw id) db h = left-kept IsConsistent db _ h (λ s db' e.
      TokenIssued-IsConsistent now id _ db db' (issue-TokenIssued c now raw id db s db' e) h)
  call-IsConsistent (revokes now id) db h = left-kept IsConsistent db _ h (λ s db' e.
      subst IsConsistent (sym (revoke-Revoked now id db s db' e)) (record {
        tokens = revoke-IsTokenTable now id db.access_tokens h.tokens;
        invites = h.invites;
        subscriptions = h.subscriptions;
      }))
  call-IsConsistent (invites now invite_id raw id) db h = left-kept IsConsistent db _ h (λ s db' e.
      let i = invite-InviteIssued c now invite_id raw id db s db' e in
      subst IsConsistent (sym i.tables) (record {
        tokens = h.tokens;
        invites =
            issued-IsInviteTable now id invite_id _ i.expires_at db.handoff_invites h.invites
              i.fresh;
        subscriptions = h.subscriptions;
      }))
  call-IsConsistent (withdraws now clock id) db h = left-kept IsConsistent db _ h (λ s db' e.
      subst IsConsistent (sym (revoke-Withdrawn now clock id db s db' e)) (record {
        tokens = h.tokens;
        invites = withdraw-IsInviteTable now id db.handoff_invites h.invites;
        subscriptions = h.subscriptions;
      }))
  call-IsConsistent (claims now clock raw token) db h = left-kept IsConsistent db _ h (λ s db' e.
      let (i, _) = claim-Claimed c text_lt now clock reality raw token db s db' e in
      TokenIssued-IsConsistent now _ _ (with_claimed c now i.invite db) db' i.issued (record {
        tokens = h.tokens;
        invites = claimed-IsInviteTable now _ db.handoff_invites h.invites;
        subscriptions = h.subscriptions;
      }))

  -- Whatever calls follow one another, at whatever times: a subscription has at most one active access
  -- token and at most one active invite, no two tokens and no two invites have the same hash, and the
  -- subscriptions meet their constraints, if so at the beginning.
  pub calls-IsConsistent :
      (xs : List Call) (db : Tables)
      → IsConsistent db
      → IsConsistent (calls c text_lt reality xs db)
  calls-IsConsistent xs db h = calls-kept c text_lt reality IsConsistent xs db call-IsConsistent h
