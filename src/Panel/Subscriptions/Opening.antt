-- ===== src/Panel/Subscriptions/Opening.antt =====
-- What a new access token of services/panel-api/internal/storage/subscriptions.go opens, and until when.
use mathlib.Core.Path.{subst}
use mathlib.Core.Option.{some-injective}
use lenker_panel.Base.{
  ℕ, ◌≡◌, refl, sym, ap, ◌∙◌, String, Bool, true, false, ◌&&◌, List, [], ◌∷◌, ◌++◌, ℤ, Time, ok,
  err, str_eq, eq_refl, some, none, is_empty, trim_space, require, require-eq-ok, if◌then◌else◌,
  >>=-eq-ok, ok-injective, after, Bool-cases, inl, inr,
}
use lenker_panel.Crypto.{Crypto}
use lenker_panel.Crypto.Hex.{trim-token}
use lenker_panel.Panel.Nodes.{find, any}
use lenker_panel.Panel.Nodes.Bootstrap.{hash_string}
use lenker_panel.Panel.Nodes.Tables.{find-append}
use lenker_panel.Panel.Render.{RealityConfig}
use lenker_panel.Panel.Subscriptions.{
  Subscription, StoredSubscription, Account, AccessTokenRow, HandoffInviteRow, Tables, is_named,
  not_found, invalid_access_token,
}
use lenker_panel.Panel.Subscriptions.Lifecycle.{
  renew, update_subscription, extended, check_changed, add_days,
}
use lenker_panel.Panel.Subscriptions.Access.{SubscriptionAccess, access}
use lenker_panel.Panel.Subscriptions.Access.Explained.{
  Served, Explains, access-Explains, Served-access, is_current,
}
use lenker_panel.Panel.Subscriptions.AccessTokens.{
  SubscriptionAccessToken, revoke_active, new_access_token_row, opens, subscription_id_by_token,
  access_by_token, replace_access_token, replace_access_token_in_tx, new_subscription_access_token,
  ensure_subscription_eligible_for_access_token,
}
use lenker_panel.Panel.Subscriptions.Handoff.{SubscriptionHandoffClaim, claim_handoff_invite}
use lenker_panel.Panel.Subscriptions.ClosedMoves.{all_true}
use lenker_panel.Panel.Subscriptions.Effects.{
  TokenIssued, issue-TokenIssued, claim-Claimed, replace-expires, with_claimed,
}

module _ {ℓ} {A : Type ℓ} where
  any-weaker :
      (p q : A → Bool) (xs : List A)
      → ((x : A) → q x ≡ true → p x ≡ true)
      → any p xs ≡ false
      → any q xs ≡ false
  unfolding any
  any-weaker p q [] w h = refl
  any-weaker p q (x ∷ xs) w h = elim (Bool-cases (p x)) [
    | inl e ↦ let k : true ≡ false = rw e at h in cc
    | inr e ↦ elim (Bool-cases (q x)) [
      | inl k ↦ let z : true ≡ false = sym (w x k) ∙ e in cc
      | inr k ↦ rw k (any-weaker p q xs w (rw e at h))
    ]
  ]

  find-absent :
      (p : A → Bool) (xs : List A) (x : A)
      → any p xs ≡ false
      → p x ≡ false
      → find p (xs ++ (x ∷ [])) ≡ none
  unfolding find any
  find-absent p [] x h k = rw k refl
  find-absent p (y ∷ ys) x h k = elim (Bool-cases (p y)) [
    | inl e ↦ let z : true ≡ false = rw e at h in cc
    | inr e ↦ rw e (find-absent p ys x (rw e at h) k)
  ]

-- the end of a renewal of this many days, of a subscription with this end
abbrev pub renewed_until : Time → ℤ → Time → Time
renewed_until now extend_days expires_at =
    add_days (if after expires_at now then expires_at else now) extend_days

module _ (c : Crypto) where
  token-trimmed :
      (raw : List ℕ)
      → trim_space (new_subscription_access_token raw) ≡ new_subscription_access_token raw
  unfolding new_subscription_access_token
  token-trimmed raw = trim-token raw

  token-visible : (raw : List ℕ) → is_empty (new_subscription_access_token raw) ≡ false
  unfolding new_subscription_access_token
  token-visible raw = refl

  -- an issued token is found until it expires
  issued-opens :
      (now : Time) (raw : List ℕ) (id : String) (db db' : Tables)
      (i : TokenIssued now id (hash_string c (new_subscription_access_token raw)) db db')
      (later : Time)
      → after i.row.subscription.expires_at later ≡ true
      → subscription_id_by_token c later (new_subscription_access_token raw) db' ≡ ok id
  unfolding subscription_id_by_token opens new_access_token_row
  issued-opens now raw id db db' i later e =
      let token = new_subscription_access_token raw in
      let hash = hash_string c token in
      let row = new_access_token_row now id hash i.row.subscription.expires_at in
      let rows = revoke_active now id db.access_tokens in
      let found : find (opens later hash) db'.access_tokens ≡ some row =
        ap (λ d. find (opens later hash) d.access_tokens) i.tables
        ∙ find-append (opens later hash) rows row
            (any-weaker (λ r. str_eq r.token_hash hash) (opens later hash) rows
              (λ r k.
                (all_true (str_eq r.token_hash hash) (str_eq r.status "active")
                  (after r.expires_at later) k).0)
              i.fresh)
            (rw (eq_refl hash, e) refl) in
      rw (token-trimmed raw, token-visible raw, found) refl

  -- what the answer of issuing says of the token
  issued_answer :
      (now : Time) (raw : List ℕ) (id : String) (db : Tables) (r : SubscriptionAccessToken)
      (db' : Tables)
      → replace_access_token c now raw id db ≡ ok (r, db')
      → (i : TokenIssued now id (hash_string c (new_subscription_access_token raw)) db db')
      → (r.token ≡ new_subscription_access_token raw)
        × (r.expires_at ≡ i.row.subscription.expires_at)
  unfolding replace_access_token
  issued_answer now raw id db r db' h i =
      let (_, _, h1) = >>=-eq-ok (ensure_subscription_eligible_for_access_token now id db) _ h in
      let (x, done, h2) =
        >>=-eq-ok (replace_access_token_in_tx c now id (new_subscription_access_token raw) db) _
          h1 in
      let answer = ok-injective _ refl h2 in
      (
        sym (ap (λ y. y.0.token) answer),
        sym (ap (λ y. y.0.expires_at) answer)
            ∙ replace-expires c now id (new_subscription_access_token raw) db x.0 x.1 i.row done
                i.subscription_found,
      )

  -- A token that has been issued or rotated opens its subscription until it expires.
  pub issued_token_opens :
      (now : Time) (raw : List ℕ) (id : String) (db : Tables) (r : SubscriptionAccessToken)
      (db' : Tables)
      → replace_access_token c now raw id db ≡ ok (r, db')
      → (later : Time) → after r.expires_at later ≡ true
      → subscription_id_by_token c later r.token db' ≡ ok id
  issued_token_opens now raw id db r db' h later e =
      let i = issue-TokenIssued c now raw id db r db' h in
      let (token, expires) = issued_answer now raw id db r db' h i in
      ap (λ t. subscription_id_by_token c later t db') token
      ∙ issued-opens now raw id db db' i later (ap (λ t. after t later) (sym expires) ∙ e)

  module _ (text_lt : String → String → Bool) (reality : RealityConfig) where
    still_current :
        (clock later : Time) (s : Subscription) (u : Account)
        → is_current clock s u ≡ true
        → after s.expires_at later ≡ true
        → is_current later s u ≡ true
    still_current clock later s u h e = last (str_eq s.status "active") (str_eq u.status "active") h
      where
        last :
            (a b : Bool)
            → (a && b && after s.expires_at clock) ≡ true
            → (a && b && after s.expires_at later) ≡ true
        last true true k = e
        last true false k = k
        last false b k = k

    later-access :
        (clock later : Time) (id : String) (db : Tables) (a : SubscriptionAccess)
        (tokens : List AccessTokenRow) (handoffs : List HandoffInviteRow)
        (h : Served text_lt clock reality id db a)
        → after h.row.subscription.expires_at later ≡ true
        → access text_lt later reality id
            (record db { access_tokens = tokens; handoff_invites = handoffs })
          ≡ ok a
    later-access clock later id db a tokens handoffs h e =
        Served-access text_lt later reality id
          (record db { access_tokens = tokens; handoff_invites = handoffs }) a
          (record {
            row = h.row;
            user = h.user;
            plan = h.plan;
            node = h.node;
            subscription_found = h.subscription_found;
            user_found = h.user_found;
            plan_found = h.plan_found;
            current = still_current clock later h.row.subscription h.user h.current e;
            chosen = h.chosen;
            offered = h.offered;
            listed = h.listed;
            shown = h.shown;
          })

    explained :
        (clock : Time) (id : String) (db : Tables) (a : SubscriptionAccess)
        → access text_lt clock reality id db ≡ ok a
        → Served text_lt clock reality id db a
    explained clock id db a h =
        subst (Explains text_lt clock reality id db) h (access-Explains text_lt clock reality id db)

    -- The access token that a claim of a handoff invite returns gives the access that the claim shows,
    -- until it expires.
    pub claimed_token_opens :
        (now clock : Time) (raw : List ℕ) (token : String) (db : Tables)
        (r : SubscriptionHandoffClaim) (db' : Tables)
        → claim_handoff_invite c text_lt now clock reality raw token db ≡ ok (r, db')
        → (later later_clock : Time) → after r.access_token_expires_at later ≡ true
        → after r.access_token_expires_at later_clock ≡ true
        → access_by_token c text_lt later later_clock reality r.access_token db' ≡ ok r.access
    unfolding access_by_token
    claimed_token_opens now clock raw token db r db' h later later_clock e f =
        let (i, shown) = claim-Claimed c text_lt now clock reality raw token db r db' h in
        let id = i.invite.subscription_id in
        let k = i.issued in
        let (x, done, x_expires) = i.answered in
        let expires : r.access_token_expires_at ≡ k.row.subscription.expires_at =
          x_expires
          ∙ replace-expires c now id (new_subscription_access_token raw)
              (with_claimed c now i.invite db) x db' k.row done k.subscription_found in
        let served =
          explained clock id db r.access
            (ap (λ s. access text_lt clock reality s db) (sym i.own) ∙ shown) in
        let same : served.row ≡ k.row =
          some-injective _ _ (sym served.subscription_found ∙ k.subscription_found) in
        let unexpired : after served.row.subscription.expires_at later_clock ≡ true =
          ap (λ y. after y.subscription.expires_at later_clock) same
          ∙ ap (λ t. after t later_clock) (sym expires)
          ∙ f in
        let opened =
          issued-opens now raw id (with_claimed c now i.invite db) db' k later
            (ap (λ t. after t later) (sym expires) ∙ e) in
        let t =
          new_access_token_row now id (hash_string c (new_subscription_access_token raw))
            k.row.subscription.expires_at in
        let seen : access text_lt later_clock reality id db' ≡ ok r.access =
          subst (λ d. access text_lt later_clock reality id d ≡ ok r.access) (sym k.tables)
            (later-access clock later_clock id db r.access
              (revoke_active now id db.access_tokens ++ (t ∷ []))
              ((with_claimed c now i.invite db).handoff_invites) served unexpired) in
        rw (i.token_eq, opened) seen

  renewed_status :
      (now : Time) (id : String) (extend_days : ℤ) (db : Tables) (s : Subscription) (db' : Tables)
      → renew now id extend_days db ≡ ok (s, db')
      → (row : StoredSubscription) × (find (is_named id) db.subscriptions ≡ some row)
        × (s.status ≡ "active")
        × (s.expires_at ≡ renewed_until now extend_days row.subscription.expires_at)
        × (db'.access_tokens ≡ db.access_tokens)
  unfolding renew update_subscription extended
  renewed_status now id extend_days db s db' h =
      let (row, found, h1) =
        >>=-eq-ok (require (find (is_named id) db.subscriptions) not_found) _ h in
      let (_, _, h2) =
        >>=-eq-ok (check_changed id (extended now extend_days) db.subscriptions) _ h1 in
      let e = ok-injective _ refl h2 in
      (
        row,
        require-eq-ok _ not_found row found,
        sym (ap (λ x. x.0.status) e),
        sym (ap (λ x. x.0.expires_at) e),
        sym (ap (λ x. x.1.access_tokens) e),
      )

  expired_refused :
      (now : Time) (raw : List ℕ) (id : String) (db db' : Tables)
      (i : TokenIssued now id (hash_string c (new_subscription_access_token raw)) db db')
      (later : Time)
      → after i.row.subscription.expires_at later ≡ false
      → find (opens later (hash_string c (new_subscription_access_token raw))) db'.access_tokens
        ≡ none
  unfolding opens new_access_token_row
  expired_refused now raw id db db' i later e =
      let hash = hash_string c (new_subscription_access_token raw) in
      let row = new_access_token_row now id hash i.row.subscription.expires_at in
      let rows = revoke_active now id db.access_tokens in
      ap (λ d. find (opens later hash) d.access_tokens) i.tables
      ∙ find-absent (opens later hash) rows row
          (any-weaker (λ r. str_eq r.token_hash hash) (opens later hash) rows
            (λ r k.
              (all_true (str_eq r.token_hash hash) (str_eq r.status "active")
                (after r.expires_at later) k).0)
            i.fresh)
          (rw (eq_refl hash, e) refl)

  -- A token that was issued before a renewal of its subscription is refused from the time at which it
  -- was to expire, although the renewed subscription is active and runs for the days of the renewal
  -- from that time, or from the renewal where that is later.
  pub renewal_leaves_token :
      (now : Time) (raw : List ℕ) (id : String) (db : Tables) (r : SubscriptionAccessToken)
      (db' : Tables)
      → replace_access_token c now raw id db ≡ ok (r, db')
      → (renewed : Time) (extend_days : ℤ) (s : Subscription) (db'' : Tables)
      → renew renewed id extend_days db' ≡ ok (s, db'')
      → (later : Time) → after r.expires_at later ≡ false
      → (s.status ≡ "active")
        × (s.expires_at ≡ renewed_until renewed extend_days r.expires_at)
        × (subscription_id_by_token c later r.token db'' ≡ err invalid_access_token)
  unfolding subscription_id_by_token
  renewal_leaves_token now raw id db r db' h renewed extend_days s db'' g later e =
      let i = issue-TokenIssued c now raw id db r db' h in
      let (token, expires) = issued_answer now raw id db r db' h i in
      let (row, found, status, until, same) = renewed_status renewed id extend_days db' s db'' g in
      let absent =
        expired_refused now raw id db db' i later (ap (λ t. after t later) (sym expires) ∙ e) in
      let row_eq : row ≡ i.row = some-injective _ _ (
        sym found ∙ ap (λ d. find (is_named id) d.subscriptions) i.tables ∙ i.subscription_found) in
      let end : s.expires_at ≡ renewed_until renewed extend_days r.expires_at =
        until
        ∙ ap (λ x. renewed_until renewed extend_days x.subscription.expires_at) row_eq
        ∙ ap (renewed_until renewed extend_days) (sym expires) in
      (status, end, rw (token, token-trimmed raw, token-visible raw, same, absent) refl)
