-- ===== src/Panel/Subscriptions/OneActive.antt =====
-- One active token and one active invite per subscription, for
-- services/panel-api/internal/storage/subscriptions.go.
use mathlib.Core.Path.{subst}
use lenker_panel.Base.{
  suc, ◌≤◌, ◌≡◌, refl, ◌∙◌, String, Bool, true, false, ◌&&◌, List, [], ◌∷◌, ◌++◌, Time, str_eq,
  eq_iff, Bool-cases, inl, inr, arith,
}
use lenker_panel.Panel.Nodes.{update_where, any}
use lenker_panel.Panel.Subscriptions.{AccessTokenRow, HandoffInviteRow}
use lenker_panel.Panel.Subscriptions.Rows.{
  count, count-append, count-lost, count-closed, count-kept, count-none,
}
use lenker_panel.Panel.Subscriptions.AccessTokens.{
  is_active_of, revoked, revoke_active, new_access_token_row,
}
use lenker_panel.Panel.Subscriptions.Handoff.{
  is_pending_of, withdrawn, withdraw_active, claimed, new_invite_row,
}

abbrev token_has : String → AccessTokenRow → Bool
token_has hash r = str_eq r.token_hash hash

abbrev invite_has : String → HandoffInviteRow → Bool
invite_has hash r = str_eq r.token_hash hash

-- A subscription has at most one active token, and a hash one row.
pub record IsTokenTable (rows : List AccessTokenRow) : Type 0 where
  pub one_active : (id : String) → count (is_active_of id) rows ≤ 1
  pub one_hash : (hash : String) → count (token_has hash) rows ≤ 1

pub record IsInviteTable (rows : List HandoffInviteRow) : Type 0 where
  pub one_active : (id : String) → count (is_pending_of id) rows ≤ 1
  pub one_hash : (hash : String) → count (invite_has hash) rows ≤ 1

false-right : (b : Bool) → (b && false) ≡ false
false-right true = refl
false-right false = refl

module _ {ℓ} {A : Type ℓ} where
  -- one more row, where there was none or it has not the property
  at_most_one :
      (p : A → Bool) (xs : List A) (x : A)
      → count p xs ≤ 1
      → (p x ≡ true → count p xs ≡ 0)
      → count p (xs ++ (x ∷ [])) ≤ 1
  at_most_one p xs x h k = elim (Bool-cases (p x)) [
    | inl e ↦
        let more : count p (xs ++ (x ∷ [])) ≡ suc (count p xs) = count-append p xs x ∙ rw e refl in
        omega (arith, more, k e)
    | inr e ↦
        let same : count p (xs ++ (x ∷ [])) ≡ count p xs = count-append p xs x ∙ rw e refl in
        omega (arith, same, h)
  ]

both : (a b : Bool) → (a && b) ≡ true → a ≡ true
both true b h = refl
both false b h = cc

module _ (now : Time) (id : String) where
  revoked-not : (other : String) (r : AccessTokenRow) → is_active_of other (revoked now r) ≡ false
  unfolding is_active_of revoked
  revoked-not other r = false-right (str_eq r.subscription_id other)

  pub revoke-IsTokenTable :
      (rows : List AccessTokenRow) → IsTokenTable rows → IsTokenTable (revoke_active now id rows)
  unfolding revoke_active revoked
  revoke-IsTokenTable rows h = record {
    one_active = λ other. omega (
      arith,
      count-lost (is_active_of other) (is_active_of id) (revoked now) rows (revoked-not other),
      h.one_active other,
    );
    one_hash = λ hash. omega (
      arith,
      count-kept (token_has hash) (is_active_of id) (revoked now) rows (λ r. refl),
      h.one_hash hash,
    );
  }

  pub issued-IsTokenTable :
      (hash : String) (expires_at : Time) (rows : List AccessTokenRow)
      → IsTokenTable rows
      → any (token_has hash) (revoke_active now id rows) ≡ false
      → IsTokenTable
          (revoke_active now id rows ++ (new_access_token_row now id hash expires_at ∷ []))
  unfolding revoke_active new_access_token_row is_active_of
  issued-IsTokenTable hash expires_at rows h fresh =
      let kept = revoke-IsTokenTable rows h in
      let row = new_access_token_row now id hash expires_at in
      record {
        one_active = λ other.
            at_most_one (is_active_of other) (revoke_active now id rows) row (kept.one_active other)
              (λ e.
                subst (λ x. count (is_active_of x) (revoke_active now id rows) ≡ 0)
                  ((eq_iff id other).0 (both (str_eq id other) true e))
                  (count-closed (is_active_of id) (revoked now) rows (revoked-not id)));
        one_hash = λ other.
            at_most_one (token_has other) (revoke_active now id rows) row (kept.one_hash other)
              (λ e.
                subst (λ x. count (token_has x) (revoke_active now id rows) ≡ 0)
                  ((eq_iff hash other).0 e) (count-none _ _ fresh));
      }

  withdrawn-not :
      (other : String) (r : HandoffInviteRow) → is_pending_of other (withdrawn now r) ≡ false
  unfolding is_pending_of withdrawn
  withdrawn-not other r = false-right (str_eq r.subscription_id other)

  pub withdraw-IsInviteTable :
      (rows : List HandoffInviteRow)
      → IsInviteTable rows
      → IsInviteTable (withdraw_active now id rows)
  unfolding withdraw_active withdrawn
  withdraw-IsInviteTable rows h = record {
    one_active = λ other. omega (
      arith,
      count-lost (is_pending_of other) (is_pending_of id) (withdrawn now) rows
          (withdrawn-not other),
      h.one_active other,
    );
    one_hash = λ hash. omega (
      arith,
      count-kept (invite_has hash) (is_pending_of id) (withdrawn now) rows (λ r. refl),
      h.one_hash hash,
    );
  }

  pub issued-IsInviteTable :
      (invite_id hash : String) (expires_at : Time) (rows : List HandoffInviteRow)
      → IsInviteTable rows
      → any (invite_has hash) (withdraw_active now id rows) ≡ false
      → IsInviteTable
          (withdraw_active now id rows ++ (new_invite_row invite_id now id hash expires_at ∷ []))
  unfolding withdraw_active new_invite_row is_pending_of
  issued-IsInviteTable invite_id hash expires_at rows h fresh =
      let kept = withdraw-IsInviteTable rows h in
      let row = new_invite_row invite_id now id hash expires_at in
      record {
        one_active = λ other.
            at_most_one (is_pending_of other) (withdraw_active now id rows) row
              (kept.one_active other)
              (λ e.
                subst (λ x. count (is_pending_of x) (withdraw_active now id rows) ≡ 0)
                  ((eq_iff id other).0 (both (str_eq id other) true e))
                  (count-closed (is_pending_of id) (withdrawn now) rows (withdrawn-not id)));
        one_hash = λ other.
            at_most_one (invite_has other) (withdraw_active now id rows) row (kept.one_hash other)
              (λ e.
                subst (λ x. count (invite_has x) (withdraw_active now id rows) ≡ 0)
                  ((eq_iff hash other).0 e) (count-none _ _ fresh));
      }

pub claimed-IsInviteTable :
    (now : Time) (q : HandoffInviteRow → Bool) (rows : List HandoffInviteRow)
    → IsInviteTable rows
    → IsInviteTable (update_where q (claimed now) rows)
unfolding claimed is_pending_of
claimed-IsInviteTable now q rows h = record {
  one_active = λ other. omega (
    arith,
    count-lost (is_pending_of other) q (claimed now) rows
        (λ r. false-right (str_eq r.subscription_id other)),
    h.one_active other,
  );
  one_hash = λ hash.
      omega (arith, count-kept (invite_has hash) q (claimed now) rows (λ r. refl), h.one_hash hash);
}
