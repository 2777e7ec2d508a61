-- ===== src/Panel/Nodes/Bootstrap/SingleUse.antt =====
-- Register of services/panel-api/internal/storage/nodes.go spends the token.
use lenker_panel.Base.{
  ℕ, ◌≡◌, refl, sym, ap, ◌∙◌, String, Bool, some, List, Time, ok, err, >>=-eq-ok, ok-injective,
  require-eq-ok, require, guard, not, Result, str_eq, eq_refl,
}
use lenker_panel.Crypto.{Crypto}
use lenker_panel.Panel.Nodes.{
  TokenRow, Db, NodesError, invalid_bootstrap_token, bootstrap_token_used, constraint_violated,
  find, update_where, any,
}
use lenker_panel.Panel.Nodes.Bootstrap.{
  RegisterNodeInput, RegisterNodeResult, hash_string, check_token, spent, register,
  is_taken_by_other, new_node_token,
}
use lenker_panel.Panel.Nodes.Tables.{find-update_where}
use lenker_panel.Panel.Nodes.Updates.{update_node-Updated}

module _ (c : Crypto) where
  abbrev has_hash : String → TokenRow → Bool
  has_hash token row = str_eq row.token_hash (hash_string c token)

  -- The token's row after a registration with it.
  pub register-spent :
      (now : Time) (raw : List ℕ) (input : RegisterNodeInput) (db : Db) (r : RegisterNodeResult)
      (db' : Db)
      → register c now raw input db ≡ ok (r, db')
      → (row : TokenRow) × (find (has_hash input.bootstrap_token) db'.tokens ≡ some (spent now row))
  unfolding register
  register-spent now raw input db r db' h =
      let (row, found, h1) =
        >>=-eq-ok
          (require (find (has_hash input.bootstrap_token) db.tokens) invalid_bootstrap_token) _ h in
      let (u, checked, h2) = >>=-eq-ok (check_token c now input.node_id row) _ h1 in
      let (updated, upd, h3) = >>=-eq-ok _ _ h2 in
      let (_, _, h4) = >>=-eq-ok (free row) _ h3 in
      let done = update_node-Updated now _ _ invalid_bootstrap_token db updated.0 updated.1 upd in
      let tokens_eq : db'.tokens ≡ update_where (λ t. str_eq t.id row.id) (spent now) db.tokens =
        sym (ap (λ x. x.1.tokens) (ok-injective _ refl h4))
        ∙ ap (λ d. update_where (λ t. str_eq t.id row.id) (spent now) d.tokens) done.db_eq in
      (
        row,
        ap (find (has_hash input.bootstrap_token)) tokens_eq
            ∙ find-update_where _ (λ t. str_eq t.id row.id) (spent now) db.tokens (λ x. refl)
            ∙ rw (require-eq-ok _ invalid_bootstrap_token row found, eq_refl row.id) refl,
      )
    where
      free : TokenRow → Result NodesError (Unit {0})
      free row =
          guard
            (not
              (any (is_taken_by_other row.node_id (hash_string c (new_node_token raw))) db.nodes))
            (constraint_violated "nodes_auth_token_hash_key")

  -- A bootstrap token registers once: whatever is sent later with the same token is refused as used.
  pub register_once :
      (now : Time) (raw : List ℕ) (input : RegisterNodeInput) (db : Db) (r : RegisterNodeResult)
      (db' : Db)
      → register c now raw input db ≡ ok (r, db')
      → (later : Time) (raw' : List ℕ) (again : RegisterNodeInput)
      → again.bootstrap_token ≡ input.bootstrap_token
      → register c later raw' again db' ≡ err bootstrap_token_used
  unfolding register check_token spent
  register_once now raw input db r db' h later raw' again e =
      let (row, found) = register-spent now raw input db r db' h in rw (e, found) refl
