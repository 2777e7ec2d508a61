-- ===== src/Panel/Nodes/Bootstrap/Joining.antt =====
-- From CreateBootstrapToken to Register of services/panel-api/internal/storage/nodes.go.
use lenker_panel.Base.{
  ℕ, ◌≡◌, refl, String, Bool, true, false, List, Time, All, ok, after, str_eq, eq_refl, not,
  is_empty, Bool-cases, inl, inr, ◌&&◌, All-append, ◌>>=◌, Result, ◌++◌, [], ◌∷◌,
}
use lenker_panel.Crypto.{Crypto}
use lenker_panel.Panel.Nodes.{NodeRow, Db, NodesError, any, check_node, check_updated}
use lenker_panel.Panel.Nodes.Normalize.{scan_node}
use lenker_panel.Panel.Nodes.Lifecycle.{has_id, update_node}
use lenker_panel.Panel.Nodes.Bootstrap.{
  CreateBootstrapTokenInput, hash_string, new_bootstrap_token, new_node_row, new_token_row,
  create_bootstrap_token, check_token, can_register, registered, register, holds_token,
  is_taken_by_other, new_node_token,
}
use lenker_panel.Panel.Nodes.Tables.{find-append, check-kept}

both_fail :
    (p q : NodeRow → Bool) (rows : List NodeRow)
    → any p rows ≡ false
    → any (λ r. p r && q r) rows ≡ false
unfolding any
both_fail p q [] h = refl
both_fail p q (r ∷ rows) h = elim (Bool-cases (p r)) [
  | inl e ↦ let k : true ≡ false = rw e at h in cc
  | inr e ↦ rw e (both_fail p q rows (rw e at h))
]

-- Where no row has the property, nothing is asked of the rows that have it.
vacuous :
    (p : NodeRow → Bool) (Q : NodeRow → Type 0) (rows : List NodeRow)
    → any p rows ≡ false
    → All (λ r. p r ≡ true → Q r) rows
unfolding any
vacuous p Q [] h = tt
vacuous p Q (r ∷ rows) h = elim (Bool-cases (p r)) [
  | inl e ↦ let k : true ≡ false = rw e at h in cc
  | inr e ↦ ((λ t. let k : true ≡ false = rw t at e in cc), vacuous p Q rows (rw e at h))
]

any-absent :
    (p : NodeRow → Bool) (rows : List NodeRow) (row : NodeRow)
    → any p rows ≡ false
    → p row ≡ false
    → any p (rows ++ (row ∷ [])) ≡ false
unfolding any
any-absent p [] row h k = rw k refl
any-absent p (r ∷ rows) row h k = elim (Bool-cases (p r)) [
  | inl e ↦ let t : true ≡ false = rw e at h in cc
  | inr e ↦ rw e (any-absent p rows row (rw e at h) k)
]

-- A hash that no node has is free for a new node.
untaken :
    (id hash : String) (now : Time) (node_id : String) (input : CreateBootstrapTokenInput)
    (rows : List NodeRow)
    → any (holds_token hash) rows ≡ false
    → any (is_taken_by_other id hash) (rows ++ (new_node_row node_id now input ∷ [])) ≡ false
unfolding is_taken_by_other holds_token new_node_row
untaken id hash now node_id input rows h =
    any-absent (is_taken_by_other id hash) rows (new_node_row node_id now input)
      (both_fail (holds_token hash) (λ row. not (has_id id row)) rows h) refl

module _ (c : Crypto) where
  joined :
      (now : Time) (node_id : String) (input : CreateBootstrapTokenInput) (db : Db)
      → any (has_id node_id) db.nodes ≡ false
      → (hostname agent_version hash : String) (later : Time)
      → check_updated
          (can_register c node_id)
          (registered hostname agent_version hash later)
          (db.nodes ++ (new_node_row node_id now input ∷ []))
        ≡ ok tt
  unfolding can_register registered new_node_row check_node
  joined now node_id input db v hostname agent_version hash later =
      check-kept _ _ (db.nodes ++ (new_node_row node_id now input ∷ [])) (
        All-append _ db.nodes _ (vacuous _ _ db.nodes (both_fail (has_id node_id) _ db.nodes v))
          ((λ _. refl), tt))

  -- CreateBootstrapToken, then Register with the token that it returned: the identifier and the
  -- status of the node that registers.
  abbrev pub create_then_register :
      (now : Time) (node_id token_id : String) (raw : List ℕ)
      → CreateBootstrapTokenInput
      → (later : Time) (raw' : List ℕ) (agent_version hostname : String) → Db
      → Result NodesError (String × String)
  create_then_register now node_id token_id raw input later raw' agent_version hostname db = do
    created ← create_bootstrap_token c now node_id token_id raw input db
    done ←
        register c later raw'
          (record {
            node_id = created.0.node_id;
            bootstrap_token = created.0.token;
            agent_version = agent_version;
            hostname = hostname;
          })
          created.1
    ok (done.0.node.id, done.0.node.status)

  -- A new bootstrap token, presented before it expires, registers the node that it was created for,
  -- which is then active, if no node has its identifier, no bootstrap token has its hash, and no node
  -- has the hash of the node token that it gets.
  pub created-registers :
      (now : Time) (node_id token_id : String) (raw : List ℕ) (input : CreateBootstrapTokenInput)
      (db : Db)
      → any (has_id node_id) db.nodes ≡ false
      → any (λ row. str_eq row.token_hash (hash_string c (new_bootstrap_token raw))) db.tokens
        ≡ false
      → (later : Time) (raw' : List ℕ) (agent_version hostname : String)
      → any (holds_token (hash_string c (new_node_token raw'))) db.nodes ≡ false
      → after input.expires_at later ≡ true
      → create_then_register now node_id token_id raw input later raw' agent_version hostname db
        ≡ ok (node_id, "active")
  unfolding create_bootstrap_token register update_node check_token scan_node registered
      new_node_row new_token_row
  created-registers now node_id token_id raw input db v w later raw' agent_version hostname free x =
      rw w (
        rw
          (
            find-append _ db.tokens
                (new_token_row token_id node_id now (hash_string c (new_bootstrap_token raw)) input)
                w (eq_refl _),
            x,
            eq_refl node_id,
          )
          (rw
            (
              find-append (can_register c node_id) db.nodes (new_node_row node_id now input)
                  (both_fail (has_id node_id) _ db.nodes v) (accepts node_id now input),
              joined now node_id input db v hostname agent_version _ later,
            )
            (rw
              (
                nothing_left (not (is_empty node_id)),
                untaken node_id (hash_string c (new_node_token raw')) now node_id input db.nodes
                    free,
              )
              refl)))
    where
      nothing_left : (b : Bool) → (b && not true) ≡ false
      nothing_left true = refl
      nothing_left false = refl

      accepts :
          (node_id : String) (now : Time) (input : CreateBootstrapTokenInput)
          → can_register c node_id (new_node_row node_id now input) ≡ true
      accepts node_id now input = rw (can_register, eq_refl node_id) refl
