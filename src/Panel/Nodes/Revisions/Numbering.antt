-- ===== src/Panel/Nodes/Revisions/Numbering.antt =====
-- The numbers of the revisions that services/panel-api/internal/storage/nodes.go creates.
use lenker_panel.Base.{
  ℕ, suc, ◌≤◌, ◌≡◌, refl, String, true, false, ◌&&◌, List, [], ◌∷◌, ok, All, ◌==◌, str_eq, is_neg,
  arith, lt→ltb, Bool-cases, inl, inr,
}
use lenker_panel.Panel.Nodes.{RevisionRow, Db, any}
use lenker_panel.Panel.Nodes.Revisions.{max_revision, next_revision, check_revision, or_zero}

-- The rows of a node have numbers of at most `n`.
abbrev pub NumberedUpTo : String → ℕ → List RevisionRow → Type 0
NumberedUpTo node_id n rows =
    All (λ r. str_eq r.node_id node_id ≡ true → r.revision_number ≤ n) rows

max_revision_grows :
    (node_id : String) (row : RevisionRow) (r : List RevisionRow)
    → max_revision node_id r ≤ max_revision node_id (row ∷ r)
unfolding max_revision
max_revision_grows node_id row r = ground arith

max_revision_holds :
    (node_id : String) (row : RevisionRow) (r : List RevisionRow)
    → str_eq row.node_id node_id ≡ true
    → row.revision_number ≤ max_revision node_id (row ∷ r)
unfolding max_revision
max_revision_holds node_id row r e = rw e (ground arith)

bounded :
    (node_id : String) (n : ℕ) (rows : List RevisionRow)
    → max_revision node_id rows ≤ n
    → NumberedUpTo node_id n rows
bounded node_id n [] h = tt
bounded node_id n (row ∷ r) h = (
  (λ e. omega (arith, h, max_revision_holds node_id row r e)),
  bounded node_id n r (omega (arith, h, max_revision_grows node_id row r)),
)

unused :
    (node_id : String) (n : ℕ) (rows : List RevisionRow)
    → NumberedUpTo node_id n rows
    → any (λ r. str_eq r.node_id node_id && r.revision_number == suc n) rows ≡ false
unfolding any
unused node_id n [] h = refl
unused node_id n (row ∷ r) h = elim (Bool-cases (str_eq row.node_id node_id)) [
  | inl e ↦ rw (e, larger row.revision_number (h.0 e), unused node_id n r h.1) refl
  | inr e ↦ rw (e, unused node_id n r h.1) refl
]
  where
    larger : (m : ℕ) → m ≤ n → (m == suc n) ≡ false
    larger m l = ground arith

-- The next number is larger than those of the node's revisions.
pub next_revision_larger :
    (node_id : String) (db : Db)
    → NumberedUpTo node_id (max_revision node_id db.revisions) db.revisions
next_revision_larger node_id db = bounded node_id _ db.revisions (omega arith)

-- A row with the next number meets the table's constraints.
pub next_revision_free :
    (row : RevisionRow) (db : Db)
    → row.revision_number ≡ next_revision row.node_id db
    → is_neg (or_zero row.rollback_target_revision) ≡ false
    → check_revision row db ≡ ok tt
unfolding check_revision next_revision
next_revision_free row db e h =
    rw
      (
        e,
        lt→ltb 0 (next_revision row.node_id db) (omega arith),
        h,
        unused row.node_id _ db.revisions (next_revision_larger row.node_id db),
      )
      refl
