-- ===== src/Panel/Nodes/Revisions/Once.antt =====
-- ReportConfigRevision of services/panel-api/internal/storage/nodes.go settles a revision.
use mathlib.Core.Path.{subst}
use lenker_panel.Base.{
  suc, ◌≤◌, arith, List, [], ◌∷◌, some, none, require-eq-ok, ◌≡◌, refl, sym, ap, ◌∙◌, Bool, true,
  false, ◌&&◌, All, ok, err, >>=-eq-ok, ok-injective, guard, require, Time, str_eq, Bool-cases,
  Option-cases, inl, inr,
}
use lenker_panel.Crypto.{Crypto}
use lenker_panel.Panel.Nodes.{
  NodeRow, RevisionRow, Db, not_found, invalid_node_transition, find, update_where, check_updated,
}
use lenker_panel.Panel.Nodes.Lifecycle.{has_id}
use lenker_panel.Panel.Nodes.Bootstrap.{hash_string}
use lenker_panel.Panel.Nodes.Heartbeat.{is_authorized}
use lenker_panel.Panel.Nodes.Revisions.{ConfigRevision}
use lenker_panel.Panel.Nodes.Revisions.Report.{
  ReportConfigRevisionInput, reported_at, reported, report_node, is_reported, is_final,
  report_config_revision,
}
use lenker_panel.Panel.Nodes.Tables.{find-none, All-update_where}
use lenker_panel.Panel.Subscriptions.Rows.{count}

and_false : (a : Bool) → (a && false) ≡ false
and_false true = refl
and_false false = refl

module _ {ℓ} {A : Type ℓ} where
  -- A stricter property of rows than one that no row has.
  count_zero-All :
      (p q : A → Bool) (xs : List A)
      → ((x : A) → q x ≡ true → p x ≡ true)
      → count p xs ≡ 0
      → All (λ x. q x ≡ false) xs
  unfolding count
  count_zero-All p q [] w h = tt
  count_zero-All p q (x ∷ xs) w h = elim (Bool-cases (p x)) [
    | inl e ↦ let k : suc (count p xs) ≡ 0 = rw e at h in absurd (omega (arith, k))
    | inr e ↦ (weaker x e, count_zero-All p q xs w (rw e at h))
  ]
    where
      weaker : (x : A) → p x ≡ false → q x ≡ false
      weaker x e = elim (Bool-cases (q x)) [
        | inl k ↦ let z : true ≡ false = sym (w x k) ∙ e in cc
        | inr k ↦ k
      ]

  -- The update of the only row with the key: afterwards no row with the key has the other property.
  updated_only :
      (p q again : A → Bool) (f : A → A) (xs : List A) (x : A)
      → ((y : A) → q y ≡ true → p y ≡ true)
      → ((y : A) → again y ≡ true → p y ≡ true)
      → ((y : A) → again (f y) ≡ false)
      → count p xs ≤ 1
      → find q xs ≡ some x
      → All (λ y. again y ≡ false) (update_where q f xs)
  unfolding count find update_where
  updated_only p q again f [] x v w settled only found = tt
  updated_only p q again f (y ∷ ys) x v w settled only found = elim (Bool-cases (q y)) [
    | inl e ↦
        let k : suc (count p ys) ≤ 1 = rw (v y e) at only in
        let others = count_zero-All p again ys w (omega (arith, k)) in
        rw e (settled y, All-update_where (λ z. again z ≡ false) q f ys (λ z _ _. settled z) others)
    | inr e ↦ elim (Bool-cases (p y)) [
      | inl t ↦
          let k : suc (count p ys) ≤ 1 = rw t at only in
          let others = count_zero-All p q ys v (omega (arith, k)) in
          let z : none ≡ some x = sym (find-none q ys others) ∙ rw e at found in cc
      | inr t ↦ rw e (
        (count_zero-All p again (y ∷ []) w (rw t refl)).0,
        updated_only p q again f ys x v w settled (rw t at only) (rw e at found),
      )
    ]
  ]

all_but_last : (a b c : Bool) → (a && b && c) ≡ true → b ≡ true
all_but_last true true c h = refl
all_but_last true false c h = h
all_but_last false b c h = let t : false ≡ true = h in cc

-- A row that a report names has the identifier of the report.
is_reported-named :
    (input : ReportConfigRevisionInput) (row : RevisionRow)
    → is_reported input row ≡ true
    → str_eq row.id input.revision_id ≡ true
unfolding is_reported
is_reported-named input row h =
    all_but_last (str_eq row.node_id input.node_id) (str_eq row.id input.revision_id) _ h

-- What has been reported is no longer pending.
pub reported_settled :
    (at : Time) (input again : ReportConfigRevisionInput) (row : RevisionRow)
    → is_reported again (reported at input row) ≡ false
unfolding is_reported reported
reported_settled at input again row = elim (Bool-cases (str_eq input.status "applied")) [
  | inl e ↦ rw (e) (and_false _)
  | inr e ↦ rw (e) (and_false _)
]

-- A revision is reported once: where its identifier is a key, after a report has been accepted, every
-- later report on the revision is refused, by whichever node, with whatever token and outcome.
pub report_once :
    (c : Crypto) (now : Time) (input : ReportConfigRevisionInput) (db : Db)
    (revision : ConfigRevision) (db' : Db)
    → count (λ row. str_eq row.id input.revision_id) db.revisions ≤ 1
    → report_config_revision c now input db ≡ ok (revision, db')
    → (later : Time) (again : ReportConfigRevisionInput) → again.revision_id ≡ input.revision_id
    → is_final again.status ≡ true
    → report_config_revision c later again db' ≡ err not_found
unfolding report_config_revision
report_once c now input db revision db' key h later again i f =
    let at = reported_at now input in
    let mine : NodeRow → Bool =
      λ row. has_id input.node_id row && is_authorized (hash_string c input.node_token) row in
    let (_, _, h1) = >>=-eq-ok (guard (is_final input.status) invalid_node_transition) _ h in
    let (_, _, h2) = >>=-eq-ok (require (find mine db.nodes) not_found) _ h1 in
    let (row, found, h3) =
      >>=-eq-ok (require (find (is_reported input) db.revisions) not_found) _ h2 in
    let (_, _, h4) =
      >>=-eq-ok (check_updated mine (report_node now at input row.revision_number) db.nodes) _ h3 in
    let revisions : db'.revisions
        ≡ update_where (is_reported input) (reported at input) db.revisions =
      sym (ap (λ x. x.1.revisions) (ok-injective _ refl h4)) in
    let settled : All (λ r. is_reported again r ≡ false) db'.revisions =
      subst (All (λ r. is_reported again r ≡ false)) (sym revisions) (
        updated_only (λ r. str_eq r.id input.revision_id) (is_reported input) (is_reported again)
          (reported at input) db.revisions row (is_reported-named input) named
          (reported_settled at input again) key (require-eq-ok _ not_found row found)) in
    elim (Option-cases (
      find (λ r. has_id again.node_id r && is_authorized (hash_string c again.node_token) r)
        db'.nodes)) [
          | inl e ↦ rw (f, e) refl
          | inr (node, e) ↦ rw (f, e, find-none (is_reported again) db'.revisions settled) refl
        ]
  where
    named : (r : RevisionRow) → is_reported again r ≡ true → str_eq r.id input.revision_id ≡ true
    named r t = ap (str_eq r.id) (sym i) ∙ is_reported-named again r t
