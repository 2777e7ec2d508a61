-- ===== src/Panel/Nodes/Tables.antt =====
-- Lemmas on looking rows up and updating them.
use mathlib.Core.Option
use mathlib.Core.Option.{some-injective}
use mathlib.Core.Path.{subst}
use lenker_panel.Base.{
  ◌∙◌, ◌≡◌, refl, Bool, true, false, none, some, List, [], ◌∷◌, ◌++◌, All, ok, err, if◌then◌else◌,
  Bool-cases, inl, inr, >>=-eq-ok,
}
use lenker_panel.Panel.Nodes.{
  find, update_where, any, NodeRow, NodesError, check_node, check_updated,
}

module _ {ℓ} {A : Type ℓ} where
  -- An update that leaves the key alone changes what is found under it, and nothing else.
  pub find-update_where :
      (p q : A → Bool) (f : A → A) (xs : List A)
      → ((x : A) → p (f x) ≡ p x)
      → find p (update_where q f xs) ≡ Option.map (λ x. if q x then f x else x) (find p xs)
  unfolding find update_where
  find-update_where p q f [] h = refl
  find-update_where p q f (x ∷ xs) h = elim (Bool-cases (q x)) [
    | inl e ↦ elim (Bool-cases (p x)) [
      | inl k ↦ rw (e, h x, k, e) refl
      | inr k ↦ rw (e, h x, k) (find-update_where p q f xs h)
    ]
    | inr e ↦ elim (Bool-cases (p x)) [
      | inl k ↦ rw (e, k, e) refl
      | inr k ↦ rw (e, k) (find-update_where p q f xs h)
    ]
  ]

  pub find-true : (p : A → Bool) (xs : List A) (x : A) → find p xs ≡ some x → p x ≡ true
  unfolding find
  find-true p [] x h = cc
  find-true p (y ∷ xs) x h = elim (Bool-cases (p y)) [
    | inl e ↦ subst (λ z. p z ≡ true) (some-injective _ _ (rw e at h)) e
    | inr e ↦ find-true p xs x (rw e at h)
  ]

  pub find-none : (p : A → Bool) (xs : List A) → All (λ x. p x ≡ false) xs → find p xs ≡ none
  unfolding find
  find-none p [] h = refl
  find-none p (x ∷ xs) h = rw (h.0) (find-none p xs h.1)

  -- A row added at the end is found if no other has its key.
  pub find-append :
      (p : A → Bool) (xs : List A) (x : A)
      → any p xs ≡ false
      → p x ≡ true
      → find p (xs ++ (x ∷ [])) ≡ some x
  unfolding find any
  find-append p [] x h k = rw k refl
  find-append p (y ∷ xs) x h k = elim (Bool-cases (p y)) [
    | inl e ↦ let h' : true ≡ false = rw e at h in cc
    | inr e ↦ rw e (find-append p xs x (rw e at h) k)
  ]

  pub All-update_where {κ} :
      (P : A → Type κ) (q : A → Bool) (f : A → A) (xs : List A)
      → ((x : A) → q x ≡ true → P x → P (f x))
      → All P xs
      → All P (update_where q f xs)
  unfolding update_where
  All-update_where P q f [] h a = tt
  All-update_where P q f (x ∷ xs) h a = elim (Bool-cases (q x)) [
    | inl e ↦ rw e (h x e a.0, All-update_where P q f xs h a.1)
    | inr e ↦ rw e (a.0, All-update_where P q f xs h a.1)
  ]

-- Rows that meet the constraints still do after an update that has been checked.
pub checked-update :
    (p : NodeRow → Bool) (f : NodeRow → NodeRow) (rows : List NodeRow)
    → All (λ row. check_node row.node ≡ ok tt) rows
    → check_updated p f rows ≡ ok tt
    → All (λ row. check_node row.node ≡ ok tt) (update_where p f rows)
unfolding check_updated update_where
checked-update p f [] h k = tt
checked-update p f (row ∷ rows) h k = elim (Bool-cases (p row)) [
  | inl e ↦
      let (u, checked, rest) = >>=-eq-ok (check_node (f row).node) _ (rw e at k) in
      rw e ((rw checked refl), checked-update p f rows h.1 rest)
  | inr e ↦ rw e (h.0, checked-update p f rows h.1 (rw e at k))
]

-- An update whose row violates a constraint fails.
pub check-violated :
    (p : NodeRow → Bool) (f : NodeRow → NodeRow) (rows : List NodeRow) (row : NodeRow)
    (e : NodesError)
    → find p rows ≡ some row
    → check_node (f row).node ≡ err e
    → check_updated p f rows ≡ err e
unfolding check_updated find
check-violated p f [] row e h k = cc
check-violated p f (x ∷ rows) row e h k = elim (Bool-cases (p x)) [
  | inl t ↦ rw (t, some-injective _ _ (rw t at h), k) refl
  | inr t ↦ rw t (check-violated p f rows row e (rw t at h) k)
]

-- An update that keeps to the constraints passes.
pub check-kept :
    (p : NodeRow → Bool) (f : NodeRow → NodeRow) (rows : List NodeRow)
    → All (λ row. p row ≡ true → check_node (f row).node ≡ ok tt) rows
    → check_updated p f rows ≡ ok tt
unfolding check_updated
check-kept p f [] h = refl
check-kept p f (row ∷ rows) h = elim (Bool-cases (p row)) [
  | inl e ↦ rw (e, h.0 e) (check-kept p f rows h.1)
  | inr e ↦ rw e (check-kept p f rows h.1)
]

module _ {ℓ κ} {A : Type ℓ} (P : A → Type κ) where
  pub All-updated :
      (q : A → Bool) (f : A → A) (xs : List A)
      → ((x : A) → q x ≡ true → P (f x))
      → ((x : A) → q x ≡ false → P x)
      → All P (update_where q f xs)
  unfolding update_where
  All-updated q f [] h k = tt
  All-updated q f (x ∷ xs) h k = elim (Bool-cases (q x)) [
    | inl e ↦ rw e (h x e, All-updated q f xs h k)
    | inr e ↦ rw e (k x e, All-updated q f xs h k)
  ]

module _ {ℓ} {A : Type ℓ} where
  -- An update of the row that is found, which leaves it to be found.
  pub find-updated :
      (p : A → Bool) (f : A → A) (xs : List A) (x : A)
      → ((y : A) → p (f y) ≡ p y)
      → find p xs ≡ some x
      → find p (update_where p f xs) ≡ some (f x)
  find-updated p f xs x stable e =
      find-update_where p p f xs stable ∙ rw (e, find-true p xs x e) refl
