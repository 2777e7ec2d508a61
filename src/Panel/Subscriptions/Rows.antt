-- ===== src/Panel/Subscriptions/Rows.antt =====
-- Lemmas on counting and closing rows of the tables of access tokens and handoff invites.
use lenker_panel.Base.{
  ℕ, suc, ◌≤◌, ◌≡◌, refl, ap, ◌∙◌, Bool, true, false, List, [], ◌∷◌, ◌++◌, if◌then◌else◌,
  Bool-cases, inl, inr, arith, some,
}
use lenker_panel.Panel.Nodes.{find, update_where, any}

module _ {ℓ} {A : Type ℓ} where
  unfoldable pub count : (A → Bool) → List A → ℕ
  count p [] = 0
  count p (x ∷ xs) = let rest = count p xs in if p x then suc rest else rest

  pub count-append :
      (p : A → Bool) (xs : List A) (x : A)
      → count p (xs ++ (x ∷ [])) ≡ (if p x then suc (count p xs) else count p xs)
  unfolding count
  count-append p [] x = refl
  count-append p (y ∷ xs) x = elim (Bool-cases (p y)) [
    | inl e ↦ elim (Bool-cases (p x)) [
      | inl k ↦ let h = count-append p xs x in rw (e, k) (ap suc (h ∙ rw k refl))
      | inr k ↦ let h = count-append p xs x in rw (e, k) (ap suc (h ∙ rw k refl))
    ]
    | inr e ↦ rw e (count-append p xs x)
  ]

  -- the rows that are changed no longer have the property
  pub count-lost :
      (p q : A → Bool) (f : A → A) (xs : List A)
      → ((x : A) → p (f x) ≡ false)
      → count p (update_where q f xs) ≤ count p xs
  unfolding count update_where
  count-lost p q f [] h = omega arith
  count-lost p q f (x ∷ xs) h =
      let rest = count-lost p q f xs h in
      elim (Bool-cases (q x)) [
        | inl e ↦
            rw (e, h x)
              (elim (Bool-cases (p x)) [ inl k ↦ rw k (omega (arith, rest)) | inr k ↦ rw k rest ])
        | inr e ↦
            rw e
              (elim (Bool-cases (p x)) [ inl k ↦ rw k (omega (arith, rest)) | inr k ↦ rw k rest ])
      ]

  pub count-closed :
      (p : A → Bool) (f : A → A) (xs : List A)
      → ((x : A) → p (f x) ≡ false)
      → count p (update_where p f xs) ≡ 0
  unfolding count update_where
  count-closed p f [] h = refl
  count-closed p f (x ∷ xs) h = elim (Bool-cases (p x)) [
    | inl e ↦ rw (e, h x) (count-closed p f xs h)
    | inr e ↦ rw (e, e) (count-closed p f xs h)
  ]

  pub count-kept :
      (p q : A → Bool) (f : A → A) (xs : List A)
      → ((x : A) → p (f x) ≡ p x)
      → count p (update_where q f xs) ≡ count p xs
  unfolding count update_where
  count-kept p q f [] h = refl
  count-kept p q f (x ∷ xs) h =
      let rest = count-kept p q f xs h in
      elim (Bool-cases (q x)) [ inl e ↦ rw (e, h x, rest) refl | inr e ↦ rw (e, rest) refl ]

  pub count-none : (p : A → Bool) (xs : List A) → any p xs ≡ false → count p xs ≡ 0
  unfolding count any
  count-none p [] h = refl
  count-none p (x ∷ xs) h = elim (Bool-cases (p x)) [
    | inl e ↦ let k : true ≡ false = rw e at h in cc
    | inr e ↦ rw e (count-none p xs (rw e at h))
  ]

  pub any-updated :
      (p q : A → Bool) (f : A → A) (xs : List A)
      → ((x : A) → p (f x) ≡ p x)
      → any p (update_where q f xs) ≡ any p xs
  unfolding any update_where
  any-updated p q f [] h = refl
  any-updated p q f (x ∷ xs) h =
      let rest = any-updated p q f xs h in
      elim (Bool-cases (q x)) [ inl e ↦ rw (e, h x, rest) refl | inr e ↦ rw (e, rest) refl ]

  pub any-append :
      (p : A → Bool) (xs : List A) (x : A) → any p xs ≡ true → any p (xs ++ (x ∷ [])) ≡ true
  unfolding any
  any-append p [] x h = cc
  any-append p (y ∷ xs) x h = elim (Bool-cases (p y)) [
    | inl e ↦ rw e refl
    | inr e ↦ rw e (any-append p xs x (rw e at h))
  ]

  pub find-any : (p : A → Bool) (xs : List A) (x : A) → find p xs ≡ some x → any p xs ≡ true
  unfolding find any
  find-any p [] x h = cc
  find-any p (y ∷ xs) x h = elim (Bool-cases (p y)) [
    | inl e ↦ rw e refl
    | inr e ↦ rw e (find-any p xs x (rw e at h))
  ]
