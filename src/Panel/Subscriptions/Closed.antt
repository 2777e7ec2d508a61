-- ===== src/Panel/Subscriptions/Closed.antt =====
-- Lemmas on rows that have a hash and are not active.
use mathlib.Core.Option.{some-injective}
use lenker_panel.Base.{
  suc, ◌≤◌, ◌≡◌, refl, sym, ap, ◌∙◌, String, Bool, true, false, List, [], ◌∷◌, ◌++◌, All,
  All-append, str_eq, eq_iff, Bool-cases, inl, inr, arith, some, none,
}
use lenker_panel.Panel.Nodes.{find, update_where, any}
use lenker_panel.Panel.Nodes.Tables.{find-none, All-update_where}
use lenker_panel.Panel.Subscriptions.Rows.{count, any-updated, any-append}

module _ {ℓ} {A : Type ℓ} (has live : A → Bool) where
  -- there is a row, and none of them is live
  abbrev pub IsClosed : List A → Type 0
  IsClosed rows = (any has rows ≡ true) × All (λ r. has r ≡ true → live r ≡ false) rows

  pub IsClosed-updated :
      (q : A → Bool) (f : A → A) (rows : List A)
      → ((r : A) → has (f r) ≡ has r)
      → ((r : A) → live (f r) ≡ false)
      → IsClosed rows
      → IsClosed (update_where q f rows)
  IsClosed-updated q f rows stable dead h =
      (any-updated has q f rows stable ∙ h.0, All-update_where _ q f rows (λ r _ _ _. dead r) h.1)

  pub IsClosed-append :
      (rows : List A) (r : A) → IsClosed rows → has r ≡ false → IsClosed (rows ++ (r ∷ []))
  IsClosed-append rows r h e = (
    any-append has rows r h.0,
    All-append _ rows _ h.1 ((λ t. let k : true ≡ false = sym t ∙ e in cc), tt),
  )

  pub count-some : (rows : List A) → any has rows ≡ true → 1 ≤ count has rows
  unfolding any count
  count-some [] h = cc
  count-some (r ∷ rs) h = elim (Bool-cases (has r)) [
    | inl e ↦ rw e (omega arith)
    | inr e ↦ rw e (count-some rs (rw e at h))
  ]

  pub none-has : (rows : List A) → count has rows ≡ 0 → All (λ r. has r ≡ false) rows
  unfolding count
  none-has [] h = tt
  none-has (r ∷ rs) h = elim (Bool-cases (has r)) [
    | inl e ↦ let k : suc (count has rs) ≡ 0 = rw e at h in absurd (omega (arith, k))
    | inr e ↦ (e, none-has rs (rw e at h))
  ]

  without :
      (q : A → Bool) (f : A → A) (rows : List A)
      → ((r : A) → has (f r) ≡ has r)
      → All (λ r. has r ≡ false) rows
      → All (λ r. has r ≡ true → live r ≡ false) (update_where q f rows)
  unfolding update_where
  without q f [] stable h = tt
  without q f (r ∷ rs) stable h = elim (Bool-cases (q r)) [
    | inl e ↦
        rw e ((λ t. let k : true ≡ false = sym t ∙ stable r ∙ h.0 in cc), without q f rs stable h.1)
    | inr e ↦ rw e ((λ t. let k : true ≡ false = sym t ∙ h.0 in cc), without q f rs stable h.1)
  ]

  -- Where the rows that have the hash are at most one, closing the one that is found closes them.
  pub IsClosed-found :
      (p q : A → Bool) (f : A → A) (rows : List A) (t : A)
      → ((r : A) → p r ≡ true → has r ≡ true)
      → ((r : A) → has (f r) ≡ has r)
      → ((r : A) → live (f r) ≡ false)
      → count has rows ≤ 1
      → find p rows ≡ some t
      → q t ≡ true
      → IsClosed (update_where q f rows)
  unfolding find count any update_where
  IsClosed-found p q f [] t ph stable dead one found k = cc
  IsClosed-found p q f (r ∷ rs) t ph stable dead one found k = elim (Bool-cases (p r)) [
    | inl e ↦
        let same : r ≡ t = some-injective _ _ (rw e at found) in
        let qr : q r ≡ true = ap q same ∙ k in
        let none_left : count has rs ≡ 0 =
          let n : suc (count has rs) ≤ 1 = rw (ph r e) at one in omega (arith, n) in
        rw qr (
          rw (stable r, ph r e) refl,
          ((λ _. dead r), without q f rs stable (none-has rs none_left)),
        )
    | inr e ↦
        let found' : find p rs ≡ some t = rw e at found in
        let there : any has rs ≡ true = find-has rs found' in
        elim (Bool-cases (has r)) [
          | inl b ↦
              let n : suc (count has rs) ≤ 1 = rw b at one in
              absurd (omega (arith, n, count-some rs there))
          | inr b ↦
              let rest = IsClosed-found p q f rs t ph stable dead (rw b at one) found' k in
              elim (Bool-cases (q r)) [
                | inl u ↦ rw u (
                  rw (stable r, b) rest.0,
                  ((λ w. let z : true ≡ false = sym w ∙ stable r ∙ b in cc), rest.1),
                )
                | inr u ↦
                    rw u (rw b rest.0, ((λ w. let z : true ≡ false = sym w ∙ b in cc), rest.1))
              ]
        ]
  ]
    where
      find-has : (rs : List A) → find p rs ≡ some t → any has rs ≡ true
      find-has [] h = cc
      find-has (r ∷ rs) h = elim (Bool-cases (p r)) [
        | inl e ↦ rw (ph r e) refl
        | inr e ↦ elim (Bool-cases (has r)) [
          | inl b ↦ rw b refl
          | inr b ↦ rw b (find-has rs (rw e at h))
        ]
      ]

  -- No row is found that would have to be live.
  pub IsClosed-none :
      (p : A → Bool) (rows : List A)
      → ((r : A) → p r ≡ true → (has r ≡ true) × (live r ≡ true))
      → IsClosed rows
      → find p rows ≡ none
  IsClosed-none p rows ph h = find-none p rows (go rows h.1)
    where
      go :
          (rows : List A)
          → All (λ r. has r ≡ true → live r ≡ false) rows
          → All (λ r. p r ≡ false) rows
      go [] h = tt
      go (r ∷ rs) h = elim (Bool-cases (p r)) [
        | inl e ↦ let k : true ≡ false = sym (ph r e).1 ∙ h.0 (ph r e).0 in cc
        | inr e ↦ (e, go rs h.1)
      ]

  pub other_hash :
      (hash_of : A → String) (new hash : String) (rows : List A)
      → any (λ r. str_eq (hash_of r) new) rows ≡ false
      → any (λ r. str_eq (hash_of r) hash) rows ≡ true
      → str_eq new hash ≡ false
  other_hash hash_of new hash rows e h = elim (Bool-cases (str_eq new hash)) [
    | inl k ↦
        let same = (eq_iff new hash).0 k in
        let z : true ≡ false =
          sym h ∙ ap (λ x. any (λ r. str_eq (hash_of r) x) rows) (sym same) ∙ e in
        cc
    | inr k ↦ k
  ]
