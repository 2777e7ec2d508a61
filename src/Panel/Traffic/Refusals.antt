-- ===== src/Panel/Traffic/Refusals.antt =====
-- The refusals of RecordReport of services/panel-api/internal/traffic/service.go.
use lenker_panel.Base.{
  ℕ, ◌≡◌, refl, ◌⊎◌, inl, inr, String, Bool, true, false, not, ◌||◌, none, List, [], ◌∷◌, Time, err,
  is_blank, is_empty, is_neg, trim_space, Bool-cases, Option-cases,
}
use lenker_panel.Crypto.{Crypto}
use lenker_panel.Panel.Nodes.{find, any}
use lenker_panel.Panel.Nodes.Bootstrap.{hash_string}
use lenker_panel.Panel.Traffic.{TrafficTables, invalid_input, unauthorized}
use lenker_panel.Panel.Traffic.Recording.{
  TrafficReportItem, cleaned, is_reporter, node_id_by_token, record_report,
}

-- the entry has a subscription and no count of it is negative
unfoldable pub is_entry : TrafficReportItem → Bool
is_entry x =
    not (is_empty (trim_space x.subscription_id) || is_neg x.bytes_up || is_neg x.bytes_down)

not-true : (b : Bool) → not b ≡ false → b ≡ true
not-true true h = refl
not-true false h = cc

module _ (x : TrafficReportItem) where
  cleaned_drop : (xs : List TrafficReportItem) → is_entry x ≡ false → cleaned (x ∷ xs) ≡ none
  unfolding cleaned is_entry
  cleaned_drop xs h = elim (Option-cases (cleaned xs)) [
    | inl e ↦ rw e refl
    | inr (rest, e) ↦ rw (e, not-true _ h) refl
  ]

  cleaned_rest : (xs : List TrafficReportItem) → cleaned xs ≡ none → cleaned (x ∷ xs) ≡ none
  unfolding cleaned
  cleaned_rest xs h = rw h refl

unclean : (xs : List TrafficReportItem) → any (λ x. not (is_entry x)) xs ≡ true → cleaned xs ≡ none
unfolding any
unclean [] h = cc
unclean (x ∷ xs) h = elim (Bool-cases (is_entry x)) [
  | inl e ↦ cleaned_rest x xs (unclean xs (rw e at h))
  | inr e ↦ cleaned_drop x xs e
]

module _ (c : Crypto) where
  -- A report with an entry that has no subscription or a negative count, or with a token that no
  -- registered and enabled node has, is refused, and nothing is written, also not for other entries.
  pub refused_report_writes_nothing :
      (now clock : Time) (ids : ℕ → String × String) (node_token : String)
      (entries : List TrafficReportItem) (t : TrafficTables)
      → (any (λ x. not (is_entry x)) entries ≡ true)
        ⊎ (find (is_reporter c (hash_string c (trim_space node_token))) t.node_rows ≡ none)
      → (record_report c now clock ids node_token entries t ≡ (err unauthorized, t))
        ⊎ (record_report c now clock ids node_token entries t ≡ (err invalid_input, t))
  unfolding record_report node_id_by_token
  refused_report_writes_nothing now clock ids node_token entries t (inl h) =
      elim (Bool-cases (is_blank node_token)) [
        | inl e ↦ inl (rw e refl)
        | inr e ↦ inr (no_items entries (unclean entries h) e)
      ]
    where
      no_items :
          (entries : List TrafficReportItem)
          → cleaned entries ≡ none
          → is_blank node_token ≡ false
          → record_report c now clock ids node_token entries t ≡ (err invalid_input, t)
      no_items [] k e = rw e refl
      no_items (x ∷ xs) k e = rw (e, k) refl
  refused_report_writes_nothing now clock ids node_token entries t (inr h) =
      elim (Bool-cases (is_blank node_token)) [
        | inl e ↦ inl (rw e refl)
        | inr e ↦ no_node entries e
      ]
    where
      no_node :
          (entries : List TrafficReportItem)
          → is_blank node_token ≡ false
          → (record_report c now clock ids node_token entries t ≡ (err unauthorized, t))
            ⊎ (record_report c now clock ids node_token entries t ≡ (err invalid_input, t))
      no_node [] e = inr (rw e refl)
      no_node (x ∷ xs) e = elim (Option-cases (cleaned (x ∷ xs))) [
        | inl k ↦ inr (rw (e, k) refl)
        | inr (items, k) ↦ inl (rw (e, k, h) refl)
      ]
