-- ===== src/Panel/Render/Accepts/Routing.antt =====
-- The panel's precheck of rendered outbounds and routing rules.
use lenker_panel.Base.{
  ◌≡◌, refl, String, Bool, true, false, ◌||◌, Option, none, some, List, [], ◌∷◌, ◌++◌, All, ok,
  Bool-cases, inl, inr, str_eq, is_blank,
}
use lenker_panel.Json.{Value, array, fields, object, text, elems-items}
use lenker_panel.Json.Gate.{contains, is_nonempty}
use lenker_panel.Panel.Validate
use lenker_panel.Panel.Render.{
  WarpInput, RoutingRuleInput, RenderInput, render_custom_routing_rules, action_to_outbound,
  rule_match, add_rule,
}
use lenker_panel.Panel.Render.Payload.{
  render_outbounds, render_rules, default_rule, needs_block, block_outbounds, warp_outbounds,
}

abbrev pub known_tags : Bool → Option WarpInput → List String
known_tags true none = "direct" ∷ "block" ∷ []
known_tags true (some w) = "direct" ∷ "block" ∷ "warp" ∷ []
known_tags false none = "direct" ∷ []
known_tags false (some w) = "direct" ∷ "warp" ∷ []

pub outbounds_accepted :
    (input : RenderInput)
    → Validate.validate_outbounds (render_outbounds input)
      ≡ ok (known_tags (needs_block input.routing_rules) input.warp_credentials)
unfolding Validate.validate_outbounds Validate.outbound_tags Validate.is_supported
    Validate.is_direct_freedom block_outbounds warp_outbounds render_outbounds is_blank
outbounds_accepted input = go (needs_block input.routing_rules) input.warp_credentials
  where
    go :
        (b : Bool) (w : Option WarpInput)
        → Validate.validate_outbounds (
            object (("tag", text "direct") ∷ ("protocol", text "freedom") ∷ [])
            ∷ (block_outbounds b ++ warp_outbounds w))
          ≡ ok (known_tags b w)
    go true none = refl
    go true (some w) = refl
    go false none = refl
    go false (some w) = refl

-- A rule sends to WARP only if there are credentials.
abbrev pub HasWarp : Option WarpInput → RoutingRuleInput → Type 0
HasWarp none rule = str_eq rule.action "warp" ≡ false
HasWarp (some w) rule = Unit {0}

data ActionCase (a : String) : Type 0 where
  direct : action_to_outbound a ≡ "direct" → ActionCase a
  block : str_eq a "block" ≡ true → action_to_outbound a ≡ "block" → ActionCase a
  warp : str_eq a "warp" ≡ true → action_to_outbound a ≡ "warp" → ActionCase a

action-cases : (a : String) → ActionCase a
unfolding action_to_outbound
action-cases a = elim (Bool-cases (str_eq a "block")) [
  | inl b ↦ block b (rw b refl)
  | inr b ↦ elim (Bool-cases (str_eq a "direct")) [
    | inl d ↦ direct (rw (b, d) refl)
    | inr d ↦ elim (Bool-cases (str_eq a "warp")) [
      | inl w ↦ warp w (rw (b, d, w) refl)
      | inr w ↦ elim (Bool-cases (str_eq a "proxy")) [
        | inl p ↦ direct (rw (b, d, w, p) refl)
        | inr p ↦ direct (rw (b, d, w, p) refl)
      ]
    ]
  ]
]

tag_known :
    (b : Bool) (w : Option WarpInput)
    → (contains (known_tags b w) "direct" ≡ true)
      × (b ≡ true → contains (known_tags b w) "block" ≡ true)
      × ((c : WarpInput) → w ≡ some c → contains (known_tags b w) "warp" ≡ true)
tag_known true none = (refl, λ _. refl, λ c e. cc)
tag_known true (some w) = (refl, λ _. refl, λ c e. refl)
tag_known false none = (refl, λ e. cc, λ c e. cc)
tag_known false (some w) = (refl, λ e. cc, λ c e. refl)

has_credentials :
    (w : Option WarpInput) (rule : RoutingRuleInput)
    → HasWarp w rule
    → str_eq rule.action "warp" ≡ true
    → (c : WarpInput) × (w ≡ some c)
has_credentials none rule h e = cc
has_credentials (some c) rule h e = (c, refl)

-- The outbound that a rule names exists, and is not blank.
target_known :
    (b : Bool) (w : Option WarpInput) (rule : RoutingRuleInput)
    → HasWarp w rule
    → (str_eq rule.action "block" ≡ true → b ≡ true)
    → (contains (known_tags b w) (action_to_outbound rule.action) ≡ true)
      × (is_blank (action_to_outbound rule.action) ≡ false)
unfolding is_blank
target_known b w rule h k = elim (action-cases rule.action) [
  | direct e ↦ rw e ((tag_known b w).0, refl)
  | block t e ↦ rw e ((tag_known b w).1 (k t), refl)
  | warp t e ↦
      let (c, some_c) = has_credentials w rule h t in rw e ((tag_known b w).2 c some_c, refl)
]

-- The other entries of a rule do not matter to the gate.
rule_accepted :
    (known : List String) (rule : RoutingRuleInput) (m : Option (String × Value))
    → contains known (action_to_outbound rule.action) ≡ true
    → is_blank (action_to_outbound rule.action) ≡ false
    → (rest : List Value) → Validate.validate_rules ("vless-reality-in" ∷ []) known rest ≡ ok tt
    → Validate.validate_rules
        ("vless-reality-in" ∷ [])
        known
        (add_rule rule "vless-reality-in" m rest)
      ≡ ok tt
unfolding Validate.validate_rules Validate.validate_rule Validate.validate_sources
    Validate.all_known add_rule is_blank
rule_accepted known rule none h v rest e = e
rule_accepted known rule (some (key, value)) h v rest e = rw (v, h) e

add_rule-append :
    (rule : RoutingRuleInput) (tag : String) (m : Option (String × Value)) (xs ys : List Value)
    → add_rule rule tag m xs ++ ys ≡ add_rule rule tag m (xs ++ ys)
unfolding add_rule
add_rule-append rule tag none xs ys = refl
add_rule-append rule tag (some (key, value)) xs ys = refl

or_right : (a b : Bool) → b ≡ true → (a || b) ≡ true
or_right true b h = refl
or_right false b h = h

rules_accepted :
    (b : Bool) (w : Option WarpInput) (rules : List RoutingRuleInput)
    → All (HasWarp w) rules
    → (needs_block rules ≡ true → b ≡ true)
    → Validate.validate_rules
        ("vless-reality-in" ∷ [])
        (known_tags b w)
        (render_rules rules "vless-reality-in")
      ≡ ok tt
unfolding render_rules render_custom_routing_rules needs_block Validate.validate_rules
    Validate.validate_rule Validate.validate_sources Validate.all_known is_blank
rules_accepted b w [] h k = rw ((tag_known b w).0) refl
rules_accepted b w (rule ∷ r) h k =
    let (known, visible) = target_known b w rule h.0 (λ t. k (rw t refl)) in
    rw (add_rule-append rule) (
      rule_accepted (known_tags b w) rule (rule_match rule.rule_type rule.target) known visible
        (render_rules r "vless-reality-in") (rules_accepted b w r h.1 (λ t. k (or_right _ _ t))))

is_nonempty-render_rules :
    (rules : List RoutingRuleInput) (tag : String) → is_nonempty (render_rules rules tag) ≡ true
unfolding render_rules
is_nonempty-render_rules rules tag = go (render_custom_routing_rules rules tag)
  where
    go : (l : List Value) → is_nonempty (l ++ (default_rule tag ∷ [])) ≡ true
    go [] = refl
    go (v ∷ l) = refl

pub is_nonempty-render_outbounds :
    (input : RenderInput) → is_nonempty (render_outbounds input) ≡ true
unfolding render_outbounds
is_nonempty-render_outbounds input = refl

pub routing_accepted :
    (input : RenderInput)
    → All (HasWarp input.warp_credentials) input.routing_rules
    → Validate.validate_routing
        (fields (
          ("domainStrategy", text "AsIs")
          ∷ ("rules", array (render_rules input.routing_rules "vless-reality-in"))
          ∷ []))
        ("vless-reality-in" ∷ [])
        (known_tags (needs_block input.routing_rules) input.warp_credentials)
      ≡ ok tt
unfolding Validate.validate_routing
routing_accepted input h =
    rw (elems-items, is_nonempty-render_rules)
      (rules_accepted (needs_block input.routing_rules) input.warp_credentials input.routing_rules h
        (λ e. e))
