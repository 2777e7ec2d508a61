-- ===== src/Panel/Subscriptions/Access/Explained.antt =====
-- When Access of services/panel-api/internal/storage/subscriptions.go answers, and with what.
use mathlib.Core.Option.{some-injective}
use lenker_panel.Base.{
  ◌≡◌, refl, sym, ap, ◌∙◌, ◌⊎◌, All, String, Bool, true, false, ◌&&◌, Option, some, none, List, [],
  ◌∷◌, Time, after, Result, ok, err, str_eq, Bool-cases, Option-cases, inl, inr,
}
use lenker_panel.Panel.Nodes.{Node, find}
use lenker_panel.Panel.Render.{RealityConfig}
use lenker_panel.Panel.Subscriptions.{
  Subscription, StoredSubscription, Account, Plan, Tables, SubscriptionsError, not_found,
  access_unavailable, is_named,
}
use lenker_panel.Panel.Subscriptions.Access.{
  SubscriptionAccess, access, choose_node, first_of, precedes, offers, export,
}

-- the node is in the list
abbrev pub Listed : Node → List Node → Type 0
Listed n [] = ⊥
Listed n (m ∷ ms) = (m ≡ n) ⊎ Listed n ms

module _ (text_lt : String → String → Bool) where
  -- which of the two the choice takes
  takes :
      (region : Option String) (m : Node) (rest : Option Node)
      → (first_of text_lt region m rest ≡ m) ⊎ (rest ≡ some (first_of text_lt region m rest))
  takes region m none = inl refl
  takes region m (some k) = elim (Bool-cases (precedes text_lt region k m)) [
    | inl e ↦ inr (rw e refl)
    | inr e ↦ inl (rw e refl)
  ]

  pub chosen-offers :
      (region : Option String) (nodes : List Node) (n : Node)
      → choose_node text_lt region nodes ≡ some n
      → (offers region n ≡ true) × Listed n nodes
  unfolding choose_node
  chosen-offers region [] n h = cc
  chosen-offers region (m ∷ ms) n h = elim (Bool-cases (offers region m)) [
    | inr e ↦ let (o, l) = chosen-offers region ms n (rw e at h) in (o, inr l)
    | inl e ↦
        let first = first_of text_lt region m (choose_node text_lt region ms) in
        let is_first : first ≡ n = some-injective _ _ (rw e at h) in
        elim (takes region m (choose_node text_lt region ms)) [
          | inl k ↦
              let same : m ≡ n = sym k ∙ is_first in (ap (offers region) (sym same) ∙ e, inl same)
          | inr k ↦
              let (o, l) = chosen-offers region ms n (k ∙ ap (λ x. some x) is_first) in (o, inr l)
        ]
  ]

  pub none-offers :
      (region : Option String) (nodes : List Node)
      → choose_node text_lt region nodes ≡ none
      → All (λ n. offers region n ≡ false) nodes
  unfolding choose_node
  none-offers region [] h = tt
  none-offers region (m ∷ ms) h = elim (Bool-cases (offers region m)) [
    | inl e ↦
        let z : some (first_of text_lt region m (choose_node text_lt region ms)) ≡ none =
          rw e at h in
        cc
    | inr e ↦ (e, none-offers region ms (rw e at h))
  ]

-- the subscription and the user are active, and it has not expired
abbrev pub is_current : Time → Subscription → Account → Bool
is_current clock s u =
    str_eq s.status "active" && str_eq u.status "active" && after s.expires_at clock

pub record Served (text_lt : String → String → Bool) (clock : Time) (reality : RealityConfig)
    (id : String) (db : Tables) (a : SubscriptionAccess) : Type 0 where
  pub row : StoredSubscription
  pub user : Account
  pub plan : Plan
  pub node : Node
  pub subscription_found : find (is_named id) db.subscriptions ≡ some row
  pub user_found : find (λ u. str_eq u.id row.subscription.user_id) db.users ≡ some user
  pub plan_found : find (λ p. str_eq p.id row.subscription.plan_id) db.plans ≡ some plan
  pub current : is_current clock row.subscription user ≡ true
  pub chosen : choose_node text_lt row.subscription.preferred_region db.nodes ≡ some node
  pub offered : offers row.subscription.preferred_region node ≡ true
  pub listed : Listed node db.nodes
  pub shown : a ≡ export reality row.subscription user plan node

pub data Refused (clock : Time) (id : String) (db : Tables) : SubscriptionsError → Type 0 where
  no_subscription : find (is_named id) db.subscriptions ≡ none → Refused clock id db not_found
  no_user :
      (row : StoredSubscription)
      → find (is_named id) db.subscriptions ≡ some row
      → find (λ u. str_eq u.id row.subscription.user_id) db.users ≡ none
      → Refused clock id db not_found
  no_plan :
      (row : StoredSubscription)
      → find (is_named id) db.subscriptions ≡ some row
      → find (λ p. str_eq p.id row.subscription.plan_id) db.plans ≡ none
      → Refused clock id db not_found
  not_current :
      (row : StoredSubscription) (user : Account)
      → find (is_named id) db.subscriptions ≡ some row
      → find (λ u. str_eq u.id row.subscription.user_id) db.users ≡ some user
      → is_current clock row.subscription user ≡ false
      → Refused clock id db access_unavailable
  no_node :
      (row : StoredSubscription)
      → find (is_named id) db.subscriptions ≡ some row
      → All (λ n. offers row.subscription.preferred_region n ≡ false) db.nodes
      → Refused clock id db access_unavailable

abbrev pub Explains :
    (text_lt : String → String → Bool)
    → Time
    → RealityConfig
    → String
    → Tables
    → Result SubscriptionsError SubscriptionAccess
    → Type 0
Explains text_lt clock reality id db (ok a) = Served text_lt clock reality id db a
Explains text_lt clock reality id db (err e) = Refused clock id db e

-- Where Access answers, the subscription, its user and its plan are there, the first two are active and
-- the subscription has not expired; the node is in the table, active, not drained, has a hostname and is
-- in the preferred region, if there is one; the answer is the export of these. Where it does not, it
-- says not found, and one of the three is missing, or unavailable, and the subscription or its user is
-- not active, or it has expired, or no node of the table can be offered.
pub access-Explains :
    (text_lt : String → String → Bool) (clock : Time) (reality : RealityConfig) (id : String)
    (db : Tables)
    → Explains text_lt clock reality id db (access text_lt clock reality id db)
unfolding access
access-Explains text_lt clock reality id db =
    elim (Option-cases (find (is_named id) db.subscriptions)) [
      | inl e ↦ rw e (no_subscription e)
      | inr (row, e) ↦
          elim (Option-cases (find (λ u. str_eq u.id row.subscription.user_id) db.users)) [
            | inl f ↦ rw (e, f) (no_user row e f)
            | inr (user, f) ↦
                elim (Option-cases (find (λ p. str_eq p.id row.subscription.plan_id) db.plans)) [
                  | inl g ↦ rw (e, f, g) (no_plan row e g)
                  | inr (plan, g) ↦ elim (Bool-cases (is_current clock row.subscription user)) [
                    | inr k ↦ rw (e, f, g, k) (not_current row user e f k)
                    | inl k ↦
                        elim (Option-cases
                          (choose_node text_lt row.subscription.preferred_region db.nodes)) [
                            | inl l ↦
                                rw (e, f, g, k, l)
                                  (no_node row e (
                                    none-offers text_lt row.subscription.preferred_region db.nodes
                                      l))
                            | inr (node, l) ↦
                                let o =
                                  chosen-offers text_lt row.subscription.preferred_region db.nodes
                                    node l in
                                rw (e, f, g, k, l)
                                  (record {
                                    row = row;
                                    user = user;
                                    plan = plan;
                                    node = node;
                                    subscription_found = e;
                                    user_found = f;
                                    plan_found = g;
                                    current = k;
                                    chosen = l;
                                    offered = o.0;
                                    listed = o.1;
                                    shown = refl;
                                  })
                          ]
                  ]
                ]
          ]
    ]

-- An answer of Access, from what it says.
pub Served-access :
    (text_lt : String → String → Bool) (clock : Time) (reality : RealityConfig) (id : String)
    (db : Tables) (a : SubscriptionAccess)
    → Served text_lt clock reality id db a
    → access text_lt clock reality id db ≡ ok a
unfolding access
Served-access text_lt clock reality id db a h =
    rw (h.subscription_found, h.user_found, h.plan_found, h.current, h.chosen)
      (ap (λ x. ok x) (sym h.shown))
