-- ===== src/Tests/Subscriptions.antt =====
-- The theorems on subscriptions, tokens and invites, at tables with one subscription.
use lenker_panel.Base.{
  ◌≡◌, refl, String, Bool, true, false, none, some, List, [], ◌∷◌, pos, ok, err, arith, inl, inr,
  str_eq, trim_space, ◌≤◌, Bool-cases,
}
use lenker_panel.Crypto.Hex.{encode_to_string}
use lenker_panel.Panel.Nodes.{find, update_where, any}
use lenker_panel.Panel.Nodes.Bootstrap.{hash_string}
use lenker_panel.Panel.Render.{default_reality_config}
use lenker_panel.Panel.Subscriptions.{
  Subscription, HandoffInviteRow, Tables, invalid_access_token, invalid_handoff_token,
  check_subscription,
}
use lenker_panel.Panel.Subscriptions.Lifecycle.{
  find_subscription, renew, update_subscription, extended, check_changed,
}
use lenker_panel.Panel.Subscriptions.Access.{
  access, SubscriptionAccess, choose_node, offers, export,
}
use lenker_panel.Panel.Subscriptions.Access.Explained.{Explains, access-Explains}
use lenker_panel.Panel.Subscriptions.AccessTokens.{
  SubscriptionAccessToken, replace_access_token, replace_access_token_in_tx, revoke_access_token,
  subscription_id_by_token, access_by_token, ensure_subscription_eligible_for_access_token,
  check_access_token, new_access_token_row, revoke_active, is_active_of, revoked,
  new_subscription_access_token, access_token_status, current_token, token_count,
}
use lenker_panel.Panel.Subscriptions.Handoff.{
  SubscriptionHandoffClaim, claim_handoff_invite, is_claimable, is_pending_of,
}
use lenker_panel.Panel.Subscriptions.Rows.{count}
use lenker_panel.Panel.Subscriptions.Calls.{Call, issues, renews, claims, left, calls}
use lenker_panel.Panel.Subscriptions.OneActive.{IsTokenTable, IsInviteTable}
use lenker_panel.Panel.Subscriptions.Consistent.{IsConsistent, calls-IsConsistent}
use lenker_panel.Panel.Subscriptions.Spent.{claimed_once, spent_for_good, by_revoke}
use lenker_panel.Panel.Subscriptions.Opening.{
  issued_token_opens, claimed_token_opens, renewed_until, renewal_leaves_token,
}
use lenker_panel.Tests.{constant}
use lenker_panel.Tests.Nodes.{one_row}

abbrev by_text : String → String → Bool
by_text a b = false

abbrev pub one_subscription : Subscription
one_subscription = record {
  id = "s";
  user_id = "u";
  plan_id = "p";
  status = "active";
  starts_at = 10;
  expires_at = 100;
  traffic_limit_bytes = none;
  traffic_used_bytes = pos 0;
  device_limit = pos 3;
  preferred_region = none;
}

abbrev an_invite : HandoffInviteRow
an_invite = record {
  id = "i";
  subscription_id = "s";
  token_hash = hash_string constant "invite";
  status = "active";
  expires_at = 90;
  claimed_at = none;
  created_at = 20;
  updated_at = 20;
}

abbrev pub one_table : Tables
one_table = record {
  subscriptions = record { subscription = one_subscription; created_at = 10; updated_at = 10 } ∷ [];
  users = record { id = "u"; email = "u@example.org"; display_name = ""; status = "active" } ∷ [];
  plans =
      record {
        id = "p";
        name = "Basic";
        status = "active";
        duration_days = pos 30;
        traffic_limit_bytes = none;
        device_limit = pos 3;
      }
      ∷ [];
  nodes =
      record one_row.node { status = "active"; drain_state = "active"; hostname = "a.example.org" }
      ∷ [];
  access_tokens = [];
  handoff_invites = an_invite ∷ [];
}

single {ℓ} : {A : Type ℓ} (p : A → Bool) (x : A) → count p (x ∷ []) ≤ 1
unfolding count
single p x = elim (Bool-cases (p x)) [ inl e ↦ rw e (omega arith) | inr e ↦ rw e (omega arith) ]

small_tokens : IsTokenTable one_table.access_tokens
unfolding count
small_tokens = record { one_active = λ id. omega arith; one_hash = λ hash. omega arith }

small_invites : IsInviteTable one_table.handoff_invites
small_invites = record {
  one_active = λ id. single (is_pending_of id) an_invite;
  one_hash = λ hash. single (λ r. str_eq r.token_hash hash) an_invite;
}

one_table-IsConsistent : IsConsistent one_table
unfolding check_subscription
one_table-IsConsistent = record {
  tokens = small_tokens;
  invites = small_invites;
  subscriptions = (refl, tt);
}

abbrev some_calls : List Call
some_calls = issues 30 (1 ∷ []) "s" ∷ renews 40 "s" (pos 1) ∷ claims 50 50 (2 ∷ []) "invite" ∷ []

calls-IsConsistent_example :
    IsConsistent (calls constant by_text default_reality_config some_calls one_table)
calls-IsConsistent_example =
    calls-IsConsistent constant by_text default_reality_config some_calls one_table
      one_table-IsConsistent

access-Explains_example :
    Explains by_text 50 default_reality_config "s" one_table
      (access by_text 50 default_reality_config "s" one_table)
access-Explains_example = access-Explains by_text 50 default_reality_config "s" one_table

-- the subscription's first token, and what it leaves
abbrev issued_tables : Tables
issued_tables = left one_table (replace_access_token constant 30 (1 ∷ []) "s" one_table)

abbrev issued_token : SubscriptionAccessToken
issued_token = record {
  subscription_id = "s";
  token = new_subscription_access_token (1 ∷ []);
  expires_at = 100;
  created_at = 30;
}

issues_token :
    replace_access_token constant 30 (1 ∷ []) "s" one_table ≡ ok (issued_token, issued_tables)
unfolding replace_access_token replace_access_token_in_tx find update_where any check_access_token
    ensure_subscription_eligible_for_access_token new_access_token_row revoke_active
issues_token = refl

issued_token_opens_example :
    subscription_id_by_token constant 99 issued_token.token issued_tables ≡ ok "s"
issued_token_opens_example =
    issued_token_opens constant 30 (1 ∷ []) "s" one_table issued_token issued_tables issues_token 99
      refl

abbrev renewed_tables : Tables
renewed_tables = left issued_tables (renew 40 "s" (pos 1) issued_tables)

abbrev renewed_subscription : Subscription
renewed_subscription = record one_subscription { expires_at = 86400000000100 }

renews_it : renew 40 "s" (pos 1) issued_tables ≡ ok (renewed_subscription, renewed_tables)
unfolding renew update_subscription extended check_changed check_subscription replace_access_token
    replace_access_token_in_tx find update_where any check_access_token
    ensure_subscription_eligible_for_access_token new_access_token_row revoke_active
renews_it = refl

renewal_leaves_token_example :
    (renewed_subscription.status ≡ "active")
    × (renewed_subscription.expires_at ≡ renewed_until 40 (pos 1) issued_token.expires_at)
    × (subscription_id_by_token constant 150 issued_token.token renewed_tables
        ≡ err invalid_access_token)
renewal_leaves_token_example =
    renewal_leaves_token constant 30 (1 ∷ []) "s" one_table issued_token issued_tables issues_token
      40 (pos 1) renewed_subscription renewed_tables renews_it 150 refl

abbrev claimed_tables : Tables
claimed_tables =
    left one_table (
      claim_handoff_invite constant by_text 50 50 default_reality_config (2 ∷ []) "invite"
        one_table)

abbrev shown : SubscriptionAccess
shown =
    export default_reality_config one_subscription
      (record { id = "u"; email = "u@example.org"; display_name = ""; status = "active" })
      (record {
        id = "p";
        name = "Basic";
        status = "active";
        duration_days = pos 30;
        traffic_limit_bytes = none;
        device_limit = pos 3;
      })
      (record one_row.node {
        status = "active";
        drain_state = "active";
        hostname = "a.example.org";
      })

abbrev the_claim : SubscriptionHandoffClaim
the_claim = record {
  subscription_id = "s";
  access_token = new_subscription_access_token (2 ∷ []);
  access_token_expires_at = 100;
  claimed_at = 50;
  access = shown;
}

claims_it :
    claim_handoff_invite constant by_text 50 50 default_reality_config (2 ∷ []) "invite" one_table
    ≡ ok (the_claim, claimed_tables)
unfolding claim_handoff_invite is_claimable access choose_node offers find update_where any
    hash_string trim_space ensure_subscription_eligible_for_access_token replace_access_token_in_tx
    check_access_token new_access_token_row revoke_active encode_to_string
claims_it = refl

claimed_once_example :
    claim_handoff_invite constant by_text 70 70 default_reality_config
      (3 ∷ [])
      "invite"
      (calls constant by_text default_reality_config some_calls claimed_tables)
    ≡ err invalid_handoff_token
claimed_once_example =
    claimed_once constant by_text default_reality_config 50 50 (2 ∷ []) "invite" one_table the_claim
      claimed_tables small_invites claims_it some_calls 70 70 (3 ∷ [])

claimed_token_opens_example :
    access_by_token constant by_text 99 99 default_reality_config the_claim.access_token
      claimed_tables
    ≡ ok shown
claimed_token_opens_example =
    claimed_token_opens constant by_text default_reality_config 50 50 (2 ∷ []) "invite" one_table
      the_claim claimed_tables claims_it 99 99 refl refl

issued_tokens : IsTokenTable issued_tables.access_tokens
unfolding replace_access_token replace_access_token_in_tx find update_where any check_access_token
    ensure_subscription_eligible_for_access_token revoke_active
issued_tokens = record {
  one_active = λ id. single (is_active_of id) _;
  one_hash = λ hash. single (λ r. str_eq r.token_hash hash) _;
}

abbrev revoked_tables : Tables
revoked_tables = left issued_tables (revoke_access_token 60 "s" issued_tables)

revokes_it :
    revoke_access_token 60 "s" issued_tables
    ≡ ok (
      record {
        subscription_id = "s";
        status = "revoked";
        issued = true;
        issued_at = some 30;
        revoked_at = some 60;
        generation = 1;
      },
      revoked_tables,
    )
unfolding revoke_access_token access_token_status find_subscription current_token token_count
    replace_access_token replace_access_token_in_tx find update_where any check_access_token revoked
    ensure_subscription_eligible_for_access_token new_access_token_row revoke_active is_active_of
revokes_it = refl

spent_for_good_example :
    (subscription_id_by_token constant 80 issued_token.token
        (calls constant by_text default_reality_config some_calls revoked_tables)
      ≡ err invalid_access_token)
    × (access_by_token constant by_text 80 80 default_reality_config issued_token.token
          (calls constant by_text default_reality_config some_calls revoked_tables)
        ≡ err invalid_access_token)
spent_for_good_example =
    spent_for_good constant by_text default_reality_config 50 issued_token.token "s" issued_tables
      revoked_tables issued_tokens
      (issued_token_opens constant 30 (1 ∷ []) "s" one_table issued_token issued_tables issues_token
        50 refl)
      (by_revoke 60 _ revokes_it) some_calls 80 80
