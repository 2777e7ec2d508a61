-- ===== src/Panel/Traffic/Accounts.antt =====
-- The bytes that services/panel-api/internal/traffic counts for a subscription.
use mathlib.Core.Path.{subst}
use lenker_panel.Base.{
  ℕ, ◌≡◌, refl, sym, ap, ◌∙◌, String, Bool, true, false, Option, none, some, List, [], ◌∷◌, ◌++◌, ℤ,
  pos, Time, Result, ok, err, Bool-cases, Option-cases, inl, inr, arith, if◌then◌else◌, not, is_neg,
}
use lenker_panel.Panel.Nodes.{find, update_where, any}
use lenker_panel.Panel.Nodes.Tables.{find-updated, find-append, find-true}
use lenker_panel.Panel.Subscriptions.{Subscription, StoredSubscription, is_named, is_limit}
use lenker_panel.Panel.Subscriptions.Lifecycle.{with_subscription}
use lenker_panel.Panel.Subscriptions.Rows.{find-any}
use lenker_panel.Panel.Traffic.{
  TrafficQuota, QuotaRow, TrafficTables, TrafficError, next, ensure, plus, is_quota_of, upsert,
  check_quota_row, constraint_violated,
}
use lenker_panel.Panel.Traffic.Quotas.{increment_quota, new_quota, grown, update_usage, plus_used}

-- Where both steps succeed, so did the first, and the second from what it left.
pub next-eq-ok {ℓ κ} :
    {A : Type ℓ} {B : Type κ} (m : Result TrafficError A × TrafficTables)
    (k : A → TrafficTables → Result TrafficError B × TrafficTables) (b : B) (t : TrafficTables)
    → next m k ≡ (ok b, t)
    → (a : A) × ((t' : TrafficTables) × (m ≡ (ok a, t')) × (k a t' ≡ (ok b, t)))
next-eq-ok (err e, t') k b t h = cc
next-eq-ok (ok a, t') k b t h = (a, (t', refl, h))

-- the quota of a subscription counts what the subscription does; without one, nothing is counted
abbrev pub Agrees : StoredSubscription → Option QuotaRow → Type 0
Agrees s none = s.subscription.traffic_used_bytes ≡ pos 0
Agrees s (some q) = q.bytes_used ≡ s.subscription.traffic_used_bytes

pub record IsBalanced (id : String) (used : ℤ) (t : TrafficTables) : Type 0 where
  pub row : StoredSubscription
  pub stored : find (is_named id) t.tables.subscriptions ≡ some row
  pub used_eq : row.subscription.traffic_used_bytes ≡ used
  pub agrees : Agrees row (find (is_quota_of id) t.quotas)

ensured :
    (b : Bool) (e : TrafficError) (t t' : TrafficTables) (u : Unit {0})
    → ensure b e t ≡ (ok u, t')
    → t ≡ t'
ensured true e t t' u h = ap (λ x. x.1) h
ensured false e t t' u h = cc

check_quota_row-kept :
    (r : QuotaRow) (t t' : TrafficTables) (u : Unit {0}) → check_quota_row r t ≡ (ok u, t') → t ≡ t'
unfolding check_quota_row
check_quota_row-kept r t t' u h =
    let (_, (t1, first, second)) =
      next-eq-ok
        (ensure (is_limit r.bytes_limit) (constraint_violated "traffic_quotas_bytes_limit_check") t)
        _ u t' h in
    ensured _ _ t t1 _ first ∙ ensured _ _ t1 t' _ second

module _ {ℓ} {A : Type ℓ} where
  none-any : (p : A → Bool) (xs : List A) → find p xs ≡ none → any p xs ≡ false
  unfolding find any
  none-any p [] h = refl
  none-any p (x ∷ xs) h = elim (Bool-cases (p x)) [
    | inl e ↦ let z : some x ≡ none = rw e at h in cc
    | inr e ↦ rw e (none-any p xs (rw e at h))
  ]

-- what upsert leaves
module _ (id : String) (made : Subscription → QuotaRow)
    (changed : Subscription → QuotaRow → QuotaRow) (s : StoredSubscription) (t : TrafficTables)
    (stored : find (is_named id) t.tables.subscriptions ≡ some s) where
  upsert-made :
      (quota : TrafficQuota) (t' : TrafficTables)
      → find (is_quota_of id) t.quotas ≡ none
      → upsert id made changed t ≡ (ok quota, t')
      → t' ≡ record t { quotas = t.quotas ++ (made s.subscription ∷ []) }
  unfolding upsert
  upsert-made quota t' nothing h =
      let (_, (t1, kept, done)) =
        next-eq-ok (check_quota_row (made s.subscription) t) _ quota t'
          (rw (stored, nothing) at h) in
      let same = check_quota_row-kept (made s.subscription) t t1 _ kept in
      sym (ap (λ x. x.1) done)
      ∙ ap
          (λ (x : TrafficTables). record x {
            quotas =
                if any (is_quota_of id) x.quotas
                then update_where (is_quota_of id) (changed s.subscription) x.quotas
                else x.quotas ++ (made s.subscription ∷ []);
          })
          (sym same)
      ∙ rw (none-any (is_quota_of id) t.quotas nothing) refl

  upsert-changed :
      (q : QuotaRow) (quota : TrafficQuota) (t' : TrafficTables)
      → find (is_quota_of id) t.quotas ≡ some q
      → upsert id made changed t ≡ (ok quota, t')
      → t' ≡ record t { quotas = update_where (is_quota_of id) (changed s.subscription) t.quotas }
  unfolding upsert
  upsert-changed q quota t' there h =
      let (_, (t1, kept, done)) =
        next-eq-ok (check_quota_row (changed s.subscription q) t) _ quota t'
          (rw (stored, there) at h) in
      let same = check_quota_row-kept (changed s.subscription q) t t1 _ kept in
      sym (ap (λ x. x.1) done)
      ∙ ap
          (λ (x : TrafficTables). record x {
            quotas =
                if any (is_quota_of id) x.quotas
                then update_where (is_quota_of id) (changed s.subscription) x.quotas
                else x.quotas ++ (made s.subscription ∷ []);
          })
          (sym same)
      ∙ rw (find-any (is_quota_of id) t.quotas q there) refl

-- two checks that pass leave the tables to what follows
checked_twice {ℓ} :
    {A : Type ℓ} (a b : Bool) (e e' : TrafficError)
    (k : TrafficTables → Result TrafficError A × TrafficTables) (t t' : TrafficTables) (x : A)
    → next (ensure a e t) (λ _ t1. next (ensure b e' t1) (λ _. k)) ≡ (ok x, t')
    → k t ≡ (ok x, t')
checked_twice true true e e' k t t' x h = h
checked_twice true false e e' k t t' x h = cc
checked_twice false b e e' k t t' x h = cc

-- what the update of the subscription's usage leaves
update_usage-Changed :
    (now : Time) (id : String) (f : Subscription → Subscription) (t t' : TrafficTables)
    (s : StoredSubscription) (b : Bool)
    → find (is_named id) t.tables.subscriptions ≡ some s
    → update_usage now id f t ≡ (ok b, t')
    → t' ≡ record t {
      tables = record t.tables {
        subscriptions = update_where (is_named id) (with_subscription now f) t.tables.subscriptions;
      };
    }
unfolding update_usage
update_usage-Changed now id f t t' s b stored h =
    let written =
      checked_twice (is_limit (f s.subscription).traffic_limit_bytes)
        (not (is_neg (f s.subscription).traffic_used_bytes))
        (constraint_violated "subscriptions_traffic_limit_bytes_check")
        (constraint_violated "subscriptions_traffic_used_bytes_check") _ t t' b (rw stored at h) in
    sym (ap (λ x. x.1) written)

-- nothing and `n`
from_zero : (used : ℤ) (n : ℕ) → used ≡ pos 0 → pos n ≡ plus used (pos n)
from_zero used n e = rw e (ap pos (omega arith))

module _ (now : Time) (quota_id id : String) (delta : ℕ) where
  abbrev made : Subscription → QuotaRow
  made s = new_quota quota_id now s.traffic_limit_bytes (pos delta) none s

  abbrev grow : Subscription → QuotaRow → QuotaRow
  grow s = grown now (pos delta)

  -- the quota that is found after the first statement
  counted :
      (t t1 : TrafficTables) (quota : TrafficQuota) (used : ℤ) (h : IsBalanced id used t)
      → upsert id made grow t ≡ (ok quota, t1)
      → (t1.tables ≡ t.tables)
        × ((q : QuotaRow) × (find (is_quota_of id) t1.quotas ≡ some q)
            × (q.bytes_used ≡ plus h.row.subscription.traffic_used_bytes (pos delta)))
  unfolding new_quota grown
  counted t t1 quota used h e = elim (Option-cases (find (is_quota_of id) t.quotas)) [
    | inl n ↦
        let left = upsert-made id made grow h.row t h.stored quota t1 n e in
        (
          ap (λ x. x.tables) left,
          (
            made h.row.subscription,
            ap (λ x. find (is_quota_of id) x.quotas) left
                ∙ find-append (is_quota_of id) t.quotas (made h.row.subscription)
                    (none-any (is_quota_of id) t.quotas n)
                    (find-true (is_named id) t.tables.subscriptions h.row h.stored),
            from_zero h.row.subscription.traffic_used_bytes delta (subst (Agrees h.row) n h.agrees),
          ),
        )
    | inr (q, k) ↦
        let left = upsert-changed id made grow h.row t h.stored q quota t1 k e in
        (
          ap (λ x. x.tables) left,
          (
            grown now (pos delta) q,
            ap (λ x. find (is_quota_of id) x.quotas) left
                ∙ find-updated (is_quota_of id) (grown now (pos delta)) t.quotas q (λ y. refl) k,
            ap (λ u. plus u (pos delta)) (subst (Agrees h.row) k h.agrees),
          ),
        )
  ]

  balanced :
      (used : ℤ) (t t1 t2 : TrafficTables) (quota : TrafficQuota) (b : Bool)
      → IsBalanced id used t
      → upsert id made grow t ≡ (ok quota, t1)
      → update_usage now id (plus_used (pos delta)) t1 ≡ (ok b, t2)
      → IsBalanced id (plus used (pos delta)) t2
  unfolding plus_used
  balanced used t t1 t2 quota b h upserted updated =
      let f = plus_used (pos delta) in
      let (tables, (q, found, same)) = counted t t1 quota used h upserted in
      let stored = ap (λ x. find (is_named id) x.subscriptions) tables ∙ h.stored in
      let changed = update_usage-Changed now id f t1 t2 h.row b stored updated in
      record {
        row = with_subscription now f h.row;
        stored =
            ap (λ x. find (is_named id) x.tables.subscriptions) changed
            ∙ find-updated (is_named id) (with_subscription now f) t1.tables.subscriptions h.row
                (λ y. refl) stored;
        used_eq = ap (λ u. plus u (pos delta)) h.used_eq;
        agrees =
            subst (Agrees (with_subscription now f h.row))
              (sym (ap (λ x. find (is_quota_of id) x.quotas) changed ∙ found)) same;
      }

  -- An increment of the quota of a subscription whose quota counts what the subscription does, or that
  -- has no quota and no bytes, adds the bytes to both, which still agree.
  pub increment-IsBalanced :
      (used : ℤ) (t : TrafficTables) (q : TrafficQuota) (t' : TrafficTables)
      → IsBalanced id used t
      → increment_quota now quota_id id (pos delta) t ≡ (ok q, t')
      → IsBalanced id (plus used (pos delta)) t'
  unfolding increment_quota
  increment-IsBalanced used t q t' h e =
      let (quota, (t1, upserted, more)) = next-eq-ok (upsert id made grow t) _ q t' e in
      let (b, (t2, updated, done)) =
        next-eq-ok (update_usage now id (plus_used (pos delta)) t1) _ q t' more in
      subst (IsBalanced id (plus used (pos delta))) (ap (λ x. x.1) done)
        (balanced used t t1 t2 quota b h upserted updated)
