-- ===== src/Agent/Service/Trail.antt =====
-- The trail of runtime events that AppendRuntimeEvent keeps.
use lenker_panel.Base.{
  ℕ, zero, suc, ◌+◌, ◌-◌, ◌≤◌, ◌≡◌, refl, sym, ◌∙◌, ap, List, [], ◌∷◌, ◌++◌, length, drop,
  length-append, length-drop, arith, Time,
}
use lenker_panel.Agent.Model.{RuntimeEvent, Status}
use lenker_panel.Agent.Service.{completed, limited, append_runtime_event}

module _ {ℓ} {A : Type ℓ} where
  drop-append : (n : ℕ) (xs ys : List A) → n ≤ length xs → drop n (xs ++ ys) ≡ drop n xs ++ ys
  drop-append zero xs ys h = refl
  drop-append (suc n) [] ys h = let t : ⊥ = omega (arith, h) in elim t [ ]
  drop-append (suc n) (x ∷ xs) ys h = drop-append n xs ys (omega (arith, h))

  drop_empty : (n : ℕ) → drop {A = A} n [] ≡ []
  drop_empty zero = refl
  drop_empty (suc n) = refl

  drop-drop : (m n : ℕ) (xs : List A) → drop m (drop n xs) ≡ drop (n + m) xs
  drop-drop m zero xs = let e : 0 + m ≡ m = omega arith in rw e refl
  drop-drop m (suc n) [] = drop_empty m ∙ sym (drop_empty (suc n + m))
  drop-drop m (suc n) (x ∷ xs) =
      let e : suc n + m ≡ suc (n + m) = omega arith in rw e (drop-drop m n xs)

  append_nil : (xs : List A) → xs ++ [] ≡ xs
  append_nil [] = refl
  append_nil (x ∷ xs) = ap (λ t. x ∷ t) (append_nil xs)

  append_assoc : (xs ys zs : List A) → (xs ++ ys) ++ zs ≡ xs ++ (ys ++ zs)
  append_assoc [] ys zs = refl
  append_assoc (x ∷ xs) ys zs = ap (λ t. x ∷ t) (append_assoc xs ys zs)

  -- the last n elements
  abbrev pub take_last : ℕ → List A → List A
  take_last n xs = drop (length xs - n) xs

  pub take_last_all : (n : ℕ) (xs : List A) → length xs ≤ n → take_last n xs ≡ xs
  take_last_all n xs h = let none : length xs - n ≡ 0 = omega (arith, h) in rw none refl

  -- What the last elements lose, a longer list loses too.
  take_last_append :
      (n : ℕ) (xs ys : List A) → take_last n (take_last n xs ++ ys) ≡ take_last n (xs ++ ys)
  take_last_append n xs ys =
      let k = length xs - n in
      let split : take_last n xs ++ ys ≡ drop k (xs ++ ys) =
        sym (drop-append k xs ys (omega arith)) in
      let count : k + (length (drop k (xs ++ ys)) - n) ≡ length (xs ++ ys) - n =
        omega (arith, length-drop k (xs ++ ys), length-append xs ys) in
      ap (λ t. take_last n t) split
      ∙ drop-drop (length (drop k (xs ++ ys)) - n) k (xs ++ ys)
      ∙ ap (λ t. drop t (xs ++ ys)) count

limited-last : (events : List RuntimeEvent) → limited events ≡ take_last 20 events
unfolding limited
limited-last events = ground arith

-- the service's status after these events, each at its time
abbrev pub append_all : List (Time × RuntimeEvent) → Status → Status
append_all [] s = s
append_all ((now, event) ∷ events) s = append_all events (append_runtime_event now event s)

abbrev pub all_completed : Status → List (Time × RuntimeEvent) → List RuntimeEvent
all_completed s [] = []
all_completed s ((now, event) ∷ events) = completed s now event ∷ all_completed s events

-- What completes an event does not depend on the trail.
completed_after :
    (now : Time) (event : RuntimeEvent) (s : Status) (events : List (Time × RuntimeEvent))
    → all_completed (append_runtime_event now event s) events ≡ all_completed s events
unfolding append_runtime_event completed
completed_after now event s [] = refl
completed_after now event s ((at, e) ∷ events) =
    ap (λ t. completed s at e ∷ t) (completed_after now event s events)

pub limited-length : (events : List RuntimeEvent) → length (limited events) ≤ 20
limited-length events =
    rw (limited-last events) (omega (arith, length-drop (length events - 20) events))

-- After any runtime events, one after the other, the trail is the last twenty of all of them, the
-- earlier ones included, each completed with the service's modes, if it began with twenty at most.
pub trail-last :
    (events : List (Time × RuntimeEvent)) (s : Status)
    → length s.runtime_events ≤ 20
    → (append_all events s).runtime_events
      ≡ take_last 20 (s.runtime_events ++ all_completed s events)
unfolding append_runtime_event
trail-last [] s h = rw (append_nil s.runtime_events) (sym (take_last_all 20 s.runtime_events h))
trail-last ((now, event) ∷ events) s h =
    let new = s.runtime_events ++ completed s now event ∷ [] in
    trail-last events (append_runtime_event now event s) (limited-length new)
    ∙ ap (λ t. take_last 20 (limited new ++ t)) (completed_after now event s events)
    ∙ ap (λ t. take_last 20 (t ++ all_completed s events)) (limited-last new)
    ∙ take_last_append 20 new (all_completed s events)
    ∙ ap (λ t. take_last 20 t)
        (append_assoc s.runtime_events (completed s now event ∷ []) (all_completed s events))
