-- ===== src/Panel/Nodes/Canonical.antt =====
-- The normal forms of services/panel-api/internal/storage/nodes.go.
use lenker_panel.Base.{
  ℕ, ◌≤◌, ◌-◌, ◌≡◌, refl, String, Bool, true, false, List, [], ◌∷◌, map, length, length-drop, All,
  arith, Time, ltb, Bool-cases, inl, inr, trim_space, str_eq, if◌then◌else◌, ◌&&◌, byte_length, cut,
  char_count, char_count-cut, char_count-byte_length, char_count-trim_space,
}
use lenker_panel.Json.Gate.{contains}
use lenker_panel.Agent.Service.Trail.{take_last, take_last_all}
use lenker_panel.Panel.Nodes.{RuntimeEvent}
use lenker_panel.Panel.Nodes.Normalize.{
  shorten, compact_runtime_event_message, normalize_runtime_event, normalize_runtime_events,
}

-- A second normalization of this text changes nothing.
abbrev pub IsStable : (String → String) → String → Type 0
IsStable f value = f (f value) ≡ f value

abbrev fixes : (String → String) → List String → Bool
fixes f [] = true
fixes f (k ∷ ks) = str_eq (f k) k && fixes f ks

-- The trimmed text is kept if it is one of these texts, and is otherwise replaced by the default; a
-- second normalization changes nothing.
abbrev pub Normalizes : List String → String → (String → String) → String → Type 0
Normalizes texts d f value =
    (f value ≡ (if contains texts (trim_space value) then trim_space value else d))
    × IsStable f value

shorten_bounded : (message : String) → char_count (shorten message) ≤ 240
unfolding shorten
shorten_bounded message = elim (Bool-cases (ltb 240 (byte_length message))) [
  | inl e ↦
      rw e (omega (arith, char_count-trim_space (cut 240 message), char_count-cut 240 message))
  | inr e ↦ rw e (omega (arith, char_count-byte_length message, not_longer (byte_length message) e))
]
  where
    not_longer : (n : ℕ) → ltb 240 n ≡ false → n ≤ 240
    not_longer n h = ground arith

abbrev pub IsShort : RuntimeEvent → Type 0
IsShort event = char_count event.message ≤ 240

All-IsShort :
    (now : Time) (events : List RuntimeEvent)
    → All IsShort (map (normalize_runtime_event now) events)
unfolding normalize_runtime_event compact_runtime_event_message
All-IsShort now [] = tt
All-IsShort now (event ∷ r) = (shorten_bounded (trim_space event.message), All-IsShort now r)

length-map :
    (f : RuntimeEvent → RuntimeEvent) (events : List RuntimeEvent)
    → length (map f events) ≡ length events
length-map f [] = refl
length-map f (x ∷ xs) = omega (arith, length-map f xs)

last_twenty :
    (now : Time) (events : List RuntimeEvent)
    → normalize_runtime_events now events ≡ map (normalize_runtime_event now) (take_last 20 events)
unfolding normalize_runtime_events
last_twenty now events = elim (Bool-cases (ltb 20 (length events))) [
  | inl e ↦ rw e refl
  | inr e ↦
      let all : take_last 20 events ≡ events =
        take_last_all 20 events (not_longer (length events) e) in
      rw (e, all) refl
]
  where
    not_longer : (n : ℕ) → ltb 20 n ≡ false → n ≤ 20
    not_longer n h = ground arith

-- However many events a node sends, the last twenty are kept, in their order, each in its normal form,
-- with messages of at most 240 characters.
pub events_bounded :
    (now : Time) (events : List RuntimeEvent)
    → (normalize_runtime_events now events
        ≡ map (normalize_runtime_event now) (take_last 20 events))
      × (length (normalize_runtime_events now events) ≤ 20)
      × All IsShort (normalize_runtime_events now events)
events_bounded now events =
    let last = last_twenty now events in
    rw last (
      refl,
      omega (
        arith,
        length-map (normalize_runtime_event now) (take_last 20 events),
        length-drop (length events - 20) events,
      ),
      All-IsShort now (take_last 20 events),
    )
