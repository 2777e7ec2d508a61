-- ===== src/Agent/Restoring/Events.antt =====
-- The runtime events of state.json, written and read.
use lenker_panel.Agent.Restoring.Decoded.{IsTrimmed, IsExactInt, IsTimeText, IsStorableEvent}
use lenker_panel.Base.{
  ◌≡◌, refl, sym, ◌∙◌, ap, ◌≤◌, String, true, List, [], ◌∷◌, map, ℤ, pos, int_eq, int_eq_iff, All,
  length, arith, str_eq, is_empty, Bool-cases, inl, inr, if◌then◌else◌,
}
use lenker_panel.Json.{
  Value, null, int, text, obj, Fields, end, field, get, array, as_text, as_object, as_array,
  number_as_int, elems-items,
}
use lenker_panel.Json.Wire.{wire, wire_fields, get-wire_fields}
use lenker_panel.Json.Decoded.{number_as_int-wire, as_array-wire}
use lenker_panel.Agent.Model.{RuntimeEvent}
use lenker_panel.Agent.Service.{limited}
use lenker_panel.Agent.Machine.{Host}
use lenker_panel.Agent.Staging.{or_empty}
use lenker_panel.Agent.Persisting.{unless_empty, unless_zero, event_value, events_value}
use lenker_panel.Agent.Restoring.{
  or_int, int_from_state, string_from_state, time_from_state, event_from_state, with_event,
  collected, elements, runtime_events_from_state,
}

get-unless_empty :
    (key k s : String) (m : Fields)
    → get key (unless_empty k s m)
      ≡ (if str_eq k key then (if is_empty s then get key m else text s) else get key m)
unfolding unless_empty
get-unless_empty key k s m = elim (Bool-cases (is_empty s)) [
  | inl e ↦ rw e (elim (Bool-cases (str_eq k key)) [ inl c ↦ rw c refl | inr c ↦ rw c refl ])
  | inr e ↦ rw e refl
]

get-unless_zero :
    (key k : String) (n : ℤ) (m : Fields)
    → get key (unless_zero k n m)
      ≡ (if str_eq k key then (if int_eq n (pos 0) then get key m else int n) else get key m)
unfolding unless_zero
get-unless_zero key k n m = elim (Bool-cases (int_eq n (pos 0))) [
  | inl e ↦ rw e (elim (Bool-cases (str_eq k key)) [ inl c ↦ rw c refl | inr c ↦ rw c refl ])
  | inr e ↦ rw e refl
]

empty_text : (s : String) → is_empty s ≡ true → "" ≡ s
empty_text String.[] h = refl
empty_text (String.◌∷◌ c s) h = cc

text_or_null : (s : String) → or_empty (as_text (wire (if is_empty s then null else text s))) ≡ s
unfolding wire
text_or_null s = elim (Bool-cases (is_empty s)) [
  | inl e ↦ rw e (empty_text s e)
  | inr e ↦ rw e refl
]

int_or_null :
    (n : ℤ)
    → IsExactInt n
    → or_int (number_as_int (wire (if int_eq n (pos 0) then null else int n))) (pos 0) ≡ n
unfolding wire
int_or_null n h = elim (Bool-cases (int_eq n (pos 0))) [
  | inl e ↦ rw e (sym ((int_eq_iff n (pos 0)).0 e))
  | inr e ↦ rw (e, number_as_int-wire (int n) h) refl
]

abbrev written : Host → RuntimeEvent → Fields
written host e = field "type" (text e.type) (
    field "status" (text e.status) (
      unless_zero "revision_number" e.revision_number (
        unless_empty "message" e.message (
          unless_empty "runtime_mode" e.runtime_mode (
            unless_empty "runtime_process_mode" e.runtime_process_mode (
              unless_empty "runtime_process_state" e.runtime_process_state
                (field "at" (text (host.time_text e.at)) end)))))))

event_value-eq : (host : Host) (e : RuntimeEvent) → event_value host e ≡ obj (written host e)
unfolding event_value
event_value-eq host e = refl

module _ (host : Host) (e : RuntimeEvent) where
  abbrev sent : Fields
  sent = wire_fields (written host e)

  optional :
      (key s : String)
      → get key (written host e) ≡ (if is_empty s then null else text s)
      → IsTrimmed s
      → string_from_state sent key ≡ s
  unfolding string_from_state
  optional key s v h = rw (get-wire_fields key (written host e), v, text_or_null s) h

  given :
      (key s : String)
      → get key (written host e) ≡ text s
      → IsTrimmed s
      → string_from_state sent key ≡ s
  unfolding string_from_state wire
  given key s v h = rw (get-wire_fields key (written host e), v) h

  number :
      IsExactInt e.revision_number
      → int_from_state sent "revision_number" (pos 0) ≡ e.revision_number
  unfolding int_from_state
  number h =
      rw (get-wire_fields "revision_number" (written host e))
        (simp (get-unless_empty, get-unless_zero) (int_or_null e.revision_number h))

  time : IsTimeText host e.at → time_from_state host sent "at" ≡ e.at
  unfolding time_from_state wire
  time h =
      rw (get-wire_fields "at" (written host e))
        (simp (get-unless_empty, get-unless_zero, h.1, h.0))

  pub event_from_state-event_value : IsStorableEvent host e → event_from_state host sent ≡ e
  unfolding event_from_state
  event_from_state-event_value h =
      rw
        (
          given "type" e.type refl h.type,
          given "status" e.status refl h.status,
          number h.revision_number,
          optional "message" e.message (simp (get-unless_empty, get-unless_zero)) h.message,
          optional "runtime_mode" e.runtime_mode (simp (get-unless_empty, get-unless_zero))
              h.runtime_mode,
          optional "runtime_process_mode" e.runtime_process_mode
              (simp (get-unless_empty, get-unless_zero)) h.runtime_process_mode,
          optional "runtime_process_state" e.runtime_process_state
              (simp (get-unless_empty, get-unless_zero)) h.runtime_process_state,
          time h.at,
        )
        refl

module _ (host : Host) where
  with_event-sent :
      (e : RuntimeEvent) (es : List RuntimeEvent)
      → IsStorableEvent host e
      → with_event host (as_object (wire (event_value host e))) es ≡ e ∷ es
  unfolding wire
  with_event-sent e es h =
      rw (event_value-eq host e, event_from_state-event_value host e h, h.named) refl

  collected-written :
      (es : List RuntimeEvent)
      → All (IsStorableEvent host) es
      → collected host (map wire (map (event_value host) es)) ≡ es
  collected-written [] h = refl
  collected-written (e ∷ es) h = rw (collected-written es h.1) (with_event-sent e es h.0)

  limited_all : (es : List RuntimeEvent) → length es ≤ 20 → limited es ≡ es
  unfolding limited
  limited_all es h = ground arith

  elements-array : (vs : List Value) → elements host (as_array (wire (array vs))) ≡ map wire vs
  elements-array vs = rw (as_array-wire (array vs), elems-items vs) refl

  no_events-written : runtime_events_from_state host (wire (events_value host [])) ≡ []
  unfolding runtime_events_from_state events_value wire
  no_events-written = limited_all [] (omega arith)

  -- Events that their texts give back are read as they were written.
  pub runtime_events-written :
      (es : List RuntimeEvent)
      → All (IsStorableEvent host) es
      → length es ≤ 20
      → runtime_events_from_state host (wire (events_value host es)) ≡ es
  unfolding runtime_events_from_state events_value
  runtime_events-written [] h short = no_events-written
  runtime_events-written (e ∷ es) h short =
      ap (λ (vs : List Value). limited (collected host vs))
        (elements-array (map (event_value host) (e ∷ es)))
      ∙ ap limited (collected-written (e ∷ es) h)
      ∙ limited_all (e ∷ es) short
