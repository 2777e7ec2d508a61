-- ===== src/Agent/Restoring/Decoded.antt =====
-- What RestoreRuntimeState reads from the state.json that PersistRuntimeState wrote.
use lenker_panel.Base.{
  ◌≡◌, refl, ◌∙◌, ap, ◌≤◌, ◌^◌, String, false, some, List, [], ◌∷◌, ℤ, Time, str_eq, eq_iff,
  is_empty, is_blank, trim_space, Bool-cases, inl, inr, if◌then◌else◌,
}
use lenker_panel.Json.{Value, int, text, Fields, get, put}
use lenker_panel.Json.Wire.{wire, wire_fields, get-wire_fields}
use lenker_panel.Json.Numbers.{magnitude}
use lenker_panel.Json.Decoded.{number_as_int-wire}
use lenker_panel.Json.Put.{get-put_same, get-put_other}
use lenker_panel.Agent.Model.{RuntimeEvent}
use lenker_panel.Agent.Machine.{Host}
use lenker_panel.Agent.Persisting.{assign_all}
use lenker_panel.Agent.Restoring.{
  int_from_state, string_from_state, string_from_state_default, time_from_state,
}

-- the value that a list of assignments leaves under a key
abbrev pub latest : String → List (String × Value) → Value → Value
latest key [] d = d
latest key ((k, v) ∷ r) d = latest key r (if str_eq k key then v else d)

get-put :
    (k key : String) (v : Value) (m : Fields)
    → get key (put k v m) ≡ (if str_eq k key then v else get key m)
get-put k key v m = elim (Bool-cases (str_eq k key)) [
  | inl e ↦ rw (e, (eq_iff k key).0 e) (get-put_same key v m)
  | inr e ↦ rw e (get-put_other k key v m e)
]

get-assign_all :
    (host : Host) (key : String) (kvs : List (String × Value)) (m : Fields)
    → get key (assign_all host kvs m) ≡ latest key kvs (get key m)
get-assign_all host key [] m = refl
get-assign_all host key ((k, v) ∷ r) m =
    get-assign_all host key r (put k v m) ∙ ap (λ d. latest key r d) (get-put k key v m)

-- texts that survive strings.TrimSpace
abbrev pub IsTrimmed : String → Type 0
IsTrimmed t = trim_space t ≡ t

abbrev pub IsExactInt : ℤ → Type 0
IsExactInt n = magnitude n ≤ 2 ^ 53

abbrev pub IsTimeText : Host → Time → Type 0
IsTimeText host t =
    (host.parse_time (host.time_text t) ≡ some t) × (is_blank (host.time_text t) ≡ false)

module _ (host : Host) (kvs : List (String × Value)) (m : Fields) where
  abbrev pub decoded : Fields
  decoded = wire_fields (assign_all host kvs m)

  pub get-decoded : (key : String) → get key decoded ≡ wire (latest key kvs (get key m))
  get-decoded key =
      get-wire_fields key (assign_all host kvs m) ∙ ap wire (get-assign_all host key kvs m)

  pub int-decoded :
      (key : String) (n d : ℤ)
      → latest key kvs (get key m) ≡ int n
      → IsExactInt n
      → int_from_state decoded key d ≡ n
  unfolding int_from_state
  int-decoded key n d e h = rw (get-decoded key, e, number_as_int-wire (int n) h) refl

  pub text-decoded :
      (key t : String)
      → latest key kvs (get key m) ≡ text t
      → IsTrimmed t
      → string_from_state decoded key ≡ t
  unfolding string_from_state wire
  text-decoded key t e h = rw (get-decoded key, e) h

  pub default-decoded :
      (key t d : String)
      → latest key kvs (get key m) ≡ text t
      → IsTrimmed t
      → is_empty t ≡ false
      → string_from_state_default decoded key d ≡ t
  unfolding string_from_state_default
  default-decoded key t d e h n = rw (text-decoded key t e h, n) refl

  pub time-decoded :
      (key : String) (t : Time)
      → latest key kvs (get key m) ≡ text (host.time_text t)
      → IsTimeText host t
      → time_from_state host decoded key ≡ t
  unfolding time_from_state wire
  time-decoded key t e h = rw (get-decoded key, e, h.1, h.0) refl

-- an event that its text gives back
pub record IsStorableEvent (host : Host) (e : RuntimeEvent) : Type 0 where
  pub type : IsTrimmed e.type
  pub named : is_empty e.type ≡ false
  pub status : IsTrimmed e.status
  pub revision_number : IsExactInt e.revision_number
  pub message : IsTrimmed e.message
  pub runtime_mode : IsTrimmed e.runtime_mode
  pub runtime_process_mode : IsTrimmed e.runtime_process_mode
  pub runtime_process_state : IsTrimmed e.runtime_process_state
  pub at : IsTimeText host e.at
