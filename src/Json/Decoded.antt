-- ===== src/Json/Decoded.antt =====
-- The type assertions on a decoded document.
use mathlib.Core.Option
use mathlib.Core.Option.{some-injective}
use mathlib.Core.Path.{subst}
use lenker_panel.Base.{
  ◌≡◌, refl, String, str_eq, none, some, List, [], ◌∷◌, map, All, inl, inr, ◌⊎◌, Bool-cases,
  Option-cases,
}
use lenker_panel.Json.{
  Value, null, bool, int, arr, obj, Items, stop, item, Fields, end, field, get, elems, has_key,
  as_object, as_array, as_text, as_bool, number_as_int, string_field, string_array, texts,
}
use lenker_panel.Json.Numbers.{int_of_float-float_of_int}
use lenker_panel.Json.Wire.{
  wire, wire_items, wire_fields, get-wire_fields, IsExact, AreExact, HasExact,
}

pub as_text-wire : (v : Value) → as_text (wire v) ≡ as_text v
unfolding wire
as_text-wire null = refl
as_text-wire (bool b) = refl
as_text-wire _ = refl

pub as_bool-wire : (v : Value) → as_bool (wire v) ≡ as_bool v
unfolding wire
as_bool-wire null = refl
as_bool-wire _ = refl

pub as_object-wire : (v : Value) → as_object (wire v) ≡ Option.map wire_fields (as_object v)
unfolding wire
as_object-wire null = refl
as_object-wire _ = refl

elems-wire_items : (vs : Items) → elems (wire_items vs) ≡ map wire (elems vs)
unfolding wire_items
elems-wire_items stop = refl
elems-wire_items (item v vs) = rw (elems-wire_items vs) refl

pub as_array-wire : (v : Value) → as_array (wire v) ≡ Option.map (map wire) (as_array v)
unfolding wire
as_array-wire (arr vs) = rw (elems-wire_items vs) refl
as_array-wire _ = refl

texts-wire : (vs : List Value) → texts (map wire vs) ≡ texts vs
texts-wire [] = refl
texts-wire (v ∷ vs) = rw (as_text-wire v, texts-wire vs) refl

pub number_as_int-wire : (v : Value) → IsExact v → number_as_int (wire v) ≡ number_as_int v
unfolding wire
number_as_int-wire (int n) h = int_of_float-float_of_int n h
number_as_int-wire _ h = refl

pub string_array-wire : (v : Value) → string_array (wire v) ≡ string_array v
unfolding wire
string_array-wire (arr vs) = rw (elems-wire_items vs) (texts-wire (elems vs))
string_array-wire _ = refl

pub string_field-wire :
    (m : Fields) (key : String) → string_field (wire_fields m) key ≡ string_field m key
string_field-wire m key = rw (get-wire_fields key m, as_text-wire (get key m)) refl

pub has_key-wire : (key : String) (m : Fields) → has_key key (wire_fields m) ≡ has_key key m
unfolding wire_fields
has_key-wire key end = refl
has_key-wire key (field k v m) = rw (has_key-wire key m) refl

pub IsExact-get : (key : String) (m : Fields) → HasExact m → IsExact (get key m)
IsExact-get key end h = tt
IsExact-get key (field k v m) h = elim (Bool-cases (str_eq k key)) [
  | inl e ↦ rw e h.0
  | inr e ↦ rw e (IsExact-get key m h.1)
]

pub HasExact-of_object : (v : Value) (m : Fields) → IsExact v → as_object v ≡ some m → HasExact m
HasExact-of_object (obj m) n h e = subst HasExact (some-injective _ _ e) h
HasExact-of_object null n h e = cc
HasExact-of_object _ n h e = cc

All-AreExact : (vs : Items) → AreExact vs → All IsExact (elems vs)
All-AreExact stop h = tt
All-AreExact (item v vs) h = (h.0, All-AreExact vs h.1)

pub AreExact-of_array :
    (v : Value) (vs : List Value) → IsExact v → as_array v ≡ some vs → All IsExact vs
AreExact-of_array (arr vs) ws h e = subst (All IsExact) (some-injective _ _ e) (All-AreExact vs h)
AreExact-of_array null ws h e = cc
AreExact-of_array _ ws h e = cc

-- A nested map or list of an exact document is exact.
pub object-cases :
    (key : String) (m : Fields)
    → HasExact m
    → (as_object (get key m) ≡ none)
      ⊎ ((n : Fields) × (as_object (get key m) ≡ some n) × HasExact n)
object-cases key m h = elim (Option-cases (as_object (get key m))) [
  | inl e ↦ inl e
  | inr (n, e) ↦ inr (n, e, HasExact-of_object (get key m) n (IsExact-get key m h) e)
]

pub array-cases :
    (key : String) (m : Fields)
    → HasExact m
    → (as_array (get key m) ≡ none)
      ⊎ ((vs : List Value) × (as_array (get key m) ≡ some vs) × All IsExact vs)
array-cases key m h = elim (Option-cases (as_array (get key m))) [
  | inl e ↦ inl e
  | inr (vs, e) ↦ inr (vs, e, AreExact-of_array (get key m) vs (IsExact-get key m h) e)
]
