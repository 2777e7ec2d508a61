-- ===== src/Json.antt =====
-- What encoding/json decodes a document to, and the type assertions that both services make on it:
-- stringField, stringArray and numberAsInt of services/node-agent/internal/agent/xray_validator.go
-- and service.go, and their copies in services/panel-api/internal/configrender/validate.go.
pub mod Numbers
pub mod Gate
pub mod Wire
pub mod Put
pub mod Decoded
use lenker_panel.Base.{
  ℕ, String, Bool, true, false, Option, none, some, List, [], ◌∷◌, ℤ, ◌≡◌, refl, if◌then◌else◌,
  str_eq, is_blank,
}
use Numbers.{Float, int_of_float}

-- Go's `any`: `int` is an `int` or an `int64`, which no code here tells apart, `float` a `float64`.
mutual
  pub data Value : Type 0 where
    null : Value
    bool : Bool → Value
    int : ℤ → Value
    float : Float → Value
    text : String → Value
    arr : Items → Value
    obj : Fields → Value

  -- `map[string]any`: the first entry of a key counts
  pub data Fields : Type 0 where
    end : Fields
    field : String → Value → Fields → Fields

  pub data Items : Type 0 where
    stop : Items
    item : Value → Items → Items

abbrev pub elems : Items → List Value
elems stop = []
elems (item v vs) = v ∷ elems vs

abbrev pub items : List Value → Items
items [] = stop
items (v ∷ vs) = item v (items vs)

abbrev pub fields : List (String × Value) → Fields
fields [] = end
fields ((k, v) ∷ r) = field k v (fields r)

abbrev pub array : List Value → Value
array vs = arr (items vs)

abbrev pub object : List (String × Value) → Value
object r = obj (fields r)

-- `m[key]`; a missing key gives stop
abbrev pub get : String → Fields → Value
get key end = null
get key (field k v r) = if str_eq k key then v else get key r

abbrev pub has_key : String → Fields → Bool
has_key key end = false
has_key key (field k v r) = if str_eq k key then true else has_key key r

-- `m[key] = v`
abbrev pub put : String → Value → Fields → Fields
put key w end = field key w end
put key w (field k v r) = if str_eq k key then field k w r else field k v (put key w r)

-- the type assertions
abbrev pub as_object : Value → Option Fields
as_object (obj m) = some m
as_object _ = none

abbrev pub as_array : Value → Option (List Value)
as_array (arr vs) = some (elems vs)
as_array _ = none

abbrev pub as_text : Value → Option String
as_text (text s) = some s
as_text _ = none

abbrev pub as_bool : Value → Option Bool
as_bool (bool b) = some b
as_bool _ = none

abbrev pub number_as_int : Value → Option ℤ
number_as_int (int n) = some n
number_as_int (float x) = int_of_float x
number_as_int _ = none

abbrev unless_blank : Option String → Option String
unless_blank none = none
unless_blank (some s) = if is_blank s then none else some s

-- The text under a key, if it is not blank.
abbrev pub string_field : Fields → String → Option String
string_field values key = unless_blank (as_text (get key values))

abbrev prepend : Option String → Option (List String) → Option (List String)
prepend (some s) (some r) = some (s ∷ r)
prepend _ _ = none

abbrev pub texts : List Value → Option (List String)
texts [] = some []
texts (v ∷ vs) = prepend (as_text v) (texts vs)

abbrev texts_of : Option (List Value) → Option (List String)
texts_of none = none
texts_of (some vs) = texts vs

abbrev pub string_array : Value → Option (List String)
string_array v = texts_of (as_array v)

pub elems-items : (vs : List Value) → elems (items vs) ≡ vs
elems-items [] = refl
elems-items (v ∷ vs) = rw (elems-items vs)
