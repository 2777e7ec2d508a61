-- ===== src/Json/Wire.antt =====
-- A document after json.Marshal and json.Unmarshal into `any`: its integers are float64.
use lenker_panel.Base.{
  ℕ, zero, suc, ◌≤◌, ◌^◌, ◌≡◌, refl, ap, String, if◌then◌else◌, Bool, true, false, ◌&&◌, not, ◌==◌,
  leb, str_eq, ℤ, pos, negsuc, arith,
}
use lenker_panel.Json.{
  Value, null, bool, int, float, text, arr, obj, Items, stop, item, Fields, end, field, get,
}
use lenker_panel.Json.Numbers.{Float, float_of_int, round_53_exact, magnitude}

unfoldable mutual
  pub wire : Value → Value
  wire null = null
  wire (bool b) = bool b
  wire (int n) = float (float_of_int n)
  wire (float x) = float x
  wire (text s) = text s
  wire (arr vs) = arr (wire_items vs)
  wire (obj m) = obj (wire_fields m)

  pub wire_items : Items → Items
  wire_items stop = stop
  wire_items (item v vs) = item (wire v) (wire_items vs)

  pub wire_fields : Fields → Fields
  wire_fields end = end
  wire_fields (field k v m) = field k (wire v) (wire_fields m)

-- A lookup sees the decoded value.
pub get-wire_fields : (key : String) (m : Fields) → get key (wire_fields m) ≡ wire (get key m)
unfolding wire_fields wire
get-wire_fields key end = refl
get-wire_fields key (field k v m) = go (str_eq k key) (get-wire_fields key m)
  where
    go :
        (b : Bool)
        → get key (wire_fields m) ≡ wire (get key m)
        → (if b then wire v else get key (wire_fields m)) ≡ wire (if b then v else get key m)
    go true e = refl
    go false e = e

-- A float64 that json.Marshal writes as an integer: whole, not -0, and below 10 ^ 21.
abbrev is_plain : Float → Bool
is_plain x = x.scale == 0 && leb x.mantissa (10 ^ 20) && not (x.negative && x.mantissa == 0)

abbrev whole : Bool → ℕ → ℤ
whole false n = pos n
whole true zero = pos 0
whole true (suc n) = negsuc n

unfoldable pub canon_float : Float → Value
canon_float x = if is_plain x then int (whole x.negative x.mantissa) else float x

-- The document with each such float64 as the integer: both are written as the same text.
unfoldable mutual
  pub canon : Value → Value
  canon null = null
  canon (bool b) = bool b
  canon (int n) = int n
  canon (float x) = canon_float x
  canon (text s) = text s
  canon (arr vs) = arr (canon_items vs)
  canon (obj m) = obj (canon_fields m)

  pub canon_items : Items → Items
  canon_items stop = stop
  canon_items (item v vs) = item (canon v) (canon_items vs)

  pub canon_fields : Fields → Fields
  canon_fields end = end
  canon_fields (field k v m) = field k (canon v) (canon_fields m)

-- All integers of the document are at most 2 ^ 53, so that decoding does not round.
abbrev mutual
  pub IsExact : Value → Type 0
  IsExact null = Unit
  IsExact (bool b) = Unit
  IsExact (int n) = magnitude n ≤ 2 ^ 53
  IsExact (float x) = Unit
  IsExact (text s) = Unit
  IsExact (arr vs) = AreExact vs
  IsExact (obj m) = HasExact m

  pub AreExact : Items → Type 0
  AreExact stop = Unit
  AreExact (item v vs) = IsExact v × AreExact vs

  pub HasExact : Fields → Type 0
  HasExact end = Unit
  HasExact (field k v m) = IsExact v × HasExact m

canon-float_of_int : (n : ℤ) → magnitude n ≤ 2 ^ 53 → canon_float (float_of_int n) ≡ int n
unfolding canon_float float_of_int
canon-float_of_int (pos zero) h = rw (round_53_exact 0 h) refl
canon-float_of_int (pos (suc n)) h = rw (round_53_exact (suc n) h) (ground arith)
canon-float_of_int (negsuc n) h = rw (round_53_exact (suc n) h) (ground arith)

-- Decoding an exact document does not change its text.
mutual
  unfolding wire canon

  canon-wire : (v : Value) → IsExact v → canon (wire v) ≡ canon v
  canon-wire null h = refl
  canon-wire (bool b) h = refl
  canon-wire (int n) h = canon-float_of_int n h
  canon-wire (float x) h = refl
  canon-wire (text s) h = refl
  canon-wire (arr vs) h = ap arr (canon-wire_items vs h)
  canon-wire (obj m) h = ap obj (canon-wire_each m h)

  canon-wire_items : (vs : Items) → AreExact vs → canon_items (wire_items vs) ≡ canon_items vs
  canon-wire_items stop h = refl
  canon-wire_items (item v vs) h = rw (canon-wire v h.0, canon-wire_items vs h.1) refl

  canon-wire_each : (m : Fields) → HasExact m → canon_fields (wire_fields m) ≡ canon_fields m
  canon-wire_each end h = refl
  canon-wire_each (field k v m) h = rw (canon-wire v h.0, canon-wire_each m h.1) refl

pub canon-wire_fields : (m : Fields) → HasExact m → canon_fields (wire_fields m) ≡ canon_fields m
canon-wire_fields m h = canon-wire_each m h

mutual
  unfolding wire

  wire_twice : (v : Value) → wire (wire v) ≡ wire v
  wire_twice null = refl
  wire_twice (bool b) = refl
  wire_twice (int n) = refl
  wire_twice (float x) = refl
  wire_twice (text s) = refl
  wire_twice (arr vs) = ap arr (wire_items_twice vs)
  wire_twice (obj m) = ap obj (wire_each_twice m)

  wire_items_twice : (vs : Items) → wire_items (wire_items vs) ≡ wire_items vs
  wire_items_twice stop = refl
  wire_items_twice (item v vs) = rw (wire_twice v, wire_items_twice vs) refl

  wire_each_twice : (m : Fields) → wire_fields (wire_fields m) ≡ wire_fields m
  wire_each_twice end = refl
  wire_each_twice (field k v m) = rw (wire_twice v, wire_each_twice m) refl

-- A decoded document survives any number of further trips.
pub wire_fields_twice : (m : Fields) → wire_fields (wire_fields m) ≡ wire_fields m
wire_fields_twice m = wire_each_twice m
