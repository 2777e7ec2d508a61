-- ===== src/Json/Put.antt =====
-- Assignment to a map's key.
use lenker_panel.Base.{◌≡◌, refl, sym, String, false, str_eq, eq_refl, eq_iff, Bool-cases, inl, inr}
use mathlib.Core.Path.{subst}
use lenker_panel.Json.{
  Value, null, bool, int, float, text, arr, obj, Items, stop, item, Fields, end, field, get, put,
}
use lenker_panel.Json.Wire.{wire, wire_items, wire_fields, IsExact, AreExact, HasExact}

pub get-put_same : (k : String) (v : Value) (m : Fields) → get k (put k v m) ≡ v
get-put_same k v end = rw (eq_refl k) refl
get-put_same k v (field j w m) = elim (Bool-cases (str_eq j k)) [
  | inl e ↦ simp (e)
  | inr e ↦ simp (e, get-put_same k v m)
]

pub get-put_other :
    (k l : String) (v : Value) (m : Fields) → str_eq k l ≡ false → get l (put k v m) ≡ get l m
get-put_other k l v end h = rw h refl
get-put_other k l v (field j w m) h = elim (Bool-cases (str_eq j k)) [
  | inl e ↦
      let same : str_eq j l ≡ false = subst (λ t. str_eq t l ≡ false) (sym ((eq_iff j k).0 e)) h in
      simp (e, same)
  | inr e ↦ simp (e, get-put_other k l v m h)
]

pub HasExact-put :
    (k : String) (v : Value) (m : Fields) → IsExact v → HasExact m → HasExact (put k v m)
HasExact-put k v end h g = (h, tt)
HasExact-put k v (field j w m) h g = elim (Bool-cases (str_eq j k)) [
  | inl e ↦ rw e (h, g.1)
  | inr e ↦ rw e (g.0, HasExact-put k v m h g.1)
]

-- What has been decoded has no integers that decoding would round.
mutual
  unfolding wire

  wire-IsExact : (v : Value) → IsExact (wire v)
  wire-IsExact null = tt
  wire-IsExact (bool b) = tt
  wire-IsExact (int n) = tt
  wire-IsExact (float x) = tt
  wire-IsExact (text s) = tt
  wire-IsExact (arr vs) = wire-AreExact vs
  wire-IsExact (obj m) = wire-HasEach m

  wire-AreExact : (vs : Items) → AreExact (wire_items vs)
  wire-AreExact stop = tt
  wire-AreExact (item v vs) = (wire-IsExact v, wire-AreExact vs)

  wire-HasEach : (m : Fields) → HasExact (wire_fields m)
  wire-HasEach end = tt
  wire-HasEach (field k v m) = (wire-IsExact v, wire-HasEach m)

pub wire_fields-HasExact : (m : Fields) → HasExact (wire_fields m)
wire_fields-HasExact m = wire-HasEach m
