-- ===== src/Crypto.antt =====
-- What both services take from crypto/hmac, crypto/sha256 and encoding/hex. The hash and the
-- authentication code are parameters; the hexadecimal text is modelled.
pub mod Hex
use lenker_panel.Base.{
  ℕ, ◌<◌, length, ◌≡◌, refl, String, Bool, true, false, ◌&&◌, List, [], ◌∷◌, All, ◌==◌, ==_iff,
}
use lenker_panel.Json.{Fields}
use lenker_panel.Json.Wire.{canon_fields}

pub record Crypto : Type 0 where
  -- sha256.Sum256(json.Marshal(payload)), for a map and for the nil map
  pub sum : Fields → List ℕ
  pub null_sum : List ℕ
  -- the HMAC-SHA256 of a text under the development key
  pub mac : String → List ℕ
  -- sha256.Sum256([]byte(text))
  pub digest : String → List ℕ
  pub sum_bytes : (m : Fields) → All (λ b. b < 256) (sum m)
  pub sum_length : (m : Fields) → length (sum m) ≡ 32
  pub mac_length : (t : String) → length (mac t) ≡ 32
  pub mac_bytes : (t : String) → All (λ b. b < 256) (mac t)
  -- json.Marshal writes a whole float64 as it writes the integer
  pub sum_canon : (m : Fields) → sum (canon_fields m) ≡ sum m

-- hmac.Equal
abbrev pub bytes_eq : List ℕ → List ℕ → Bool
bytes_eq [] [] = true
bytes_eq (a ∷ as') (b ∷ bs) = a == b && bytes_eq as' bs
bytes_eq [] (_ ∷ _) = false
bytes_eq (_ ∷ _) [] = false

pub bytes_eq_refl : (bs : List ℕ) → bytes_eq bs bs ≡ true
bytes_eq_refl [] = refl
bytes_eq_refl (b ∷ bs) = rw ((==_iff b b).1 refl) (bytes_eq_refl bs)
