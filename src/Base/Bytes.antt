-- ===== src/Base/Bytes.antt =====
-- The length of a Go string in bytes, and its prefixes: a Go string is cut between bytes, and
-- encoding/json writes each byte of a character that was cut as U+FFFD.
use Prim.Native.Char.{Char, code}
use Prim.Native.String.{String}
use Prim.Native.Nat.{ℕ, zero, suc, ◌+◌, ◌-◌, ◌≤◌}
use mathlib.Core.Path.{◌≡◌, refl}
use native.Mathlib.Omega.{arith}
use lenker_panel.Base.Tests.{ltb, leb, if◌then◌else◌, Bool-cases, leb→le}
use mathlib.Core.Logic.{inl, inr}
use lenker_panel.Base.Text.{is_space, trim_left, trim_right, trim_space, is_empty}
use mathlib.Core.Bool.{false, ◌&&◌}

unfoldable pub char_bytes : Char → ℕ
char_bytes c =
    if ltb (code c) 0x80
    then 1
    else if ltb (code c) 0x800
    then 2
    else if ltb (code c) 0x10000
    then 3
    else 4

-- `len(s)`
unfoldable pub byte_length : String → ℕ
unfolding char_bytes
byte_length String.[] = 0
byte_length (String.◌∷◌ c s) = char_bytes c + byte_length s

unfoldable pub replacements : ℕ → String
replacements zero = String.[]
replacements (suc n) = String.◌∷◌ "�" (replacements n)

-- `s[:n]`, as it is stored
unfoldable pub cut : ℕ → String → String
unfolding char_bytes replacements
cut n String.[] = String.[]
cut n (String.◌∷◌ c s) =
    let rest = cut (n - char_bytes c) s in
    if leb (char_bytes c) n then String.◌∷◌ c rest else replacements n

-- The number of characters.
unfoldable pub char_count : String → ℕ
char_count String.[] = 0
char_count (String.◌∷◌ c s) = suc (char_count s)

char_bytes-positive : (c : Char) → 1 ≤ char_bytes c
unfolding char_bytes
char_bytes-positive c = ground arith

char_count-replacements : (n : ℕ) → char_count (replacements n) ≡ n
unfolding char_count replacements
char_count-replacements zero = refl
char_count-replacements (suc n) = omega (arith, char_count-replacements n)

pub char_count-cut : (n : ℕ) (s : String) → char_count (cut n s) ≤ n
unfolding char_count cut
char_count-cut n String.[] = omega arith
char_count-cut n (String.◌∷◌ c s) = elim (Bool-cases (leb (char_bytes c) n)) [
  | inl e ↦
      rw e (omega (arith, char_bytes-positive c, leb→le _ _ e, char_count-cut (n - char_bytes c) s))
  | inr e ↦ rw (e, char_count-replacements n) (omega arith)
]

pub char_count-byte_length : (s : String) → char_count s ≤ byte_length s
unfolding char_count byte_length
char_count-byte_length String.[] = omega arith
char_count-byte_length (String.◌∷◌ c s) =
    omega (arith, char_bytes-positive c, char_count-byte_length s)

char_count-trim_left : (s : String) → char_count (trim_left s) ≤ char_count s
unfolding char_count trim_left
char_count-trim_left String.[] = omega arith
char_count-trim_left (String.◌∷◌ c s) = elim (Bool-cases (is_space (code c))) [
  | inl e ↦ rw e (omega (arith, char_count-trim_left s))
  | inr e ↦ rw e (omega arith)
]

char_count-trim_right : (s : String) → char_count (trim_right s) ≤ char_count s
unfolding char_count trim_right
char_count-trim_right String.[] = omega arith
char_count-trim_right (String.◌∷◌ c s) =
    elim (Bool-cases (is_space (code c) && is_empty (trim_right s))) [
      | inl e ↦ rw e (omega arith)
      | inr e ↦ rw e (omega (arith, char_count-trim_right s))
    ]

pub char_count-trim_space : (s : String) → char_count (trim_space s) ≤ char_count s
unfolding trim_space
char_count-trim_space s = omega (arith, char_count-trim_left s, char_count-trim_right (trim_left s))

-- Trimming a text that trimming gave.
data Trimmed : String → Type 0 where
  nothing : Trimmed String.[]
  visible : (c : Char) (s : String) → is_space (code c) ≡ false → Trimmed (String.◌∷◌ c s)

trim_left-Trimmed : (s : String) → Trimmed (trim_left s)
unfolding trim_left
trim_left-Trimmed String.[] = nothing
trim_left-Trimmed (String.◌∷◌ c s) = elim (Bool-cases (is_space (code c))) [
  | inl e ↦ rw e (trim_left-Trimmed s)
  | inr e ↦ rw e (visible c s e)
]

trim_right_twice : (s : String) → trim_right (trim_right s) ≡ trim_right s
unfolding trim_right
trim_right_twice String.[] = refl
trim_right_twice (String.◌∷◌ c s) =
    elim (Bool-cases (is_space (code c) && is_empty (trim_right s))) [
      | inl e ↦ rw e refl
      | inr e ↦ rw e (rw (trim_right, trim_right_twice s, e) refl)
    ]

trim_left-trim_right : (s : String) → Trimmed s → trim_left (trim_right s) ≡ trim_right s
unfolding trim_left trim_right
trim_left-trim_right _ nothing = refl
trim_left-trim_right _ (visible c s h) = rw (h, trim_left, h) refl

pub trim_space_twice : (s : String) → trim_space (trim_space s) ≡ trim_space s
unfolding trim_space
trim_space_twice s =
    rw (trim_left-trim_right (trim_left s) (trim_left-Trimmed s)) (trim_right_twice (trim_left s))
