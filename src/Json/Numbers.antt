-- ===== src/Json/Numbers.antt =====
-- The numbers of a decoded document. A finite float64 is an integer divided by a power of two.
use lenker_panel.Base.{
  ℕ, zero, suc, ◌+◌, ◌*◌, ◌/◌, ◌%◌, ◌^◌, ◌≤◌, ◌≡◌, Bool, true, false, ◌&&◌, ◌||◌, Option, none,
  some, ℤ, pos, negsuc, if◌then◌else◌, ◌==◌, leb, ltb, arith,
}

-- mantissa / 2 ^ scale
pub record Float : Type 0 where
  pub negative : Bool
  pub mantissa : ℕ
  pub scale : ℕ

abbrev signed : Bool → ℕ → ℤ
signed false n = pos n
signed true zero = pos zero
signed true (suc n) = negsuc n

abbrev fits_int64 : Bool → ℕ → Bool
fits_int64 false n = ltb n (2 ^ 63)
fits_int64 true n = leb n (2 ^ 63)

-- `int(v)`, where `v == float64(int(v))`. Outside int64 Go leaves the conversion to the machine, and
-- the comparison is taken to fail.
unfoldable pub int_of_float : Float → Option ℤ
int_of_float x =
    let whole = x.mantissa / 2 ^ x.scale in
    if (x.mantissa % 2 ^ x.scale == 0) && fits_int64 x.negative whole
    then some (signed x.negative whole)
    else none

-- The number of low binary digits that 53 digits of mantissa leave no room for.
excess : ℕ → ℕ → ℕ
excess zero n = 0
excess (suc fuel) n = let more = excess fuel (n / 2) in if ltb n (2 ^ 53) then 0 else suc more

-- Round half to even at `k` dropped digits.
round_at : ℕ → ℕ → ℕ
round_at k n =
    let q = n / 2 ^ k in
    let r = n % 2 ^ k in
    if ltb (2 ^ k) (2 * r) || ((2 * r == 2 ^ k) && (q % 2 == 1)) then (q + 1) * 2 ^ k else q * 2 ^ k

-- The nearest float64, for a magnitude below 2 ^ 64.
unfoldable pub round_53 : ℕ → ℕ
unfolding excess round_at
round_53 n = if leb n (2 ^ 53) then n else round_at (excess 12 n) n

pub round_53_exact : (n : ℕ) → n ≤ 2 ^ 53 → round_53 n ≡ n
unfolding round_53
round_53_exact n h = ground arith

unfoldable pub float_of_int : ℤ → Float
float_of_int (pos n) = record { negative = false; mantissa = round_53 n; scale = 0 }
float_of_int (negsuc n) = record { negative = true; mantissa = round_53 (suc n); scale = 0 }

abbrev pub magnitude : ℤ → ℕ
magnitude (pos n) = n
magnitude (negsuc n) = suc n

-- Up to 2 ^ 53 an integer comes back from its float64 unchanged.
pub int_of_float-float_of_int :
    (n : ℤ) → magnitude n ≤ 2 ^ 53 → int_of_float (float_of_int n) ≡ some n
unfolding int_of_float float_of_int
int_of_float-float_of_int (pos n) h = rw (round_53_exact n h) (ground arith)
int_of_float-float_of_int (negsuc n) h = rw (round_53_exact (suc n) h) (ground arith)
