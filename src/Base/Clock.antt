-- ===== src/Base/Clock.antt =====
-- A time of Go's package time, in UTC: the nanoseconds since the zero time, which is the first of
-- January of the year 1, and Format(time.RFC3339).
use Prim.Native.String.{String}
use Prim.Native.Nat.{ℕ, suc, ◌+◌, ◌-◌, ◌*◌, ◌/◌, ◌%◌}
use mathlib.Core.Bool.{Bool, not, ◌&&◌, ◌||◌}
use mathlib.Core.List.{List, [], ◌∷◌}
use lenker_panel.Base.Int.{pos}
use lenker_panel.Base.Tests.{ltb, ◌==◌, if◌then◌else◌}
use lenker_panel.Base.Text.{append, decimal}

abbrev pub Time : Type 0
Time = ℕ

-- `t.IsZero()`
abbrev pub is_zero : Time → Bool
is_zero t = t == 0

-- `a.After(b)`
abbrev pub after : Time → Time → Bool
after a b = ltb b a

min : ℕ → ℕ → ℕ
min a b = if ltb a b then a else b

abbrev two_digits : ℕ → String
two_digits n = if ltb n 10 then append "0" (decimal (pos n)) else decimal (pos n)

abbrev four_digits : ℕ → String
four_digits n =
    if ltb n 10
    then append "000" (decimal (pos n))
    else if ltb n 100
    then append "00" (decimal (pos n))
    else if ltb n 1000
    then append "0" (decimal (pos n))
    else decimal (pos n)

-- The month and the day in it, for a day of the year counted from 0.
abbrev month_day : ℕ → ℕ → List ℕ → String
month_day month day [] = ""
month_day month day (size ∷ r) =
    let rest = month_day (suc month) (day - size) r in
    if ltb day size then append (two_digits month) (append "-" (two_digits (day + 1))) else rest

abbrev month_sizes : Bool → List ℕ
month_sizes leap =
    31 ∷ (if leap then 29 else 28) ∷ 31 ∷ 30 ∷ 31 ∷ 30 ∷ 31 ∷ 31 ∷ 30 ∷ 31 ∷ 30 ∷ 31 ∷ []

-- The date, for a number of days since the first of January of the year 1.
unfoldable pub date_text : ℕ → String
unfolding min
date_text days =
    let in_era = days % 146097 in
    let century = min 3 (in_era / 36524) in
    let in_century = in_era - century * 36524 in
    let cycle = in_century / 1461 in
    let in_cycle = in_century - cycle * 1461 in
    let year = min 3 (in_cycle / 365) in
    let leap = year == 3 && (not (cycle == 24) || century == 3) in
    append (four_digits (days / 146097 * 400 + century * 100 + cycle * 4 + year + 1))
      (append "-" (month_day 1 (in_cycle - year * 365) (month_sizes leap)))

-- `t.UTC().Format(time.RFC3339)`
unfoldable pub rfc3339 : Time → String
unfolding date_text
rfc3339 t =
    let seconds = t / 1000000000 in
    append (date_text (seconds / 86400)) (
      append "T" (
        append (two_digits (seconds / 3600 % 24)) (
          append ":" (
            append (two_digits (seconds / 60 % 60))
              (append ":" (append (two_digits (seconds % 60)) "Z"))))))
