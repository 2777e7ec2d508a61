-- ===== src/Base/Errors.antt =====
-- A Go function with an error result: `return v, nil` is `ok v`, `return …, err` is `err e`.
use mathlib.Core.Path.{◌≡◌, refl}
use mathlib.Core.Bool.{Bool, true, false}
use mathlib.Core.Option.{Option, none, some}

pub data Result {ε α} (E : Type ε) (A : Type α) : Type (ε ⊔ α) where
  err : E → Result E A
  ok : A → Result E A

-- `if cond { return err }`, with the condition that lets the function go on
abbrev pub guard {ε} : {E : Type ε} → Bool → E → Result E (Unit {0})
guard false reason = err reason
guard true reason = ok tt

-- `v, ok := …; if !ok { return err }`
abbrev pub require {ε α} : {E : Type ε} {A : Type α} → Option A → E → Result E A
require none reason = err reason
require (some value) reason = ok value

-- `v, err := …; if err != nil { return err }`, then the rest
infixl 5 ◌>>=◌
abbrev pub ◌>>=◌ {ε α β} :
    {E : Type ε} {A : Type α} {B : Type β} → Result E A → (A → Result E B) → Result E B
err reason >>= rest = err reason
ok value >>= rest = rest value

-- the same without a value
infixl 5 ◌>>◌
abbrev pub ◌>>◌ {ε α β} :
    {E : Type ε} {A : Type α} {B : Type β} → Result E A → Result E B → Result E B
first >> rest = first >>= λ _. rest

-- Where the whole returns a value, so did the first step, and the rest from its value.
pub >>=-eq-ok {ε α β} :
    {E : Type ε} {A : Type α} {B : Type β} (first : Result E A) (rest : A → Result E B) {result : B}
    → (first >>= rest) ≡ ok result
    → (value : A) × (first ≡ ok value) × (rest value ≡ ok result)
>>=-eq-ok (err reason) rest returned = cc
>>=-eq-ok (ok value) rest returned = (value, refl, returned)

-- Two continuations that agree on the value of `m` agree after `m`.
pub bind_cong {ℓ κ μ} :
    {E : Type ℓ} {A : Type κ} {B : Type μ} (m : Result E A) (f g : A → Result E B)
    → ((a : A) → m ≡ ok a → f a ≡ g a)
    → (m >>= f) ≡ (m >>= g)
bind_cong (ok a) f g h = h a refl
bind_cong (err e) f g h = refl

pub require-eq-ok {ℓ κ} :
    {E : Type ℓ} {A : Type κ} (o : Option A) (e : E) (a : A) → require o e ≡ ok a → o ≡ some a
require-eq-ok (some b) e a h = cc
require-eq-ok none e a h = cc

-- A result has one value.
pub ok-injective {ℓ κ} :
    {E : Type ℓ} {A : Type κ} (m : Result E A) {a b : A} → m ≡ ok a → m ≡ ok b → a ≡ b
ok-injective m h k = cc

pub guard-eq-ok {ε} :
    {E : Type ε} (b : Bool) (reason : E) {u : Unit {0}} → guard b reason ≡ ok u → b ≡ true
guard-eq-ok true reason h = refl
guard-eq-ok false reason h = cc
