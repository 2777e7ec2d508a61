-- ===== src/Json/Gate.antt =====
-- What the two validators of an Xray configuration share: their error and the helpers of their
-- checks. services/node-agent/internal/agent/xray_validator.go and
-- services/panel-api/internal/configrender/validate.go each have a copy.
use lenker_panel.Base.{
  ℕ, String, Bool, true, false, ◌||◌, List, [], ◌∷◌, Result, ◌>>=◌, require, guard, str_eq,
}
use lenker_panel.Json.{Fields, get, as_object, string_field}

-- ConfigValidationError, ValidationError; `at_client` is the wrapping `fmt.Errorf("%w: client_%d")`.
pub data GateError : Type 0 where
  invalid : (reason : String) → GateError
  at_client : GateError → ℕ → GateError

-- errors.As(err, &validationErr) and its Reason
abbrev pub reason : GateError → String
reason (invalid r) = r
reason (at_client e n) = reason e

abbrev pub Gate : Type 0 → Type 0
Gate A = Result GateError A

-- `if value, ok := stringField(values, key); !ok || value != expected`
abbrev pub require_text : Fields → String → String → String → Gate (Unit {0})
require_text values key expected why = do
  value ← require (string_field values key) (invalid why)
  guard (str_eq value expected) (invalid why)

abbrev pub require_object : Fields → String → String → Gate Fields
require_object values key why = require (as_object (get key values)) (invalid why)

abbrev pub contains : List String → String → Bool
contains [] t = false
contains (s ∷ r) t = str_eq s t || contains r t

abbrev pub is_nonempty {ℓ} : {A : Type ℓ} → List A → Bool
is_nonempty [] = false
is_nonempty (_ ∷ _) = true
