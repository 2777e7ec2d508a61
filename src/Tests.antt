-- ===== src/Tests.antt =====
-- Concrete inputs, and the theorems at them.
pub mod Contracts
pub mod Devices
pub mod Agent
pub mod Nodes
pub mod Revisions
pub mod Service
pub mod States
pub mod Supervisor
pub mod Traffic
pub mod Subscriptions
use lenker_panel.Base.{ℕ, zero, suc, ◌<◌, ◌≡◌, refl, List, [], ◌∷◌, All, length, arith}
use lenker_panel.Crypto.{Crypto}

abbrev pub repeat : ℕ → List ℕ
repeat zero = []
repeat (suc n) = 7 ∷ repeat n

pub repeat-bytes : (n : ℕ) → All (λ b. b < 256) (repeat n)
repeat-bytes zero = tt
repeat-bytes (suc n) = (omega arith, repeat-bytes n)

-- A hash that does not depend on its input.
abbrev pub constant : Crypto
constant = record {
  sum = λ m. repeat 32;
  null_sum = repeat 32;
  mac = λ t. repeat 32;
  digest = λ t. repeat 32;
  sum_bytes = λ m. repeat-bytes 32;
  sum_length = λ m. refl;
  mac_length = λ t. refl;
  mac_bytes = λ t. repeat-bytes 32;
  sum_canon = λ m. refl;
}
