-- ===== src/Prelude/Results.antt =====
-- A computation that returns a value or throws. What is thrown is kept as the text of its message.
use Prim.Native.String.{String}
use mathlib.Core.Path.{◌≡◌, refl}
use mathlib.Core.Logic.{◌⊎◌, inl, inr}
use mathlib.Core.Bool.{Bool, true, false}

pub data Result {κ} (Value : Type κ) : Type κ where
  throw : String → Result Value
  ok : Value → Result Value

-- What follows a computation runs on its value, and is skipped when it throws.
infixl 6 ◌>>=◌
abbrev pub ◌>>=◌ {κ μ} :
    {Value : Type κ} {Next : Type μ} → Result Value → (Value → Result Next) → Result Next
throw message >>= next = throw message
ok value >>= next = next value

-- `if (!condition) throw new Error(message)`.
abbrev pub require : Bool → String → Result (Unit {0})
require false message = throw message
require true message = ok tt

infixl 6 ◌>>◌
abbrev pub ◌>>◌ {μ} : {Next : Type μ} → Result (Unit {0}) → Result Next → Result Next
first >> next = first >>= (λ done. next)

pub ok-injective {κ} : {Value : Type κ} (x y : Value) → ok x ≡ ok y → x ≡ y
ok-injective x y same = cc

pub Result-cases {κ} :
    {Value : Type κ} (r : Result Value)
    → ((x : Value) × (r ≡ ok x)) ⊎ ((message : String) × (r ≡ throw message))
Result-cases (throw message) = inr (message, refl)
Result-cases (ok x) = inl (x, refl)

-- What is known when a required condition did not throw.
pub require-eq-ok {κ} :
    {Value : Type κ} (condition : Bool) (message : String) (rest : Result Value) {x : Value}
    → (require condition message >> rest) ≡ ok x
    → (condition ≡ true) × (rest ≡ ok x)
require-eq-ok false message rest returned = cc
require-eq-ok true message rest returned = (refl, returned)
