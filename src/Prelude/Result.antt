-- ===== src/Prelude/Result.antt =====
-- A computation that may throw: the message of the error, or the value.
use Prim.Native.String.{String}
use mathlib.Core.Path.{◌≡◌, refl}
use mathlib.Core.Logic.{◌⊎◌, inl, inr}
use mathlib.Core.Bool.{Bool, true, false}

pub data Result {ℓ} (T : Type ℓ) : Type ℓ where
  err : (message : String) → Result T
  ok : (value : T) → Result T

-- What follows a computation is done only if it did not throw.
infixl 5 ◌>>=◌
abbrev pub ◌>>=◌ {ℓ κ} :
    {T : Type ℓ} {U : Type κ} (first : Result T) (next : T → Result U) → Result U
err message >>= next = err message
ok value >>= next = next value

-- The same for a computation whose value is of no interest.
infixl 5 ◌>>◌
abbrev pub ◌>>◌ {ℓ} : {U : Type ℓ} (check : Result (Unit {0})) (next : Result U) → Result U
err message >> next = err message
ok done >> next = next

-- `if (test) throw new Error(message)`.
abbrev pub throw_if : Bool → String → Result (Unit {0})
throw_if true message = err message
throw_if false message = ok tt

pub Result-cases {ℓ} :
    {T : Type ℓ} (r : Result T)
    → ((message : String) × (r ≡ err message)) ⊎ ((value : T) × (r ≡ ok value))
Result-cases (err message) = inl (message, refl)
Result-cases (ok value) = inr (value, refl)

-- Whether a computation did not throw.
abbrev pub is_ok {ℓ} : {T : Type ℓ} → Result T → Bool
is_ok (ok value) = true
is_ok (err message) = false
