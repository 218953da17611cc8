-- ===== src/Value/Count.antt =====
-- The conversion of a count that capabilities.ts and monitoring.ts write out in the same words: a
-- finite number is taken, a text that is not blank goes through `Number.parseInt`, and all else has
-- no count.
use ansible_aam.Prelude.{◌≡◌, inl, inr, Option, none, some, if◌then◌else◌, Bool-cases}
use ansible_aam.Prelude.Int.{ℤ}
use ansible_aam.Prelude.Text.{trim, is_blank}
use ansible_aam.Prelude.Text.Numbers.{Number, nan, infinity, neg_infinity, int, parse_int}
use ansible_aam.Value.{Value, num, str}

-- `Number.isFinite(n) ? n : null`.
abbrev pub finite_or_null : Number → Option Number
finite_or_null (int z) = some (int z)
finite_or_null _ = none

-- asNumber of capabilities.ts: `null` is `none`.
unfoldable pub as_number : Value → Option Number
unfolding parse_int trim
as_number (num n) = finite_or_null n
as_number (str s) = if is_blank s then none else finite_or_null (parse_int s)
as_number _ = none

finite_or_null-finite :
    (m : Number) {n : Number} → finite_or_null m ≡ some n → (z : ℤ) × (n ≡ int z)
finite_or_null-finite (int z) h = (z, cc)
finite_or_null-finite nan h = cc
finite_or_null-finite infinity h = cc
finite_or_null-finite neg_infinity h = cc

-- Whatever is counted is a finite number.
pub as_number-finite : (v : Value) {n : Number} → as_number v ≡ some n → (z : ℤ) × (n ≡ int z)
unfolding as_number
as_number-finite (num m) h = finite_or_null-finite m h
as_number-finite (str s) h = elim (Bool-cases (is_blank s)) [
  | inl e ↦ cc (rw e at h)
  | inr e ↦ finite_or_null-finite (parse_int s) (rw e at h)
]
as_number-finite _ h = cc
