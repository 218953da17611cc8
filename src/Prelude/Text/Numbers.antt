-- ===== src/Prelude/Text/Numbers.antt =====
-- JavaScript numbers whose finite values are integers, `Number.parseInt(s, 10)` and `String(n)`.
-- Fractions, -0 and the rounding of integers beyond 2^53 are not modelled.
use Prim.Native.Nat.{ℕ, zero, suc, ◌+◌, ◌-◌, ◌*◌, ◌/◌, ◌%◌, ◌<◌}
use Prim.Native.Char.{Char, code}
use Prim.Native.String.{String}
use mathlib.Core.Path.{◌≡◌, refl, ap, ◌∙◌}
use mathlib.Core.Bool.{Bool, true, false, not, ◌&&◌}
use mathlib.Core.Option.{Option, none, some}
use mathlib.Core.Logic.{inl, inr}
use native.Mathlib.Omega.{arith}
use ansible_aam.Prelude.Tests.{ltb, leb, eqb, if◌then◌else◌, Bool-cases, or_else}
use ansible_aam.Prelude.Int.{ℤ, pos, negsuc, sub_ℕ, ◌+ℤ◌, ltb_ℤ, eqb_ℤ}
use ansible_aam.Prelude.Text.{is_space, trim_start}

pub data Number : Type 0 where
  nan infinity neg_infinity : Number
  int : ℤ → Number

-- `Number.isFinite(n)`.
abbrev pub is_finite : Number → Bool
is_finite (int z) = true
is_finite _ = false

-- A number in a condition: 0 and NaN are falsy.
abbrev pub truthy_number : Number → Bool
truthy_number nan = false
truthy_number (int z) = not (eqb_ℤ z (pos 0))
truthy_number _ = true

-- `a + b`.
abbrev pub add : Number → Number → Number
add (int a) (int b) = int (a +ℤ b)
add nan b = nan
add a nan = nan
add infinity neg_infinity = nan
add neg_infinity infinity = nan
add infinity b = infinity
add neg_infinity b = neg_infinity
add a infinity = infinity
add a neg_infinity = neg_infinity

-- `a < b`.
abbrev pub less : Number → Number → Bool
less nan b = false
less a nan = false
less (int a) (int b) = ltb_ℤ a b
less infinity b = false
less a neg_infinity = false
less a b = true

-- `a === b`.
abbrev pub same_number : Number → Number → Bool
same_number (int a) (int b) = eqb_ℤ a b
same_number infinity infinity = true
same_number neg_infinity neg_infinity = true
same_number a b = false

abbrev pub is_digit : ℕ → Bool
is_digit c = leb 48 c && leb c 57

-- The digits at the front of a text, read after those of `acc`.
unfoldable pub read_digits : Option ℕ → String → Option ℕ
read_digits acc String.[] = acc
read_digits acc (String.◌∷◌ c s) =
    let more = read_digits (some (or_else acc 0 * 10 + (code c - 48))) s in
    if is_digit (code c) then more else acc

abbrev positive : Option ℕ → Number
positive none = nan
positive (some n) = int (pos n)

abbrev negative : Option ℕ → Number
negative none = nan
negative (some n) = int (sub_ℕ 0 n)

-- After the white space: a sign, and digits.
unfoldable pub read_signed : String → Number
unfolding read_digits
read_signed String.[] = nan
read_signed (String.◌∷◌ c s) =
    if eqb (code c) 45
    then negative (read_digits none s)
    else if eqb (code c) 43
    then positive (read_digits none s)
    else positive (read_digits none (String.◌∷◌ c s))

-- `Number.parseInt(s, 10)`.
unfoldable pub parse_int : String → Number
unfolding read_signed trim_start is_space
parse_int s = read_signed (trim_start s)

digit : ℕ → Char
digit zero = "0"
digit (suc zero) = "1"
digit (suc (suc zero)) = "2"
digit (suc (suc (suc zero))) = "3"
digit (suc (suc (suc (suc zero)))) = "4"
digit (suc (suc (suc (suc (suc zero))))) = "5"
digit (suc (suc (suc (suc (suc (suc zero)))))) = "6"
digit (suc (suc (suc (suc (suc (suc (suc zero))))))) = "7"
digit (suc (suc (suc (suc (suc (suc (suc (suc zero)))))))) = "8"
digit _ = "9"

-- The decimal digits of `n` in front of `rest`; more fuel than `n` is enough.
show_from : ℕ → ℕ → String → String
show_from zero n rest = rest
show_from (suc f) n rest =
    let more = show_from f (n / 10) (String.◌∷◌ (digit (n % 10)) rest) in
    if ltb n 10 then String.◌∷◌ (digit n) rest else more

-- `String(n)` of a natural number.
unfoldable pub show_nat : ℕ → String
unfolding show_from digit
show_nat n = show_from (suc n) n ""

-- `String(n)`.
unfoldable pub show : Number → String
unfolding show_nat
show nan = "NaN"
show infinity = "Infinity"
show neg_infinity = "-Infinity"
show (int (pos n)) = show_nat n
show (int (negsuc n)) = String.◌∷◌ "-" (show_nat (suc n))

code-digit : (n : ℕ) → n < 10 → code (digit n) ≡ 48 + n
unfolding digit
code-digit zero h = refl
code-digit (suc zero) h = refl
code-digit (suc (suc zero)) h = refl
code-digit (suc (suc (suc zero))) h = refl
code-digit (suc (suc (suc (suc zero)))) h = refl
code-digit (suc (suc (suc (suc (suc zero))))) h = refl
code-digit (suc (suc (suc (suc (suc (suc zero)))))) h = refl
code-digit (suc (suc (suc (suc (suc (suc (suc zero))))))) h = refl
code-digit (suc (suc (suc (suc (suc (suc (suc (suc zero)))))))) h = refl
code-digit (suc (suc (suc (suc (suc (suc (suc (suc (suc zero))))))))) h = refl
code-digit (suc (suc (suc (suc (suc (suc (suc (suc (suc (suc n)))))))))) h = absurd (omega arith)

is_digit-digit : (n : ℕ) → n < 10 → is_digit (code (digit n)) ≡ true
is_digit-digit n h = rw (code-digit n h) (ground arith)

read_digits-digit :
    (acc : Option ℕ) (n m : ℕ) (s : String)
    → n < 10
    → or_else acc 0 * 10 + n ≡ m
    → read_digits acc (String.◌∷◌ (digit n) s) ≡ read_digits (some m) s
unfolding read_digits
read_digits-digit acc n m s h e =
    rw (is_digit-digit n h) (ap (λ k. read_digits (some k) s) (omega (arith, code-digit n h)))

read_digits-show_from :
    (f n : ℕ) (rest : String)
    → n < f
    → read_digits none (show_from f n rest) ≡ read_digits (some n) rest
unfolding show_from
read_digits-show_from zero n rest h = absurd (omega arith)
read_digits-show_from (suc f) n rest h = elim (Bool-cases (ltb n 10)) [
  | inl small ↦ rw small (read_digits-digit none n n rest (ground arith) (omega arith))
  | inr large ↦ rw large (
      read_digits-show_from f (n / 10) _ (ground arith)
      ∙ read_digits-digit (some (n / 10)) (n % 10) n rest (omega arith) (omega arith))
]

-- A text that begins with a decimal digit.
abbrev StartsDigit : String → Type 0
StartsDigit String.[] = ⊥
StartsDigit (String.◌∷◌ c s) = is_digit (code c) ≡ true

show_from-StartsDigit : (f n : ℕ) (rest : String) → n < f → StartsDigit (show_from f n rest)
unfolding show_from
show_from-StartsDigit zero n rest h = absurd (omega arith)
show_from-StartsDigit (suc f) n rest h = elim (Bool-cases (ltb n 10)) [
  | inl small ↦ rw small (is_digit-digit n (ground arith))
  | inr large ↦ rw large (show_from-StartsDigit f (n / 10) _ (ground arith))
]

parse_int_of_StartsDigit :
    (s : String) → StartsDigit s → parse_int s ≡ positive (read_digits none s)
unfolding parse_int read_signed trim_start is_space
parse_int_of_StartsDigit String.[] h = absurd h
parse_int_of_StartsDigit (String.◌∷◌ c s) h = ground arith

-- Reading a printed natural number gives it back.
pub parse_int-show_nat : (n : ℕ) → parse_int (show_nat n) ≡ int (pos n)
unfolding show_nat
parse_int-show_nat n =
    parse_int_of_StartsDigit _ (show_from-StartsDigit (suc n) n "" (omega arith))
    ∙ ap positive (read_digits-show_from (suc n) n "" (omega arith) ∙ read_nil n)
  where
    read_nil : (k : ℕ) → read_digits (some k) "" ≡ some k
    read_nil k = unfold read_digits in refl
