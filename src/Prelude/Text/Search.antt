-- ===== src/Prelude/Text/Search.antt =====
-- `s.includes(t)`, `s.startsWith(t)`, `s.endsWith(t)`, `s.replaceAll("_", " ")`, `s.length` and
-- `s.slice(0, n)`, by code points.
use Prim.Native.Nat.{ℕ, zero, suc, ◌≤◌}
use Prim.Native.Char.{code}
use Prim.Native.String.{String}
use mathlib.Core.Path.{◌≡◌, refl}
use mathlib.Core.Bool.{Bool, true, false, ◌&&◌, ◌||◌}
use mathlib.Core.Logic.{inl, inr}
use native.Mathlib.Omega.{arith}
use ansible_aam.Prelude.Text.{is_empty}
use ansible_aam.Prelude.Tests.{eqb, if◌then◌else◌, Bool-cases}

-- `s.startsWith(t)`.
unfoldable pub starts_with : String → String → Bool
starts_with s String.[] = true
starts_with String.[] (String.◌∷◌ d t) = false
starts_with (String.◌∷◌ c s) (String.◌∷◌ d t) = eqb (code c) (code d) && starts_with s t

-- `s.includes(t)`.
unfoldable pub contains : String → String → Bool
unfolding starts_with
contains String.[] t = starts_with "" t
contains (String.◌∷◌ c s) t = starts_with (String.◌∷◌ c s) t || contains s t

-- `s.endsWith(t)`, for a text of one character.
unfoldable pub ends_with_char : ℕ → String → Bool
ends_with_char n String.[] = false
ends_with_char n (String.◌∷◌ c String.[]) = eqb (code c) n
ends_with_char n (String.◌∷◌ c (String.◌∷◌ d s)) = ends_with_char n (String.◌∷◌ d s)

-- `s.startsWith(t)`, for a text of one character.
abbrev pub starts_with_char : ℕ → String → Bool
starts_with_char n String.[] = false
starts_with_char n (String.◌∷◌ c s) = eqb (code c) n

-- `s.replaceAll("_", " ")`.
unfoldable pub spaced : String → String
spaced String.[] = ""
spaced (String.◌∷◌ c s) = String.◌∷◌ (if eqb (code c) b'_' then " " else c) (spaced s)

-- `s.length`.
abbrev pub text_length : String → ℕ
text_length String.[] = 0
text_length (String.◌∷◌ c s) = suc (text_length s)

-- `s.slice(0, n)`.
unfoldable pub take_text : ℕ → String → String
take_text zero s = ""
take_text (suc n) String.[] = ""
take_text (suc n) (String.◌∷◌ c s) = String.◌∷◌ c (take_text n s)

pub text_length-take_text-le : (n : ℕ) (s : String) → text_length (take_text n s) ≤ n
unfolding take_text
text_length-take_text-le zero s = omega arith
text_length-take_text-le (suc n) String.[] = omega arith
text_length-take_text-le (suc n) (String.◌∷◌ c s) = omega (arith, text_length-take_text-le n s)

-- No underscore stands in the text.
abbrev pub HasNoUnderscore : String → Type 0
HasNoUnderscore String.[] = Unit
HasNoUnderscore (String.◌∷◌ c s) = (eqb (code c) b'_' ≡ false) × HasNoUnderscore s

pub spaced-HasNoUnderscore : (s : String) → HasNoUnderscore (spaced s)
unfolding spaced
spaced-HasNoUnderscore String.[] = tt
spaced-HasNoUnderscore (String.◌∷◌ c s) = elim (Bool-cases (eqb (code c) b'_')) [
  | inl e ↦ rw e (refl, spaced-HasNoUnderscore s)
  | inr e ↦ rw e (e, spaced-HasNoUnderscore s)
]

pub spaced_of_HasNoUnderscore : (s : String) → HasNoUnderscore s → spaced s ≡ s
unfolding spaced
spaced_of_HasNoUnderscore String.[] h = refl
spaced_of_HasNoUnderscore (String.◌∷◌ c s) (h, hs) = rw (h, spaced_of_HasNoUnderscore s hs)

pub is_empty-spaced : (s : String) → is_empty (spaced s) ≡ is_empty s
unfolding spaced
is_empty-spaced String.[] = refl
is_empty-spaced (String.◌∷◌ c s) = refl
