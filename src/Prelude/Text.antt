-- ===== src/Prelude/Text.antt =====
-- What the sources use of JavaScript strings: `trim`, `split`, `join`, `replaceAll`, `includes`,
-- `parseInt` and `String`. A string is its list of code points.
pub mod Numbers
pub mod Split
pub mod Search
pub mod Uri
use Prim.Native.Nat.{ℕ, zero, suc, ◌+◌, ◌-◌, ◌*◌, ◌/◌, ◌%◌, ◌<◌}
use Prim.Native.Char.{Char, code}
use Prim.Native.String
use Prim.Native.String.{String}
use mathlib.Core.Path.{◌≡◌, refl, ap, sym, ◌∙◌}
use mathlib.Core.Bool.{Bool, true, false, not, ◌&&◌, ◌||◌}
use mathlib.Core.List.{List, [], ◌∷◌}
use mathlib.Core.Option.{Option, none, some}
use mathlib.Core.Logic.{◌⊎◌, inl, inr}
use native.Mathlib.Omega.{arith}
use ansible_aam.Prelude.Tests.{ltb, leb, eqb, if◌then◌else◌, Bool-cases, or_else}

infixr 65 ◌⊕◌
unfoldable pub ◌⊕◌ : String → String → String
String.[] ⊕ t = t
(String.◌∷◌ c s) ⊕ t = String.◌∷◌ c (s ⊕ t)

-- The falsy string.
abbrev pub is_empty : String → Bool
is_empty String.[] = true
is_empty (String.◌∷◌ c s) = false

-- `s || t`.
abbrev pub or_text : String → String → String
or_text String.[] t = t
or_text (String.◌∷◌ c s) t = String.◌∷◌ c s

-- WhiteSpace and LineTerminator of ECMAScript.
unfoldable pub is_space : ℕ → Bool
is_space c =
    leb 9 c && leb c 13
    || eqb c 32
    || eqb c 160
    || eqb c 0x1680
    || leb 0x2000 c && leb c 0x200a
    || eqb c 0x2028
    || eqb c 0x2029
    || eqb c 0x202f
    || eqb c 0x205f
    || eqb c 0x3000
    || eqb c 0xfeff

unfoldable pub trim_start : String → String
trim_start String.[] = String.[]
trim_start (String.◌∷◌ c s) = if is_space (code c) then trim_start s else String.◌∷◌ c s

-- One character in front of a text whose end is trimmed.
abbrev pub cons_trimmed : Char → String → String
cons_trimmed c String.[] = if is_space (code c) then String.[] else String.◌∷◌ c String.[]
cons_trimmed c (String.◌∷◌ d s) = String.◌∷◌ c (String.◌∷◌ d s)

unfoldable pub trim_end : String → String
trim_end String.[] = String.[]
trim_end (String.◌∷◌ c s) = cons_trimmed c (trim_end s)

unfoldable pub trim : String → String
unfolding trim_start trim_end is_space
trim s = trim_end (trim_start s)

-- `Boolean(s.trim())`.
abbrev pub is_blank : String → Bool
is_blank s = is_empty (trim s)

-- No white space at the front.
abbrev StartsDark : String → Type 0
StartsDark String.[] = Unit
StartsDark (String.◌∷◌ c s) = is_space (code c) ≡ false

trim_start-StartsDark : (s : String) → StartsDark (trim_start s)
unfolding trim_start
trim_start-StartsDark String.[] = tt
trim_start-StartsDark (String.◌∷◌ c s) = elim (Bool-cases (is_space (code c))) [
  | inl e ↦ rw e (trim_start-StartsDark s)
  | inr e ↦ rw e e
]

pub String-cases :
    (s : String) → (s ≡ String.[]) ⊎ ((c : Char) × (t : String) × (s ≡ String.◌∷◌ c t))
String-cases String.[] = inl refl
String-cases (String.◌∷◌ c s) = inr (c, s, refl)

cons_trimmed-StartsDark :
    (c : Char) (s : String) → is_space (code c) ≡ false → StartsDark (cons_trimmed c s)
cons_trimmed-StartsDark c String.[] h = rw h h
cons_trimmed-StartsDark c (String.◌∷◌ d s) h = h

trim_end-StartsDark : (s : String) → StartsDark s → StartsDark (trim_end s)
unfolding trim_end
trim_end-StartsDark String.[] h = tt
trim_end-StartsDark (String.◌∷◌ c s) h = cons_trimmed-StartsDark c (trim_end s) h

trim_start_of_StartsDark : (s : String) → StartsDark s → trim_start s ≡ s
unfolding trim_start
trim_start_of_StartsDark String.[] h = refl
trim_start_of_StartsDark (String.◌∷◌ c s) h = rw h

trim_end-cons_trimmed :
    (c : Char) (s : String) → trim_end s ≡ s → trim_end (cons_trimmed c s) ≡ cons_trimmed c s
unfolding trim_end
trim_end-cons_trimmed c String.[] h = elim (Bool-cases (is_space (code c))) [
  | inl e ↦ rw e
  | inr e ↦ rw (e, e)
]
trim_end-cons_trimmed c (String.◌∷◌ d s) h = ap (cons_trimmed c) h

trim_end_idem : (s : String) → trim_end (trim_end s) ≡ trim_end s
unfolding trim_end
trim_end_idem String.[] = refl
trim_end_idem (String.◌∷◌ c s) = trim_end-cons_trimmed c (trim_end s) (trim_end_idem s)

-- Trimming twice is trimming once.
pub trim_idem : (s : String) → trim (trim s) ≡ trim s
unfolding trim
trim_idem s =
    ap trim_end (trim_start_of_StartsDark _ (trim_end-StartsDark _ (trim_start-StartsDark s)))
    ∙ trim_end_idem (trim_start s)

pub is_empty-eq : (s : String) → is_empty s ≡ true → s ≡ String.[]
is_empty-eq String.[] h = refl
is_empty-eq (String.◌∷◌ c s) h = cc

pub trim-nil : trim String.[] ≡ String.[]
unfolding trim
trim-nil = refl

pub ⊕-nil : (s : String) → s ⊕ String.[] ≡ s
unfolding ◌⊕◌
⊕-nil String.[] = refl
⊕-nil (String.◌∷◌ c s) = ap (String.◌∷◌ c) (⊕-nil s)

pub ⊕_assoc : (s t u : String) → (s ⊕ t) ⊕ u ≡ s ⊕ (t ⊕ u)
unfolding ◌⊕◌
⊕_assoc String.[] t u = refl
⊕_assoc (String.◌∷◌ c s) t u = ap (String.◌∷◌ c) (⊕_assoc s t u)
