-- ===== src/Prelude/Text/Uri.antt =====
-- `encodeURIComponent`: the unreserved characters stay, and each byte of the UTF-8 form of another
-- character becomes `%XX`. (A string of code points has no lone surrogate, so it never throws.)
use Prim.Native.Nat.{ℕ, zero, suc, ◌+◌, ◌/◌, ◌%◌}
use Prim.Native.Char.{Char, code}
use Prim.Native.String.{String}
use mathlib.Core.Path.{◌≡◌, refl}
use mathlib.Core.Bool.{Bool, true, ◌&&◌, ◌||◌}
use mathlib.Core.Logic.{inl, inr}
use native.Mathlib.Omega.{arith}
use ansible_aam.Prelude.Tests.{ltb, leb, eqb, if◌then◌else◌, Bool-cases}

abbrev is_alnum : ℕ → Bool
is_alnum c = leb 65 c && leb c 90 || leb 97 c && leb c 122 || leb 48 c && leb c 57

-- A-Z a-z 0-9 - _ . ! ~ * ' ( )
abbrev pub is_unreserved : ℕ → Bool
is_unreserved c =
    is_alnum c || eqb c 45 || eqb c 95 || eqb c 46 || eqb c 33 || eqb c 126 || leb 39 c && leb c 42

hex : ℕ → Char
hex zero = "0"
hex (suc zero) = "1"
hex (suc (suc zero)) = "2"
hex (suc (suc (suc zero))) = "3"
hex (suc (suc (suc (suc zero)))) = "4"
hex (suc (suc (suc (suc (suc zero))))) = "5"
hex (suc (suc (suc (suc (suc (suc zero)))))) = "6"
hex (suc (suc (suc (suc (suc (suc (suc zero))))))) = "7"
hex (suc (suc (suc (suc (suc (suc (suc (suc zero)))))))) = "8"
hex (suc (suc (suc (suc (suc (suc (suc (suc (suc zero))))))))) = "9"
hex (suc (suc (suc (suc (suc (suc (suc (suc (suc (suc zero)))))))))) = "A"
hex (suc (suc (suc (suc (suc (suc (suc (suc (suc (suc (suc zero))))))))))) = "B"
hex (suc (suc (suc (suc (suc (suc (suc (suc (suc (suc (suc (suc zero)))))))))))) = "C"
hex (suc (suc (suc (suc (suc (suc (suc (suc (suc (suc (suc (suc (suc zero))))))))))))) = "D"
hex (suc (suc (suc (suc (suc (suc (suc (suc (suc (suc (suc (suc (suc (suc zero)))))))))))))) = "E"
hex _ = "F"

-- `%XX` in front of a text.
escaped : ℕ → String → String
escaped byte rest =
    String.◌∷◌ "%" (String.◌∷◌ (hex (byte / 16)) (String.◌∷◌ (hex (byte % 16)) rest))

-- The UTF-8 bytes of a code point, escaped, in front of a text.
escape_code : ℕ → String → String
escape_code n rest =
    if ltb n 128
    then escaped n rest
    else if ltb n 2048
    then escaped (192 + n / 64) (escaped (128 + n % 64) rest)
    else if ltb n 65536
    then escaped (224 + n / 4096) (escaped (128 + n / 64 % 64) (escaped (128 + n % 64) rest))
    else escaped (240 + n / 262144)
        (escaped (128 + n / 4096 % 64) (escaped (128 + n / 64 % 64) (escaped (128 + n % 64) rest)))

unfoldable pub encode_uri_component : String → String
unfolding escape_code escaped hex
encode_uri_component String.[] = ""
encode_uri_component (String.◌∷◌ c s) =
    if is_unreserved (code c)
    then String.◌∷◌ c (encode_uri_component s)
    else escape_code (code c) (encode_uri_component s)

-- Every character may stand in a query value: it is unreserved or `%`.
abbrev pub IsQueryValue : String → Type 0
IsQueryValue String.[] = Unit
IsQueryValue (String.◌∷◌ c s) = (is_unreserved (code c) || eqb (code c) 37 ≡ true) × IsQueryValue s

is_unreserved-hex : (n : ℕ) → is_unreserved (code (hex n)) || eqb (code (hex n)) 37 ≡ true
unfolding hex
is_unreserved-hex zero = refl
is_unreserved-hex (suc zero) = refl
is_unreserved-hex (suc (suc zero)) = refl
is_unreserved-hex (suc (suc (suc zero))) = refl
is_unreserved-hex (suc (suc (suc (suc zero)))) = refl
is_unreserved-hex (suc (suc (suc (suc (suc zero))))) = refl
is_unreserved-hex (suc (suc (suc (suc (suc (suc zero)))))) = refl
is_unreserved-hex (suc (suc (suc (suc (suc (suc (suc zero))))))) = refl
is_unreserved-hex (suc (suc (suc (suc (suc (suc (suc (suc zero)))))))) = refl
is_unreserved-hex (suc (suc (suc (suc (suc (suc (suc (suc (suc zero))))))))) = refl
is_unreserved-hex (suc (suc (suc (suc (suc (suc (suc (suc (suc (suc zero)))))))))) = refl
is_unreserved-hex (suc (suc (suc (suc (suc (suc (suc (suc (suc (suc (suc zero))))))))))) = refl
is_unreserved-hex (suc (suc (suc (suc (suc (suc (suc (suc (suc (suc (suc (suc zero)))))))))))) =
    refl
is_unreserved-hex
      (suc (suc (suc (suc (suc (suc (suc (suc (suc (suc (suc (suc (suc zero))))))))))))) =
    refl
is_unreserved-hex
      (suc (suc (suc (suc (suc (suc (suc (suc (suc (suc (suc (suc (suc (suc zero)))))))))))))) =
    refl
is_unreserved-hex _ = refl

escaped-IsQueryValue :
    (byte : ℕ) (rest : String) → IsQueryValue rest → IsQueryValue (escaped byte rest)
unfolding escaped
escaped-IsQueryValue byte rest h = (refl, (is_unreserved-hex _, (is_unreserved-hex _, h)))

escape_code-IsQueryValue :
    (n : ℕ) (rest : String) → IsQueryValue rest → IsQueryValue (escape_code n rest)
unfolding escape_code
escape_code-IsQueryValue n rest h = elim (Bool-cases (ltb n 128)) [
  | inl a ↦ rw a (escaped-IsQueryValue _ _ h)
  | inr a ↦ elim (Bool-cases (ltb n 2048)) [
    | inl b ↦ rw (a, b) (escaped-IsQueryValue _ _ (escaped-IsQueryValue _ _ h))
    | inr b ↦ elim (Bool-cases (ltb n 65536)) [
      | inl c ↦
          rw (a, b, c)
            (escaped-IsQueryValue _ _ (escaped-IsQueryValue _ _ (escaped-IsQueryValue _ _ h)))
      | inr c ↦
          rw (a, b, c)
            (escaped-IsQueryValue _ _
              (escaped-IsQueryValue _ _ (escaped-IsQueryValue _ _ (escaped-IsQueryValue _ _ h))))
    ]
  ]
]

pub encode_uri_component-IsQueryValue : (s : String) → IsQueryValue (encode_uri_component s)
unfolding encode_uri_component
encode_uri_component-IsQueryValue String.[] = tt
encode_uri_component-IsQueryValue (String.◌∷◌ c s) = elim (Bool-cases (is_unreserved (code c))) [
  | inl e ↦ rw e (ground arith, encode_uri_component-IsQueryValue s)
  | inr e ↦ rw e (escape_code-IsQueryValue (code c) _ (encode_uri_component-IsQueryValue s))
]

encode_test : encode_uri_component "a b&é/" ≡ "a%20b%26%C3%A9%2F"
unfolding encode_uri_component
encode_test = refl
