-- ===== src/Monitoring/Errors.antt =====
-- frontend/src/monitoring.ts, lines 316-328: the texts of a summary, and a collection error cut down
-- to its HTTP status or its first line.
use ansible_aam.Prelude.{
  ◌+◌, ◌≤◌, Char, code, String, ◌≡◌, refl, sym, inl, inr, not, ◌&&◌, Option, none, some, List, [],
  ◌∷◌, arith, ltb, eqb, if◌then◌else◌, Bool-cases,
}
use ansible_aam.Prelude.Dict.{Dict}
use ansible_aam.Prelude.Text.{◌⊕◌, is_empty, trim, is_blank, is_space, trim_start}
use mathlib.Core.Path.{subst}
use mathlib.Core.Option
use ansible_aam.Prelude.Text.Numbers.{is_digit}
use ansible_aam.Prelude.Text.Search.{text_length, take_text, text_length-take_text-le}
use ansible_aam.Prelude.Text.Split.{split}
use ansible_aam.Value.{Value, str, get}

-- summaryString: the trimmed text of a key, if it holds one that is not blank.
abbrev pub filled_text : Value → Option String
filled_text (str s) = if is_blank s then none else some (trim s)
filled_text _ = none

unfoldable pub summary_string : Dict Value → String → Option String
unfolding get trim
summary_string summary key = filled_text (get key summary)

-- `[^']+'`: the text in front of the first quote, if there is one.
unfoldable pub before_quote : String → Option String
before_quote String.[] = none
before_quote (String.◌∷◌ c s) =
    if eqb (code c) 39 then some "" else Option.map (String.◌∷◌ c) (before_quote s)

abbrev last_char : Char → String → Char
last_char c String.[] = c
last_char c (String.◌∷◌ d s) = last_char d s

-- `\s+([^']+)` over a text with no quote: the white space at the front is skipped, but if there is
-- nothing else the last of two or more white characters is left to the group.
unfoldable pub status_text : String → Option String
unfolding is_space trim_start
status_text String.[] = none
status_text (String.◌∷◌ c s) =
    if not (is_space (code c))
    then none
    else if not (is_empty (trim_start s))
    then some (trim_start s)
    else if is_empty s
    then none
    else some (String.◌∷◌ (last_char c s) "")

abbrev status_after : Char → Char → Char → Option String → Option (String × String)
status_after a b c none = none
status_after a b c (some between) =
    Option.map (λ phrase. (String.◌∷◌ a (String.◌∷◌ b (String.◌∷◌ c "")), phrase))
      (status_text between)

-- `'(\d{3})\s+([^']+)'` at the front of a text.
unfoldable pub status_here : String → Option (String × String)
unfolding status_text before_quote
status_here (String.◌∷◌ q (String.◌∷◌ a (String.◌∷◌ b (String.◌∷◌ c s)))) =
    if eqb (code q) 39 && is_digit (code a) && is_digit (code b) && is_digit (code c)
    then status_after a b c (before_quote s)
    else none
status_here _ = none

-- `error.match(/'(\d{3})\s+([^']+)'/)`: the first place where it matches.
unfoldable pub match_status : String → Option (String × String)
unfolding status_here
match_status String.[] = none
match_status (String.◌∷◌ c s) = elim (status_here (String.◌∷◌ c s)) [
  | some found ↦ some found
  | none ↦ match_status s
]

-- `error.split("\n")[0]?.trim() ?? error`.
abbrev pub first_of : List String → String → String
first_of [] error = error
first_of (line ∷ lines) error = trim line

-- `first.length > 180 ? ... : first`.
unfoldable pub shortened : String → String
unfolding take_text ◌⊕◌
shortened first = if ltb 180 (text_length first) then take_text 177 first ⊕ "..." else first

-- The two returns of summarizeCollectionError.
abbrev summary_of_match : Option (String × String) → String → String
summary_of_match (some (status, phrase)) error = "HTTP " ⊕ (status ⊕ (" " ⊕ phrase))
summary_of_match none error = shortened (first_of (split 10 error) error)

unfoldable pub summarize_collection_error : String → String
unfolding match_status split trim ◌⊕◌ shortened
summarize_collection_error error = summary_of_match (match_status error) error

pub text_length-⊕ : (s t : String) → text_length (s ⊕ t) ≡ text_length s + text_length t
unfolding ◌⊕◌
text_length-⊕ String.[] t = omega arith
text_length-⊕ (String.◌∷◌ c s) t = omega (arith, text_length-⊕ s t)

shortened-le : (first : String) → text_length (shortened first) ≤ 180
unfolding shortened
shortened-le first = elim (Bool-cases (ltb 180 (text_length first))) [
  | inl e ↦
      rw e (
        omega
          (arith, text_length-⊕ (take_text 177 first) "...", text_length-take_text-le 177 first))
  | inr e ↦ rw e (ground arith)
]

-- Without an HTTP status the summary has at most 180 characters.
pub summarize_collection_error-le :
    (error : String)
    → match_status error ≡ none
    → text_length (summarize_collection_error error) ≤ 180
unfolding summarize_collection_error
summarize_collection_error-le error h =
    subst (λ m. text_length (summary_of_match m error) ≤ 180) (sym h)
      (shortened-le (first_of (split 10 error) error))

summary_tests :
    (summarize_collection_error "Server error '503 Service Unavailable' for url"
      ≡ "HTTP 503 Service Unavailable")
    × (summarize_collection_error "x '503  ' y" ≡ "HTTP 503  ")
    × (summarize_collection_error "x '503 ' y" ≡ "x '503 ' y")
unfolding summarize_collection_error
summary_tests = (refl, refl, refl)
