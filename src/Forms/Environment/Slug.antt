-- ===== src/Forms/Environment/Slug.antt =====
-- frontend/src/components/environment-form.tsx, lines 116-122: the slug that the form makes of a
-- name. Lower-casing is a parameter; the two `replace` calls are one walk each.
use ansible_aam.Prelude.{
  ℕ, Char, code, String, ◌≡◌, refl, ◌⊎◌, inl, inr, Bool, true, false, not, ◌&&◌, ◌||◌, arith, leb,
  eqb, if◌then◌else◌, Bool-cases,
}
use ansible_aam.Prelude.Text.{trim}

-- `[a-z0-9]`.
unfoldable pub is_slug_char : ℕ → Bool
is_slug_char c = leb 97 c && leb c 122 || leb 48 c && leb c 57

-- `s.replace(/[^a-z0-9]+/g, "-")`; the Boolean says that the character before this one was replaced.
unfoldable pub dashed : Bool → String → String
unfolding is_slug_char
dashed in_run String.[] = ""
dashed in_run (String.◌∷◌ c s) =
    if is_slug_char (code c)
    then String.◌∷◌ c (dashed false s)
    else if in_run
    then dashed true s
    else String.◌∷◌ "-" (dashed true s)

-- `s.replace(/^-+/, "")`.
unfoldable pub undash_start : String → String
undash_start String.[] = ""
undash_start (String.◌∷◌ c s) = if eqb (code c) 45 then undash_start s else String.◌∷◌ c s

-- A character in front of a text without a dash at its end.
abbrev cons_undashed : Char → String → String
cons_undashed c String.[] = if eqb (code c) 45 then "" else String.◌∷◌ c ""
cons_undashed c (String.◌∷◌ d s) = String.◌∷◌ c (String.◌∷◌ d s)

-- `s.replace(/-+$/, "")`.
unfoldable pub undash_end : String → String
undash_end String.[] = ""
undash_end (String.◌∷◌ c s) = cons_undashed c (undash_end s)

-- slugify, over `toLowerCase`.
unfoldable pub slugify : (String → String) → String → String
unfolding trim dashed undash_start undash_end
slugify to_lower_case value = undash_end (undash_start (dashed false (trim (to_lower_case value))))

-- From a place where a dash may stand, or may not: characters of a slug and single dashes between
-- them, none at the end.
abbrev pub IsSlugFrom : Bool → String → Type 0
IsSlugFrom may_dash String.[] = may_dash ≡ true
IsSlugFrom may_dash (String.◌∷◌ c s) =
    ((is_slug_char (code c) ≡ true) × IsSlugFrom true s)
    ⊎ ((may_dash ≡ true) × (code c ≡ 45) × IsSlugFrom false s)

-- A slug: empty, or characters of `[a-z0-9]` with single dashes between them.
abbrev pub IsSlug : String → Type 0
IsSlug String.[] = Unit
IsSlug (String.◌∷◌ c s) = IsSlugFrom false (String.◌∷◌ c s)

-- As `IsSlugFrom`, and a dash at the end is allowed.
abbrev IsDashed : Bool → String → Type 0
IsDashed may_dash String.[] = Unit
IsDashed may_dash (String.◌∷◌ c s) =
    ((is_slug_char (code c) ≡ true) × IsDashed true s)
    ⊎ ((may_dash ≡ true) × (code c ≡ 45) × IsDashed false s)

dashed-IsDashed : (in_run : Bool) (s : String) → IsDashed (not in_run) (dashed in_run s)
unfolding dashed
dashed-IsDashed in_run String.[] = tt
dashed-IsDashed true (String.◌∷◌ c s) = elim (Bool-cases (is_slug_char (code c))) [
  | inl e ↦ rw e (inl (e, dashed-IsDashed false s))
  | inr e ↦ rw e (dashed-IsDashed true s)
]
dashed-IsDashed false (String.◌∷◌ c s) = elim (Bool-cases (is_slug_char (code c))) [
  | inl e ↦ rw e (inl (e, dashed-IsDashed false s))
  | inr e ↦ rw e (inr (refl, refl, dashed-IsDashed true s))
]

slug_char-not-dash : (n : ℕ) → is_slug_char n ≡ true → eqb n 45 ≡ false
unfolding is_slug_char
slug_char-not-dash n h = ground arith

undash_start_of_false : (s : String) → IsDashed false s → undash_start s ≡ s
unfolding undash_start
undash_start_of_false String.[] h = refl
undash_start_of_false (String.◌∷◌ c s) (inl (e, h)) = rw (slug_char-not-dash (code c) e)
undash_start_of_false (String.◌∷◌ c s) (inr (e, d, h)) = cc

undash_start-IsDashed : (s : String) → IsDashed true s → IsDashed false (undash_start s)
unfolding undash_start
undash_start-IsDashed String.[] h = tt
undash_start-IsDashed (String.◌∷◌ c s) (inl (e, h)) =
    rw (slug_char-not-dash (code c) e) (inl (e, h))
undash_start-IsDashed (String.◌∷◌ c s) (inr (e, d, h)) = rw (d, undash_start_of_false s h) h

-- What `undash_end` leaves of a dashed text.
abbrev IsEnded : Bool → String → Type 0
IsEnded may_dash String.[] = Unit
IsEnded may_dash (String.◌∷◌ c s) = IsSlugFrom may_dash (String.◌∷◌ c s)

cons_undashed_char :
    (may_dash : Bool) (c : Char) (s : String)
    → is_slug_char (code c) ≡ true
    → IsEnded true s
    → IsEnded may_dash (cons_undashed c s)
cons_undashed_char may_dash c String.[] e h = rw (slug_char-not-dash (code c) e) (inl (e, refl))
cons_undashed_char may_dash c (String.◌∷◌ d s) e h = inl (e, h)

cons_undashed_dash :
    (may_dash : Bool) (c : Char) (s : String)
    → may_dash ≡ true
    → code c ≡ 45
    → IsEnded false s
    → IsEnded may_dash (cons_undashed c s)
cons_undashed_dash may_dash c String.[] m e h = rw e tt
cons_undashed_dash may_dash c (String.◌∷◌ d s) m e h = inr (m, e, h)

undash_end-IsEnded :
    (may_dash : Bool) (s : String) → IsDashed may_dash s → IsEnded may_dash (undash_end s)
unfolding undash_end
undash_end-IsEnded may_dash String.[] h = tt
undash_end-IsEnded may_dash (String.◌∷◌ c s) (inl (e, h)) =
    cons_undashed_char may_dash c (undash_end s) e (undash_end-IsEnded true s h)
undash_end-IsEnded may_dash (String.◌∷◌ c s) (inr (m, e, h)) =
    cons_undashed_dash may_dash c (undash_end s) m e (undash_end-IsEnded false s h)

IsEnded-IsSlug : (s : String) → IsEnded false s → IsSlug s
IsEnded-IsSlug String.[] h = tt
IsEnded-IsSlug (String.◌∷◌ c s) h = h

-- Whatever the name and the lower-casing: the slug is empty, or it has only the characters a-z and
-- 0-9 and single dashes between them.
pub slugify-IsSlug :
    (to_lower_case : String → String) (value : String) → IsSlug (slugify to_lower_case value)
unfolding slugify
slugify-IsSlug to_lower_case value =
    let text = dashed false (trim (to_lower_case value)) in
    IsEnded-IsSlug (undash_end (undash_start text)) (
      undash_end-IsEnded false (undash_start text)
        (undash_start-IsDashed text (dashed-IsDashed false (trim (to_lower_case value)))))
