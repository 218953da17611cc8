-- ===== src/Prelude/Text/Split.antt =====
-- `s.split(sep)` at one character, `xs.join(", ")`, and the comma-separated fields that the forms
-- use: `value.split(",").map(trim).filter(Boolean)`.
use Prim.Native.Nat.{ℕ}
use Prim.Native.Char.{Char, code}
use Prim.Native.String.{String}
use mathlib.Core.Path.{◌≡◌, refl, ap, ◌∙◌}
use mathlib.Core.Bool.{false, not}
use mathlib.Core.List.{List, [], ◌∷◌, map}
use mathlib.Core.Logic.{inl, inr}
use ansible_aam.Prelude.Tests.{eqb, if◌then◌else◌, Bool-cases}
use ansible_aam.Prelude.Lists.{select, All}
use ansible_aam.Prelude.Text.{
  ◌⊕◌, is_empty, is_space, trim_start, cons_trimmed, trim_end, trim, trim_idem,
}

-- A character in front of the first piece.
abbrev onto_first : Char → List String → List String
onto_first c [] = String.◌∷◌ c "" ∷ []
onto_first c (w ∷ ws) = String.◌∷◌ c w ∷ ws

-- `s.split(sep)`.
unfoldable pub split : ℕ → String → List String
split sep String.[] = "" ∷ []
split sep (String.◌∷◌ c s) =
    if eqb (code c) sep then "" ∷ split sep s else onto_first c (split sep s)

-- `xs.join(sep)`.
unfoldable pub join : String → List String → String
unfolding ◌⊕◌
join sep [] = ""
join sep (w ∷ []) = w
join sep (w ∷ v ∷ ws) = w ⊕ (sep ⊕ join sep (v ∷ ws))

-- `value.split(",").map((item) => item.trim()).filter(Boolean)`.
unfoldable pub split_csv : String → List String
unfolding split trim
split_csv value = select (λ item. not (is_empty item)) (map trim (split b',' value))

-- No comma stands in the text.
abbrev pub HasNoComma : String → Type 0
HasNoComma String.[] = Unit
HasNoComma (String.◌∷◌ c s) = (eqb (code c) b',' ≡ false) × HasNoComma s

-- What `split_csv` returns: no comma, no white space at the ends, and not empty.
pub record IsItem (s : String) : Type 0 where
  pub comma_free : HasNoComma s
  pub trimmed : trim s ≡ s
  pub filled : is_empty s ≡ false

split-HasNoComma_end : (s : String) → HasNoComma s → split b',' s ≡ s ∷ []
unfolding split
split-HasNoComma_end String.[] h = refl
split-HasNoComma_end (String.◌∷◌ c s) (h, hs) = rw (h, split-HasNoComma_end s hs)

split-⊕ :
    (s rest : String) → HasNoComma s → split b',' (s ⊕ String.◌∷◌ "," rest) ≡ s ∷ split b',' rest
unfolding split ◌⊕◌
split-⊕ String.[] rest h = refl
split-⊕ (String.◌∷◌ c s) rest (h, hs) = rw (h, split-⊕ s rest hs)

split-cons : (sep : ℕ) (s : String) → (w : String) × (ws : List String) × (split sep s ≡ w ∷ ws)
unfolding split
split-cons sep String.[] = ("", [], refl)
split-cons sep (String.◌∷◌ c s) =
    let (w, ws, e) = split-cons sep s in
    elim (Bool-cases (eqb (code c) sep)) [
      | inl h ↦ ("", split sep s, rw h)
      | inr h ↦ (String.◌∷◌ c w, ws, rw (h, e))
    ]

-- A blank in front of a text is trimmed away from its first piece.
map-split-blank : (s : String) → map trim (split b',' (String.◌∷◌ " " s)) ≡ map trim (split b',' s)
unfolding split trim
map-split-blank s = let (w, ws, e) = split-cons b',' s in rw e

-- The fields of joined items are the items.
map-split-join :
    (w : String) (ws : List String)
    → All IsItem (w ∷ ws)
    → map trim (split b',' (join ", " (w ∷ ws))) ≡ w ∷ ws
unfolding join ◌⊕◌
map-split-join w [] (h, _) = rw (split-HasNoComma_end w h.comma_free) (ap (λ t. t ∷ []) h.trimmed)
map-split-join w (v ∷ ws) (h, hs) =
    rw (split-⊕ w (String.◌∷◌ " " (join ", " (v ∷ ws))) h.comma_free, h.trimmed)
      (ap (◌∷◌ w) (map-split-blank _ ∙ map-split-join v ws hs))

select-IsItem : (ws : List String) → All IsItem ws → select (λ item. not (is_empty item)) ws ≡ ws
select-IsItem [] h = refl
select-IsItem (w ∷ ws) (h, hs) = rw (h.filled, select-IsItem ws hs)

-- Splitting what `join` wrote gives the items back.
pub split_csv-join : (ws : List String) → All IsItem ws → split_csv (join ", " ws) ≡ ws
unfolding split_csv
split_csv-join [] h = unfold split trim join in refl
split_csv-join (w ∷ ws) h = rw (map-split-join w ws h) (select-IsItem (w ∷ ws) h)

trim_start-HasNoComma : (s : String) → HasNoComma s → HasNoComma (trim_start s)
unfolding trim_start
trim_start-HasNoComma String.[] h = tt
trim_start-HasNoComma (String.◌∷◌ c s) (h, hs) = elim (Bool-cases (is_space (code c))) [
  | inl e ↦ rw e (trim_start-HasNoComma s hs)
  | inr e ↦ rw e (h, hs)
]

cons_trimmed-HasNoComma :
    (c : Char) (s : String)
    → eqb (code c) b',' ≡ false
    → HasNoComma s
    → HasNoComma (cons_trimmed c s)
cons_trimmed-HasNoComma c String.[] h hs = elim (Bool-cases (is_space (code c))) [
  | inl e ↦ rw e tt
  | inr e ↦ rw e (h, tt)
]
cons_trimmed-HasNoComma c (String.◌∷◌ d s) h hs = (h, hs)

trim_end-HasNoComma : (s : String) → HasNoComma s → HasNoComma (trim_end s)
unfolding trim_end
trim_end-HasNoComma String.[] h = tt
trim_end-HasNoComma (String.◌∷◌ c s) (h, hs) =
    cons_trimmed-HasNoComma c (trim_end s) h (trim_end-HasNoComma s hs)

split-HasNoComma : (s : String) → All HasNoComma (split b',' s)
unfolding split
split-HasNoComma String.[] = (tt, tt)
split-HasNoComma (String.◌∷◌ c s) = elim (Bool-cases (eqb (code c) b',')) [
  | inl h ↦ rw h (tt, split-HasNoComma s)
  | inr h ↦
      let (w, ws, e) = split-cons b',' s in
      let (first, rest) : All HasNoComma (w ∷ ws) = rw e at (split-HasNoComma s) in
      rw (h, e) ((h, first), rest)
]

select-map-IsItem :
    (ws : List String)
    → All HasNoComma ws
    → All IsItem (select (λ item. not (is_empty item)) (map trim ws))
unfolding trim
select-map-IsItem [] h = tt
select-map-IsItem (w ∷ ws) (h, hs) = elim (Bool-cases (is_empty (trim w))) [
  | inl e ↦ rw e (select-map-IsItem ws hs)
  | inr e ↦ rw e (
    record {
      comma_free = trim_end-HasNoComma _ (trim_start-HasNoComma w h);
      trimmed = trim_idem w;
      filled = e;
    },
    select-map-IsItem ws hs,
  )
]

-- Every field that `split_csv` returns is an item.
pub split_csv-IsItem : (value : String) → All IsItem (split_csv value)
unfolding split_csv
split_csv-IsItem value = select-map-IsItem _ (split-HasNoComma value)
