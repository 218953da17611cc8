-- ===== src/Value.antt =====
-- `unknown`: the values of JSON and `undefined`, and what the sources do with one: truthiness, the
-- reading of a key, and the conversion of a count.
pub mod Count
use ansible_aam.Prelude.{
  ℕ, zero, suc, ◌+◌, ◌-◌, ◌*◌, ◌≤◌, ◌<◌, Char, code, String, ◌≡◌, refl, sym, ap, ◌∙◌, ◌≢◌, ◌↔◌, ◌⊎◌,
  inl, inr, Bool, true, false, not, ◌&&◌, ◌||◌, Option, none, some, List, [], ◌∷◌, ◌++◌, map, arith,
  ◌==◌, eq_iff, eq_refl, ltb, leb, eqb, if◌then◌else◌, Bool-cases, Option-cases, or_else, is_some,
  length, select, some_of, every, find, take, somes, length-append, select-append, length-select-le,
  length-somes-le, All, All-append, flat_map, length-map,
}
use ansible_aam.Prelude.Int.{ℤ, pos, negsuc, ◌+ℤ◌, ltb_ℤ, leb_ℤ, eqb_ℤ}
use ansible_aam.Prelude.Dict.{
  Dict, includes, keys, lookup, insert, remove, lookup-insert, lookup-remove,
}
use ansible_aam.Prelude.Text.{
  ◌⊕◌, is_empty, or_text, trim, is_blank, String-cases, trim_idem, trim-nil, is_empty-eq,
}
use ansible_aam.Prelude.Text.Numbers.{
  Number, nan, infinity, neg_infinity, int, is_finite, truthy_number, add, less, same_number,
  parse_int, show_nat, show, parse_int-show_nat,
}

-- An array and an object hold lists of their own.
mutual
  pub data Value : Type 0 where
    undefined null : Value
    bool : Bool → Value
    num : Number → Value
    str : String → Value
    arr : Items → Value
    obj : Fields → Value

  pub data Items : Type 0 where
    nil : Items
    item : Value → Items → Items

  pub data Fields : Type 0 where
    end : Fields
    field : String → Value → Fields → Fields

-- `Object.entries(o)`.
unfoldable pub entries : Fields → Dict Value
entries end = []
entries (field k v fs) = (k, v) ∷ entries fs

-- An object with the given entries.
unfoldable pub from_entries : Dict Value → Fields
from_entries [] = end
from_entries ((k, v) ∷ d) = field k v (from_entries d)

pub entries-from_entries : (d : Dict Value) → entries (from_entries d) ≡ d
unfolding entries from_entries
entries-from_entries [] = refl
entries-from_entries ((k, v) ∷ d) = ap (◌∷◌ (k, v)) (entries-from_entries d)

-- `d[k]`, which is `undefined` where the key is missing.
unfoldable pub get : String → Dict Value → Value
unfolding lookup
get k d = or_else (lookup k d) undefined

-- `Boolean(v)`.
abbrev pub truthy : Value → Bool
truthy undefined = false
truthy null = false
truthy (bool b) = b
truthy (num n) = truthy_number n
truthy (str s) = not (is_empty s)
truthy (arr xs) = true
truthy (obj fs) = true

-- `v === s`.
abbrev pub is_text : Value → String → Bool
is_text (str t) s = t == s
is_text _ s = false

pub get-insert :
    (k j : String) (v : Value) (d : Dict Value)
    → get j (insert k v d) ≡ (if k == j then v else get j d)
unfolding get
get-insert k j v d = rw (lookup-insert k j v d) (ground arith)

pub get-remove :
    (k j : String) (d : Dict Value) → get j (remove k d) ≡ (if k == j then undefined else get j d)
unfolding get
get-remove k j d = rw (lookup-remove k j d) (ground arith)
