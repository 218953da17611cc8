-- ===== src/Api.antt =====
-- frontend/src/api.ts, lines 43-105: what a request to the API returns or throws, over what `fetch`
-- and the body's `json` gave.
mod Tests
pub mod Endpoints
use ansible_aam.Prelude.{
  ℕ, zero, suc, ◌+◌, ◌-◌, ◌*◌, ◌≤◌, ◌<◌, Char, code, String, ◌≡◌, refl, sym, ap, ◌≢◌, ◌↔◌, ◌⊎◌, inl,
  inr, Bool, true, false, not, ◌&&◌, ◌||◌, Option, none, some, List, [], ◌∷◌, ◌++◌, map, arith,
  ◌==◌, eq_iff, eq_refl, ltb, leb, eqb, if◌then◌else◌, Bool-cases, Option-cases, or_else, is_some,
  length, select, some_of, every, find, take, drop, somes, length-append, select-append,
  length-select-le, length-somes-le, All, All-append, flat_map, length-map,
}
use mathlib.Core.Path.{subst}
use ansible_aam.Prelude.Int.{ℤ, pos, negsuc, ◌+ℤ◌, ltb_ℤ, leb_ℤ, eqb_ℤ}
use ansible_aam.Prelude.Dict.{
  Dict, includes, keys, lookup, insert, remove, lookup-insert, lookup-remove,
}
use ansible_aam.Prelude.Text.{
  ◌⊕◌, is_empty, or_text, trim, is_blank, String-cases, trim_idem, trim-nil, is_empty-eq,
}
use ansible_aam.Prelude.Text.Numbers.{
  Number, nan, infinity, neg_infinity, int, is_finite, truthy_number, add, less, same_number,
  parse_int, show_nat, show, parse_int-show_nat,
}
use ansible_aam.Prelude.Result.{Result, ok, err}
use ansible_aam.Prelude.Text.Search.{contains}
use ansible_aam.Prelude.Text.Split.{join}
use ansible_aam.Value.{
  Value, undefined, null, bool, num, str, arr, obj, Items, nil, item, entries, from_entries, get,
}

-- What `fetch` throws: an `Error` with a name and a message, or another value.
pub data Thrown : Type 0 where
  error : (name message : String) → Thrown
  other : Thrown

pub record Response : Type 0 where
  pub status : ℕ
  pub is_ok : Bool
  pub status_text : String
  pub json : Result Value

pub data Fetched : Type 0 where
  failed : Thrown → Fetched
  answered : Response → Fetched

-- The options that decide on the result; `aborted` is the state of the signal.
pub record RequestOptions : Type 0 where
  pub allow_unauthorized : Bool
  pub aborted : Bool

module _ (to_lower_case : String → String) (to_text : Value → String) where
  unfoldable pub is_abort_error : Thrown → Bool
  unfolding contains
  is_abort_error (error name message) =
      name == "AbortError" || contains (to_lower_case message) "aborted"
  is_abort_error other = false

  -- The text of an item of `detail`, as `join` writes it.
  abbrev joined_text : Value → String
  joined_text undefined = ""
  joined_text null = ""
  joined_text v = to_text v

  abbrev item_text : Value → String
  item_text (obj fields) =
      if includes (keys (entries fields)) "msg"
      then joined_text (get "msg" (entries fields))
      else to_text (obj fields)
  item_text v = to_text v

  unfoldable pub item_texts : Items → List String
  unfolding entries get
  item_texts nil = []
  item_texts (item v vs) = item_text v ∷ item_texts vs

  -- A text or a list under "detail".
  abbrev detail_text : Value → Option String
  detail_text (str s) = some s
  detail_text (arr vs) = some (join "; " (item_texts vs))
  detail_text _ = none

  unfoldable pub body_detail : Value → Option String
  unfolding item_texts join entries get
  body_detail (obj fields) = detail_text (get "detail" (entries fields))
  body_detail _ = none

  abbrev detail_of : Result Value → Option String
  detail_of (ok v) = body_detail v
  detail_of (err e) = none

  -- `${response.status} ${response.statusText}`.
  unfoldable pub status_line : Response → String
  unfolding ◌⊕◌ show_nat
  status_line response = show_nat response.status ⊕ (" " ⊕ response.status_text)

  abbrev aborted_message : Thrown → String
  aborted_message (error name message) = message
  aborted_message other = "Request aborted"

  unfoldable pub request : RequestOptions → Fetched → Result Value
  unfolding is_abort_error body_detail status_line
  request options (failed thrown) =
      if is_abort_error thrown || options.aborted
      then err (aborted_message thrown)
      else err
          "The browser could not reach the AAM API. If a content blocker is enabled, allow this site, then retry."
  request options (answered response) =
      if eqb response.status 401 && options.allow_unauthorized
      then ok null
      else if not response.is_ok
      then err (or_else (detail_of response.json) (status_line response))
      else if eqb response.status 204
      then ok undefined
      else response.json

  -- The answers that are a value.
  abbrev pub IsAnswer : RequestOptions → Response → Value → Type 0
  IsAnswer options response value =
      (((eqb response.status 401 && options.allow_unauthorized) ≡ true) × (null ≡ value))
      ⊎ (((eqb response.status 401 && options.allow_unauthorized) ≡ false)
          × (response.is_ok ≡ true)
          × (((eqb response.status 204 ≡ true) × (undefined ≡ value))
              ⊎ ((eqb response.status 204 ≡ false) × (response.json ≡ ok value))))

  both_fail :
      (b : Bool) (x y : String) (value : Value) → ¬ ((if b then err x else err y) ≡ ok value)
  both_fail true x y value h = cc
  both_fail false x y value h = cc

  -- The three tests of an answer.
  tests :
      (allowed is_ok is_empty_body : Bool) (message : String) (json : Result Value) (value : Value)
      → ((if allowed
            then ok null
            else if not is_ok
            then err message
            else if is_empty_body
            then ok undefined
            else json)
          ≡ ok value)
        ↔ (((allowed ≡ true) × (null ≡ value))
            ⊎ ((allowed ≡ false)
                × (is_ok ≡ true)
                × (((is_empty_body ≡ true) × (undefined ≡ value))
                    ⊎ ((is_empty_body ≡ false) × (json ≡ ok value)))))
  tests true o n m j v =
      (λ h. inl (refl, cc), λ h. elim h [ inl (_, e) ↦ ap ok e | inr (a, _, _) ↦ cc ])
  tests false false n m j v = (λ h. cc, λ h. elim h [ inl (a, _) ↦ cc | inr (_, o, _) ↦ cc ])
  tests false true true m j v = (
    λ h. inr (refl, refl, inl (refl, cc)),
    λ h. elim h [
      | inl (a, _) ↦ cc
      | inr (_, _, inl (_, e)) ↦ ap ok e
      | inr (_, _, inr (n, _)) ↦ cc
    ],
  )
  tests false true false m j v = (
    λ h. inr (refl, refl, inr (refl, h)),
    λ h. elim h [ inl (a, _) ↦ cc | inr (_, _, inl (n, _)) ↦ cc | inr (_, _, inr (_, e)) ↦ e ],
  )

  -- A request returns a value just if the server answered, and either the status is 401 and the
  -- caller allows that, which gives `null`, or the answer is a success: without a body for 204, and
  -- else with a body that is JSON.
  pub request-eq-ok_iff :
      (options : RequestOptions) (fetched : Fetched) (value : Value)
      → (request options fetched ≡ ok value)
        ↔ ((response : Response) × (fetched ≡ answered response) × IsAnswer options response value)
  unfolding request
  request-eq-ok_iff options (failed thrown) value = (
    λ h.
        elim (both_fail (is_abort_error thrown || options.aborted) (aborted_message thrown) _ value
          h) [ ],
    λ (response, e, _). cc,
  )
  request-eq-ok_iff options (answered response) value =
      let (f, g) =
        tests (eqb response.status 401 && options.allow_unauthorized) response.is_ok
          (eqb response.status 204) (or_else (detail_of response.json) (status_line response))
          response.json value in
      (
        λ h. (response, refl, f h),
        λ (other_response, e, h).
            let same : other_response ≡ response = cc in
            g (subst (λ r. IsAnswer options r value) same h),
      )

  -- The items of a validation error.
  abbrev pub messages : List String → Items
  messages [] = nil
  messages (m ∷ ms) = item (obj (from_entries (("msg", str m) ∷ []))) (messages ms)
