-- ===== src/Pages/Activity.antt =====
-- frontend/src/pages/activity.tsx, lines 15-54: the state of the activity page and its requests, each
-- with the controller that a change of the selection or a reload aborts. `fetch` rejects with an
-- `AbortError` if and only if the controller was aborted.
mod Tests
pub mod Fresh
use ansible_aam.Prelude.{
  ℕ, zero, suc, ◌+◌, ◌-◌, ◌*◌, ◌≤◌, ◌<◌, Char, code, String, ◌≡◌, refl, sym, ap, ◌∙◌, ◌≢◌, ◌↔◌, ◌⊎◌,
  inl, inr, Bool, true, false, not, ◌&&◌, ◌||◌, Option, none, some, List, [], ◌∷◌, ◌++◌, map, arith,
  ◌==◌, eq_iff, eq_refl, ltb, leb, eqb, if◌then◌else◌, Bool-cases, Option-cases, or_else, is_some,
  length, select, some_of, every, find, take, drop, somes, length-append, select-append,
  length-select-le, length-somes-le, All, All-append, flat_map, length-map,
}
use ansible_aam.Prelude.Int.{ℤ, pos, negsuc, ◌+ℤ◌, ltb_ℤ, leb_ℤ, eqb_ℤ}
use ansible_aam.Prelude.Dict.{
  Dict, includes, keys, lookup, insert, remove, lookup-insert, lookup-remove,
}
use ansible_aam.Prelude.Text.{
  ◌⊕◌, is_empty, or_text, trim, is_blank, String-cases, trim_idem, trim-nil, is_empty-eq,
}
use ansible_aam.Prelude.Text.Numbers.{
  Number, nan, infinity, neg_infinity, int, is_finite, truthy_number, add, less, same_number,
  parse_int, show_nat, show, parse_int-show_nat,
}
use ansible_aam.Prelude.Result.{Result, ok, err, Result-cases}
use ansible_aam.Types.{ActivityEvent}

pub record PageState : Type 0 where
  pub selected_environment_id : String
  pub items : List ActivityEvent
  pub loading : Bool
  pub error : Option String
  pub reload_token : ℕ

-- The argument of `api.activity`, as the selection that it stands for, and the state of the signal.
pub record Request : Type 0 where
  pub selected : String
  pub aborted : Bool

-- The page and its requests that have not settled.
pub record Board : Type 0 where
  pub page : PageState
  pub open page use *
  pub requests : List Request

-- The `environmentId` that `api.activity` gets.
unfoldable pub asked_environment : String → Option String
asked_environment selected = if selected == "all" then none else some selected

-- `controller.abort()` of each effect that ran.
unfoldable pub abort_all : List Request → List Request
abort_all requests = map (λ (r : Request). record r { aborted = true }) requests

-- The cleanup of the last effect, and the next effect, after the page changed.
unfoldable pub restart : PageState → List Request → Board
unfolding abort_all
restart page requests = record {
  page = record page { loading = true; error = none };
  requests =
      record { selected = page.selected_environment_id; aborted = false } ∷ abort_all requests;
}

-- The callbacks of a request: `then` or `catch`, and `finally`.
unfoldable pub settle : Request → Result (List ActivityEvent) → PageState → PageState
settle r (ok value) s =
    if r.aborted then s else record s { items = value; error = none; loading = false }
settle r (err message) s =
    if r.aborted then s else record s { error = some message; loading = false }

abbrev pub opened : PageState
opened = record {
  selected_environment_id = "all";
  items = [];
  loading = true;
  error = none;
  reload_token = 0;
}

-- The page after its first effect.
unfoldable pub first_board : Board
unfolding restart
first_board = restart opened []

-- `Answers environment items`: the API may answer a request for the environment with the items.
module _ (Answers : Option String → List ActivityEvent → Type 0) where
  -- The requests settle in any order, and before or after any change of the selection.
  pub data Step : Board → Board → Type 0 where
    select_environment :
        (page : PageState) (requests : List Request) (id : String)
        → page.selected_environment_id == id ≡ false
        → Step
            (record { page = page; requests = requests })
            (restart (record page { selected_environment_id = id }) requests)
    reload :
        (page : PageState) (requests : List Request)
        → Step
            (record { page = page; requests = requests })
            (restart (record page { reload_token = page.reload_token + 1 }) requests)
    answered :
        (page : PageState) (before after : List Request) (r : Request) (items : List ActivityEvent)
        → Answers (asked_environment r.selected) items
        → Step
            (record { page = page; requests = before ++ (r ∷ after) })
            (record { page = settle r (ok items) page; requests = before ++ after })
    rejected :
        (page : PageState) (before after : List Request) (r : Request) (message : String)
        → Step
            (record { page = page; requests = before ++ (r ∷ after) })
            (record { page = settle r (err message) page; requests = before ++ after })
    canceled :
        (page : PageState) (before after : List Request) (r : Request)
        → r.aborted ≡ true
        → Step
            (record { page = page; requests = before ++ (r ∷ after) })
            (record { page = page; requests = before ++ after })

  pub data Reaches : Board → Board → Type 0 where
    done : (b : Board) → Reaches b b
    next : (a b c : Board) → Step a b → Reaches b c → Reaches a c
