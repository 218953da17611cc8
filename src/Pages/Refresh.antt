-- ===== src/Pages/Refresh.antt =====
-- frontend/src/pages/settings.tsx, lines 80-86 and 275-302: who may edit a refresh interval, and
-- saving it.
pub mod Rows
use ansible_aam.Prelude.{
  ℕ, zero, suc, ◌+◌, ◌-◌, ◌*◌, ◌≤◌, ◌<◌, Char, code, String, ◌≡◌, refl, sym, ap, ◌∙◌, ◌≢◌, ◌↔◌, ◌⊎◌,
  inl, inr, Bool, true, false, not, ◌&&◌, ◌||◌, Option, none, some, List, [], ◌∷◌, ◌++◌, map, arith,
  ◌==◌, eq_iff, eq_refl, ltb, leb, eqb, if◌then◌else◌, Bool-cases, Option-cases, or_else, is_some,
  length, select, some_of, every, find, take, drop, somes, length-append, select-append,
  length-select-le, length-somes-le, All, All-append, flat_map, length-map,
}
use ansible_aam.Prelude.Int.{ℤ, pos, negsuc, ◌+ℤ◌, ltb_ℤ, leb_ℤ, eqb_ℤ}
use ansible_aam.Prelude.Dict.{
  Dict, includes, keys, lookup, insert, remove, lookup-insert, lookup-remove,
}
use ansible_aam.Prelude.Text.{
  ◌⊕◌, is_empty, or_text, trim, is_blank, String-cases, trim_idem, trim-nil, is_empty-eq,
}
use ansible_aam.Prelude.Text.Numbers.{
  Number, nan, infinity, neg_infinity, int, is_finite, truthy_number, add, less, same_number,
  parse_int, show_nat, show, parse_int-show_nat,
}
use ansible_aam.Prelude.Result.{Result, ok, err}
use ansible_aam.Types.{CurrentUser, EnvironmentSummary}

abbrev roles_in : Option (Dict (List String)) → String → List String
roles_in none environment_id = []
roles_in (some roles) environment_id = or_else (lookup environment_id roles) []

-- canEditRefresh; no user is one without roles.
unfoldable pub can_edit_refresh : Option CurrentUser → String → Bool
unfolding lookup
can_edit_refresh none environment_id = false
can_edit_refresh (some user) environment_id =
    if includes (or_else user.system_roles []) "admin"
    then true
    else let roles = roles_in user.environment_roles environment_id in
      includes roles "environment-admin" || includes roles "environment-user"

-- `!Number.isInteger(minutes) || minutes < 1 || minutes > 1440`.
abbrev pub is_out_of_range : Number → Bool
is_out_of_range (int z) = ltb_ℤ z (pos 1) || ltb_ℤ (pos 1440) z
is_out_of_range _ = true

pub record RefreshState : Type 0 where
  pub environments : List EnvironmentSummary
  pub drafts : Dict String
  pub row_error : Dict String
  pub row_notice : Dict String
  pub saving_id : Option String

abbrev saved_notice : EnvironmentSummary → String
saved_notice environment = elim environment.is_managed [
  | none ↦ "Saved. The next collection uses this interval."
  | some managed ↦
      if managed
      then "Saved. The next collection uses this interval."
      else "Saved. Collection stays paused until this registration is activated."
]

-- The text that is saved: the draft, or the interval that is shown without one.
unfoldable pub draft_of : EnvironmentSummary → RefreshState → String
unfolding lookup show
draft_of environment state =
    or_else (lookup environment.id state.drafts) (show environment.sync_interval_minutes)

-- What follows an answer of the API; `{ ...item, ...updated }` is `updated`, which has every field.
unfoldable pub after_answer :
    EnvironmentSummary → Result EnvironmentSummary → RefreshState → RefreshState
unfolding insert show
after_answer environment (ok updated) state = record state {
  environments =
      map (λ item. if item.id == environment.id then updated else item) state.environments;
  drafts = insert environment.id (show updated.sync_interval_minutes) state.drafts;
  row_notice = insert environment.id (saved_notice environment) state.row_notice;
}
after_answer environment (err message) state = record state {
  row_error = insert environment.id message state.row_error;
}

-- save, over the call of `api.updateEnvironment`; with the number of calls that it made.
module _ (update_environment : String → Number → Result EnvironmentSummary) where
  unfoldable pub save_refresh : EnvironmentSummary → RefreshState → RefreshState × List Number
  unfolding insert after_answer draft_of parse_int
  save_refresh environment state =
      let minutes = parse_int (draft_of environment state) in
      if is_out_of_range minutes
      then (
        record state {
          row_error =
              insert environment.id "Enter a refresh interval from 1 to 1440 minutes."
                state.row_error;
          row_notice = insert environment.id "" state.row_notice;
        },
        [],
      )
      else (
        record (after_answer environment (update_environment environment.id minutes) (record state {
          saving_id = some environment.id;
          row_error = insert environment.id "" state.row_error;
          row_notice = insert environment.id "" state.row_notice;
        })) { saving_id = none },
        minutes ∷ [],
      )
