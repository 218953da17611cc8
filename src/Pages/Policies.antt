-- ===== src/Pages/Policies.antt =====
-- frontend/src/pages/policies.tsx, lines 58-213: the state of the policies page, its loading, and its
-- handlers. What `Promise.all` and `Promise.allSettled` gave are arguments.
mod Tests
pub mod Handlers
use ansible_aam.Prelude.{
  ℕ, zero, suc, ◌+◌, ◌-◌, ◌*◌, ◌≤◌, ◌<◌, Char, code, String, ◌≡◌, refl, sym, ap, ◌∙◌, ◌≢◌, ◌↔◌, ◌⊎◌,
  inl, inr, Bool, true, false, not, ◌&&◌, ◌||◌, Option, none, some, List, [], ◌∷◌, ◌++◌, map, arith,
  ◌==◌, eq_iff, eq_refl, ltb, leb, eqb, if◌then◌else◌, Bool-cases, Option-cases, or_else, is_some,
  length, select, some_of, every, find, take, drop, somes, length-append, select-append,
  length-select-le, length-somes-le, All, All-append, flat_map, length-map,
}
use ansible_aam.Prelude.Int.{ℤ, pos, negsuc, ◌+ℤ◌, ltb_ℤ, leb_ℤ, eqb_ℤ}
use ansible_aam.Prelude.Dict.{
  Dict, includes, keys, lookup, insert, remove, lookup-insert, lookup-remove,
}
use ansible_aam.Prelude.Text.{
  ◌⊕◌, is_empty, or_text, trim, is_blank, String-cases, trim_idem, trim-nil, is_empty-eq,
}
use ansible_aam.Prelude.Text.Numbers.{
  Number, nan, infinity, neg_infinity, int, is_finite, truthy_number, add, less, same_number,
  parse_int, show_nat, show, parse_int-show_nat,
}
use ansible_aam.Prelude.Result.{Result, ok, err}
use ansible_aam.Prelude.Action.{Action, ◌>>=◌, ◌>>◌, change, answer, attempt}
use ansible_aam.Types.{
  Policy, PolicyCreatePayload, PolicyPushResult, PolicyRemediateResult, PolicyResult,
  ConfigBaseline, CurrentUser,
}
use ansible_aam.Forms.Policy.{is_admin}

unfoldable pub push_summary : PolicyPushResult → String
unfolding ◌⊕◌ show
push_summary result =
    "Queried "
    ⊕ (show result.environments
        ⊕ (" environment(s) live — "
            ⊕ (show result.compliant
                ⊕ (" compliant, "
                    ⊕ (show result.noncompliant
                        ⊕ (" noncompliant, "
                            ⊕ (show result.unknown
                                ⊕ (" unknown, " ⊕ (show result.skipped ⊕ " skipped.")))))))))

unfoldable pub remediate_summary : PolicyRemediateResult → String
unfolding ◌⊕◌ show
remediate_summary result =
    "Wrote configuration to "
    ⊕ (show result.applied
        ⊕ (" environment(s), "
            ⊕ (show result.failed
                ⊕ (" failed, "
                    ⊕ (show result.skipped
                        ⊕ (" skipped. Now "
                            ⊕ (show result.compliant
                                ⊕ (" compliant, "
                                    ⊕ (show result.noncompliant ⊕ " noncompliant.")))))))))

pub data EvaluationKind : Type 0 where
  evaluate remediate : EvaluationKind

pub record EvaluationSummary : Type 0 where
  pub policy_name : String
  pub result : PolicyPushResult
  pub kind : EvaluationKind

pub record PageState : Type 0 where
  pub policies : List Policy
  pub results : List PolicyResult
  pub loading : Bool
  pub error : Option String
  pub message : Option String
  pub updating_id : Option String
  pub pushing_id : Option String
  pub remediating_id : Option String
  pub can_manage : Bool
  pub is_create_open : Bool
  pub creating : Bool
  pub baseline : Option ConfigBaseline
  pub evaluation : Option EvaluationSummary

-- The answers of the API while one event is handled; `reloaded` is what `Promise.all` gave.
pub record Server : Type 0 where
  pub update_policy : String → Bool → Result Policy
  pub push_policy : String → Result PolicyPushResult
  pub remediate_policy : String → Result PolicyRemediateResult
  pub create_policy : PolicyCreatePayload → Result Policy
  pub reloaded : Result (List Policy × List PolicyResult × ConfigBaseline)

-- The four results of the first loading.
pub record Settled : Type 0 where
  pub policies : Result (List Policy)
  pub results : Result (List PolicyResult)
  pub baseline : Result ConfigBaseline
  pub me : Result (Option CurrentUser)

abbrev set_policies : Result (List Policy) → PageState → PageState
set_policies (ok policies) s = record s { policies = policies }
set_policies (err message) s = record s { error = some message }

abbrev set_results : Result (List PolicyResult) → PageState → PageState
set_results (ok results) s = record s { results = results }
set_results (err message) s = s

abbrev set_baseline : Result ConfigBaseline → PageState → PageState
set_baseline (ok baseline) s = record s { baseline = some baseline }
set_baseline (err message) s = s

unfoldable pub can_manage_policies : CurrentUser → Bool
unfolding is_admin
can_manage_policies user = is_admin user.roles || includes (or_else user.system_roles []) "admin"

abbrev set_me : Result (Option CurrentUser) → PageState → PageState
set_me (ok (some user)) s = record s { can_manage = can_manage_policies user }
set_me (ok none) s = s
set_me (err message) s = s

-- The first loading, on a page that is still there.
unfoldable pub load_page : Settled → PageState → PageState
unfolding can_manage_policies
load_page settled s =
    record (set_me settled.me (
      set_baseline settled.baseline
        (set_results settled.results (set_policies settled.policies s)))) { loading = false }

abbrev pub fail : String → PageState → PageState
fail text s = record s { error = some text }

-- `if (error && policies.length === 0)`: the page is then an alert with the error, and nothing else of it
-- is drawn.
unfoldable pub is_unavailable : PageState → Bool
is_unavailable s = not (is_empty (or_else s.error "")) && eqb (length s.policies) 0

-- `current.map((item) => item.id === updated.id ? updated : item)`.
unfoldable pub replace_policy : Policy → List Policy → List Policy
replace_policy updated current =
    map (λ (item : Policy). if item.id == updated.id then updated else item) current

module _ (server : Server) where
  unfoldable pub reload : Action PageState (Unit {0})
  reload = do
    (policies, results, baseline) ← answer server.reloaded
    change (λ s. record s { policies = policies; results = results; baseline = some baseline })

  unfoldable pub toggle_policy : Policy → Bool → PageState → PageState
  unfolding replace_policy
  toggle_policy policy enabled s =
      attempt
        (do
          updated ← answer (server.update_policy policy.id enabled)
          change (λ t. record t { policies = replace_policy updated t.policies }))
        fail (λ t. record t { updating_id = none })
        (record s { updating_id = some policy.id; error = none })

  unfoldable pub push_policy : Policy → PageState → PageState
  unfolding reload push_summary ◌⊕◌
  push_policy policy s =
      attempt
        (do
          result ← answer (server.push_policy policy.id)
          change (λ t. record t {
            evaluation =
                some (record { policy_name = policy.name; result = result; kind = evaluate });
            message = some (policy.name ⊕ (": " ⊕ push_summary result));
          })
          reload)
        fail (λ t. record t { pushing_id = none })
        (record s { pushing_id = some policy.id; error = none; message = none })

  unfoldable pub remediate_policy : Policy → PageState → PageState
  unfolding reload remediate_summary ◌⊕◌
  remediate_policy policy s =
      attempt
        (do
          result ← answer (server.remediate_policy policy.id)
          change (λ t. record t {
            evaluation =
                some
                  (record { policy_name = policy.name; result = result.pushed; kind = remediate });
            message = some (policy.name ⊕ (": " ⊕ remediate_summary result));
          })
          reload)
        fail (λ t. record t { remediating_id = none })
        (record s { remediating_id = some policy.id; error = none; message = none })

  unfoldable pub create_policy : PolicyCreatePayload → PageState → PageState
  unfolding reload ◌⊕◌
  create_policy payload s =
      attempt
        (do
          created ← answer (server.create_policy payload)
          change (λ t. record t { is_create_open = false })
          reload
          change (λ t. record t {
            message = some (
                "Created "
                ⊕ (created.name
                    ⊕ (if payload.push_to_fleet
                        then " and evaluated it against all matching environments."
                        else ". Enable and push it when you are ready.")));
          }))
        fail (λ t. record t { creating = false })
        (record s { creating = true; error = none; message = none })
