-- ===== src/Pages/Environments.antt =====
-- frontend/src/pages/environments.tsx, lines 37-67 and 129-144: the status of a score, the services
-- of a row, and the filters and counts of the list.
pub mod Page
use ansible_aam.Prelude.{
  ℕ, ◌+◌, String, ◌≡◌, refl, ◌⊎◌, inl, inr, Bool, true, false, Option, none, some, List, [], ◌∷◌,
  arith, ◌==◌, eqb, if◌then◌else◌, length, select,
}
use ansible_aam.Prelude.Int.{pos, leb_ℤ, sub_ℕ}
use ansible_aam.Prelude.Dict.{Dict, includes}
use ansible_aam.Prelude.Text.Numbers.{int}
use ansible_aam.Value.{Value, num, str, obj, entries, get}
use ansible_aam.Types.{EnvironmentSummary}
use ansible_aam.Utils.{EnvironmentKind, aap, orchestrator, same_kind, environment_kind}
use ansible_aam.Monitoring.Services.{service_order, sort}

unfoldable pub health_score_status : Value → String
health_score_status (num (int score)) =
    if leb_ℤ (pos 80) score
    then "healthy"
    else if leb_ℤ (pos 50) score
    then "warning"
    else "critical"
health_score_status _ = "unknown"

pub record ServiceStatus : Type 0 where
  pub service : String
  pub health : String

-- `typeof value.health === "string" ? value.health : "unknown"`.
abbrev text_or_unknown : Value → String
text_or_unknown (str s) = s
text_or_unknown _ = "unknown"

-- The entries that are objects, each with its health.
unfoldable pub status_rows : Dict Value → List ServiceStatus
unfolding entries get
status_rows [] = []
status_rows ((service, obj fields) ∷ rest) =
    record { service = service; health = text_or_unknown (get "health" (entries fields)) }
    ∷ status_rows rest
status_rows ((service, _) ∷ rest) = status_rows rest

abbrev services_of : Value → Dict Value
services_of (obj fields) = entries fields
services_of _ = []

unfoldable pub get_service_statuses : EnvironmentSummary → List ServiceStatus
unfolding status_rows sort service_order environment_kind
get_service_statuses environment =
    let order =
      if same_kind (environment_kind environment.kind) orchestrator
      then "orchestrator" ∷ []
      else "gateway" ∷ "controller" ∷ "eda" ∷ "hub" ∷ [] in
    sort
      (λ left right. sub_ℕ (service_order order left.service) (service_order order right.service))
      (status_rows (services_of (get "service_summaries" environment.summary)))

-- `kindFilter`: all, or one kind.
abbrev pub is_kind : Option EnvironmentKind → EnvironmentSummary → Bool
is_kind none environment = true
is_kind (some kind) environment = same_kind (environment_kind environment.kind) kind

-- `groupFilter`.
abbrev pub is_group : String → EnvironmentSummary → Bool
is_group filter environment =
    if filter == "all"
    then true
    else if filter == "ungrouped"
    then eqb (length environment.groupings) 0
    else includes environment.groupings filter

unfoldable pub visible_environments :
    Option EnvironmentKind → String → List EnvironmentSummary → List EnvironmentSummary
visible_environments kind_filter group_filter environments =
    select (is_group group_filter) (select (is_kind kind_filter) environments)

unfoldable pub count_kind : EnvironmentKind → List EnvironmentSummary → ℕ
unfolding environment_kind
count_kind kind environments = length (select (is_kind (some kind)) environments)

unfoldable pub count_status : String → List EnvironmentSummary → ℕ
count_status status environments = length (select (λ e. e.status == status) environments)

-- The figures above the list.
unfoldable pub counts_by_kind : List EnvironmentSummary → ℕ × ℕ
unfolding count_kind
counts_by_kind environments = (count_kind aap environments, count_kind orchestrator environments)

one_kind :
    (k : EnvironmentKind)
    → (same_kind k aap ≡ true) × (same_kind k orchestrator ≡ false)
      ⊎ (same_kind k aap ≡ false) × (same_kind k orchestrator ≡ true)
one_kind aap = inl (refl, refl)
one_kind orchestrator = inr (refl, refl)

-- Every environment is counted under just one of the two products.
pub count_kind-sum :
    (environments : List EnvironmentSummary)
    → (counts_by_kind environments).0 + (counts_by_kind environments).1 ≡ length environments
unfolding counts_by_kind
count_kind-sum [] = refl
count_kind-sum (e ∷ environments) =
    let sum = count_kind-sum environments in
    elim (one_kind (environment_kind e.kind)) [
      | inl (a, o) ↦ rw (a, o) (omega (arith, sum))
      | inr (a, o) ↦ rw (a, o) (omega (arith, sum))
    ]
