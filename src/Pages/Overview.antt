-- ===== src/Pages/Overview.antt =====
-- frontend/src/pages/dashboard.tsx, lines 90-187: the state of the dashboard, its loading, and what it
-- shows of the response; and lines 42-51: the colour of a resource's type.
use ansible_aam.Prelude.{
  ℕ, ◌+◌, String, ◌≡◌, Bool, false, not, ◌||◌, Option, none, some, List, [], ◌∷◌, map, arith, ◌==◌,
  if◌then◌else◌, length, select, take,
}
use ansible_aam.Prelude.Int.{pos, sub_ℕ}
use ansible_aam.Prelude.Dict.{Dict}
use ansible_aam.Prelude.Text.{◌⊕◌}
use ansible_aam.Prelude.Text.Numbers.{
  Number, int, truthy_number, less, same_number, parse_int, show,
}
use ansible_aam.Prelude.Result.{Result, ok, err}
use ansible_aam.Value.{Value, num, get}
use ansible_aam.Types.{DashboardResponse, ActivityEvent, HealthSample, EnvironmentSummary}
use ansible_aam.Utils.{EnvironmentKind, same_kind, environment_kind}
use ansible_aam.Monitoring.Services.{sort}
use ansible_aam.Prelude.Text.Search.{contains}
use ansible_aam.Pages.Coverage.{BarVariant, success, warning, danger}

pub record PageState : Type 0 where
  pub response : Option DashboardResponse
  pub activity : List ActivityEvent
  pub health_history : List HealthSample
  pub loading : Bool
  pub error : Option String

abbrev set_response : Result DashboardResponse → PageState → PageState
set_response (ok response) s = record s { response = some response; error = none }
set_response (err message) s = record s { error = some message }

abbrev set_activity : Result (List ActivityEvent) → PageState → PageState
set_activity (ok items) s = record s { activity = items }
set_activity (err message) s = s

abbrev set_history : Result (List HealthSample) → PageState → PageState
set_history (ok samples) s = record s { health_history = samples }
set_history (err message) s = s

-- The three results of `Promise.allSettled`, on a page that is still there.
unfoldable pub load_page :
    Result DashboardResponse
    → Result (List ActivityEvent)
    → Result (List HealthSample)
    → PageState
    → PageState
load_page dashboard activity history s =
    record (set_history history (set_activity activity (set_response dashboard s))) {
      loading = false;
    }

-- `normalized` is `resourceType.toLowerCase().replace(/[_-]+/g, " ")`.
unfoldable pub get_coverage_variant : String → Option BarVariant
unfolding contains
get_coverage_variant normalized =
    if contains normalized "failed"
      || (contains normalized "error" || contains normalized "critical")
    then some danger
    else if contains normalized "disabled" || contains normalized "warning"
    then some warning
    else none

unfoldable pub summaries_of : EnvironmentKind → DashboardResponse → List EnvironmentSummary
unfolding environment_kind
summaries_of kind response =
    select (λ (e : EnvironmentSummary). same_kind (environment_kind e.kind) kind)
      response.environment_summaries

unfoldable pub aap_services : DashboardResponse → Dict (Dict ℕ)
aap_services response = select (λ e. not (e.0 == "orchestrator")) response.services

unfoldable pub orchestrator_services : DashboardResponse → Dict (Dict ℕ)
orchestrator_services response = select (λ e. e.0 == "orchestrator") response.services

unfoldable pub top_integrations : DashboardResponse → Dict ℕ
unfolding sort
top_integrations response =
    take 6 (sort (λ left right. sub_ℕ right.1 left.1) response.integration_breakdown)

pub record ScoreBar : Type 0 where
  pub label : String
  pub value : Number
  pub total : ℕ
  pub value_text : String
  pub variant : BarVariant

-- `n || 0`.
abbrev or_zero : Number → Number
or_zero n = if truthy_number n then n else int (pos 0)

-- `to_text` is `String(value ?? 0)` of a value that is no number.
unfoldable pub health_score_of : (Value → String) → Value → Number
unfolding parse_int
health_score_of to_text (num n) = n
health_score_of to_text value = or_zero (parse_int (to_text value))

-- `score >= n`.
abbrev at_least : Number → ℕ → Bool
at_least score n = less (int (pos n)) score || same_number score (int (pos n))

unfoldable pub health_score_items : (Value → String) → List EnvironmentSummary → List ScoreBar
unfolding health_score_of get show ◌⊕◌
health_score_items to_text environments =
    map
      (λ (e : EnvironmentSummary).
        let score = health_score_of to_text (get "health_score" e.summary) in
        record {
          label = e.name;
          value = score;
          total = 100;
          value_text = show score ⊕ " of 100";
          variant =
              if at_least score 85 then success else if at_least score 60 then warning else danger;
        })
      environments

-- The services of the response are split: each entry is shown with the estates of AAP or with those
-- of the orchestrator, and not with both.
pub services-split :
    (response : DashboardResponse)
    → length (aap_services response) + length (orchestrator_services response)
      ≡ length response.services
unfolding aap_services orchestrator_services
services-split response = split response.services
  where
    split :
        (entries : Dict (Dict ℕ))
        → length (select (λ e. not (e.0 == "orchestrator")) entries)
            + length (select (λ e. e.0 == "orchestrator") entries)
          ≡ length entries
    split [] = omega arith
    split (e ∷ entries) = ground (arith, split entries)
