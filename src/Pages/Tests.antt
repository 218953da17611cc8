-- ===== src/Pages/Tests.antt =====
-- The theorems on the pages at concrete fleets.
use ansible_aam.Prelude.{
  ◌≢◌, is_some, length, select, not, ℕ, ◌≤◌, String, ◌≡◌, refl, ◌↔◌, ◌⊎◌, ◌++◌, true, false, Option,
  none, some, List, [], ◌∷◌, map, ◌==◌, if◌then◌else◌, All,
}
use ansible_aam.Prelude.Int.{pos}
use ansible_aam.Prelude.Dict.{Dict, includes, keys, lookup}
use ansible_aam.Prelude.Text.{trim, ◌⊕◌}
use ansible_aam.Prelude.Text.Search.{contains, starts_with}
use ansible_aam.Prelude.Text.Numbers.{Number, int, show_nat}
use ansible_aam.Prelude.Result.{Result, ok, err}
use ansible_aam.Value.{Value, num, str, get, obj, from_entries}
use ansible_aam.Types.{
  EnvironmentSummary, MonitoringEnvironment, oauth2, podman, ControllerJob, FleetAlert, Resource,
  cancel_workflow_job, SearchResult,
}
use ansible_aam.Pages.Coverage.{
  danger, configuration_coverage, IsDrawable, configuration_coverage-IsDrawable,
}
use ansible_aam.Pages.Alerts.{AlertState, dismiss, dismiss_lem}
use ansible_aam.Pages.Inventory
use ansible_aam.Pages.Inventory.{
  on_submit, search_path, is_short, found, IsQuery, on_submit-IsQuery,
}
use ansible_aam.Pages.Profile
use ansible_aam.Pages.Profile.{submit_password, notice, complaint, submit_password_lem}
use ansible_aam.Pages.Fleet.{sum_numeric_metric, build_health_breakdown}
use ansible_aam.Pages.Fleet.Breakdown.{IsAccurate, build_health_breakdown-IsAccurate}
use ansible_aam.Pages.Fleet.Totals.{total_of, metric_of, sum_numeric_metric-eq-total}
use ansible_aam.Monitoring.Snapshots.{get_snapshot}
use ansible_aam.Pages.Dashboard.{
  sum_service_metric, service_value, Agrees, coverage_entries, coverage_entries-preferred,
  sum_service_metric-eq-sum_numeric_metric,
}
use ansible_aam.Pages.Jobs.{
  cancel_request, cancel_action, resolve_job_url, has_http_scheme, after_http,
}
use ansible_aam.Pages.Refresh.{RefreshState, save_refresh}
use ansible_aam.Pages.Refresh.Rows.{SameRow, save_refresh-calls_iff, save_refresh-SameRow}
use ansible_aam.Pages.Resources.{is_shown, haystack}
use ansible_aam.Pages.Overview.{get_coverage_variant}
use ansible_aam.Pages.Shell.{
  is_active_path, open_alerts, Browser, dark, read_color_mode, write_color_mode,
  resolve_initial_color_mode, write_color_mode-read,
}

abbrev summary : String → EnvironmentSummary
summary id = record {
  id = id;
  name = "East";
  slug = "east";
  description = "";
  owner = "";
  tags = [];
  groupings = [];
  kind = none;
  deployment_type = podman;
  infrastructure = [];
  status = "healthy";
  is_managed = none;
  sync_interval_minutes = int (pos 5);
  platform_version = none;
  last_synced_at = none;
  last_sync_error = none;
  summary = [];
}

abbrev estate : String → String → Value → MonitoringEnvironment
estate id health jobs = record {
  environment = summary id;
  auth_mode = oauth2;
  verify_ssl = true;
  capabilities = [];
  snapshots =
      record {
        service = "controller";
        health = health;
        summary = ("jobs_total", jobs) ∷ [];
        collected_at = "";
      }
      ∷ [];
}

abbrev fleet : List MonitoringEnvironment
fleet =
    estate "e1" "healthy" (num (int (pos 7)))
    ∷ estate "e2" "critical" (str " 5 ")
    ∷ estate "e3" "toString" (str "many")
    ∷ []

sum_numeric_metric-eq-total_example :
    sum_numeric_metric fleet "controller" "jobs_total"
    ≡ int (total_of (map (metric_of "controller" "jobs_total") fleet))
sum_numeric_metric-eq-total_example = sum_numeric_metric-eq-total "controller" "jobs_total" fleet

build_health_breakdown-IsAccurate_example :
    All (IsAccurate fleet) (build_health_breakdown fleet ("controller" ∷ "hub" ∷ []))
build_health_breakdown-IsAccurate_example =
    build_health_breakdown-IsAccurate fleet ("controller" ∷ "hub" ∷ [])

abbrev execution : ControllerJob
execution = record {
  id = "9";
  name = "deploy";
  status = "running";
  job_type = none;
  started = none;
  finished = none;
  elapsed = none;
  environment_id = "e1";
  environment_name = "East";
  deployment_type = none;
  url = none;
  source = some "orchestrator";
  metadata = [];
}

abbrev same : String → String
same s = s

abbrev workflow_job : ControllerJob
workflow_job = record execution {
  job_type = some "workflow_job";
  source = some "controller";
  url = some "HTTPS://aap.example.com/jobs/9";
}

workflow_test : (cancel_request same workflow_job).action ≡ cancel_workflow_job
unfolding cancel_request cancel_action contains starts_with
workflow_test = refl

url_test : resolve_job_url workflow_job ≡ some "HTTPS://aap.example.com/jobs/9"
unfolding resolve_job_url has_http_scheme after_http starts_with
url_test = refl

abbrev pair : List EnvironmentSummary
pair = summary "e1" ∷ record (summary "e2") { kind = some "orchestrator" } ∷ []

abbrev accept : String → Number → Result EnvironmentSummary
accept id minutes = ok (record (summary id) { sync_interval_minutes = minutes })

abbrev rows : RefreshState
rows = record {
  environments = pair;
  drafts = ("e1", show_nat 1440) ∷ [];
  row_error = ("e2", "late") ∷ [];
  row_notice = [];
  saving_id = none;
}

typed_row : lookup "e1" rows.drafts ≡ some (show_nat 1440)
unfolding lookup
typed_row = refl

save_refresh-calls_iff_example :
    ((save_refresh accept (summary "e1") rows).1 ≡ int (pos 1440) ∷ [])
    ↔ ((1 ≤ 1440) × (1440 ≤ 1440))
save_refresh-calls_iff_example = save_refresh-calls_iff accept (summary "e1") rows 1440 typed_row

save_refresh-SameRow_example : SameRow "e2" (save_refresh accept (summary "e1") rows).0 rows
save_refresh-SameRow_example = save_refresh-SameRow accept (summary "e1") rows "e2" refl

inside_test : is_active_path "/environments/e1" ("/environments" ∷ []) ≡ true
unfolding is_active_path starts_with ◌⊕◌
inside_test = refl

outside_test : is_active_path "/env" ("/environments" ∷ []) ≡ false
unfolding is_active_path starts_with ◌⊕◌
outside_test = refl

colour_test : get_coverage_variant "failed jobs" ≡ some danger
unfolding get_coverage_variant contains starts_with
colour_test = refl

no_colour_test : get_coverage_variant "workflow" ≡ none
unfolding get_coverage_variant contains starts_with
no_colour_test = refl

abbrev activation : Resource
activation = record {
  id = "r";
  service = "eda";
  resource_type = "activation";
  external_id = "3";
  name = "watch";
  status = "disabled";
  namespace = none;
  url = none;
  metadata_json = [];
  last_seen_at = "";
}

found_test : is_shown same "all" "activation" "watch" activation ≡ true
unfolding is_shown haystack contains starts_with
found_test = refl

not_found_test : is_shown same "all" "all" "rulebook" activation ≡ false
unfolding is_shown haystack contains starts_with
not_found_test = refl

abbrev alert : Option String → FleetAlert
alert resolved = record {
  id = "a";
  environment_id = "e1";
  environment_name = "East";
  severity = "warning";
  message = "m";
  created_at = "t";
  acknowledged_at = some "";
  resolved_at = resolved;
}

abbrev browser : Browser
browser = record {
  has_dark_class = false;
  color_scheme = "light";
  storage = some [];
  prefers_dark = false;
}

write_color_mode-read_example :
    (read_color_mode (write_color_mode dark browser).0 ≡ dark)
    × ((write_color_mode dark browser).1 ≡ true
        → resolve_initial_color_mode (write_color_mode dark browser).0 ≡ dark)
write_color_mode-read_example = write_color_mode-read dark browser

abbrev summed : MonitoringEnvironment
summed = record (estate "e1" "healthy" (num (int (pos 7)))) {
  environment = record (summary "e1") {
    summary =
        (
          "service_summaries",
          obj (
              from_entries
                (("controller", obj (from_entries (("jobs_total", num (int (pos 7))) ∷ []))) ∷ [])),
        )
        ∷ [];
  };
}

summed-Agrees : Agrees "controller" "jobs_total" summed
unfolding service_value from_entries get get_snapshot
summed-Agrees = refl

sum_service_metric-eq-sum_numeric_metric_example :
    sum_service_metric
      (map (λ (e : MonitoringEnvironment). e.environment) (summed ∷ []))
      "controller"
      "jobs_total"
    ≡ sum_numeric_metric (summed ∷ []) "controller" "jobs_total"
sum_service_metric-eq-sum_numeric_metric_example =
    sum_service_metric-eq-sum_numeric_metric "controller" "jobs_total" (summed ∷ [])
      (summed-Agrees, tt)

abbrev breakdown : Dict ℕ
breakdown =
    ("a", 9)
    ∷ ("workflow", 0)
    ∷ ("b", 8)
    ∷ ("c", 7)
    ∷ ("d", 6)
    ∷ ("e", 5)
    ∷ ("f", 4)
    ∷ ("g", 3)
    ∷ ("h", 2)
    ∷ ("i", 1)
    ∷ []

coverage_entries-preferred_example : includes (keys (coverage_entries breakdown)) "workflow" ≡ true
coverage_entries-preferred_example = coverage_entries-preferred breakdown "workflow" refl refl

-- The page for a search, with a text that is too long only for its white space.
abbrev search_page : Inventory.PageState
search_page = record {
  query = "  eda ";
  results = [];
  searched = false;
  searching = false;
  error = none;
  queries = [];
}

abbrev no_results : String → Result (List SearchResult)
no_results path = if path == "/search?q=eda" then ok [] else err "not found"

on_submit-IsQuery_example :
    All IsQuery (on_submit no_results search_page).queries
    × ((on_submit no_results search_page).searched ≡ true)
    × ((on_submit no_results search_page).searching ≡ false)
    × (((is_short search_page ≡ true)
          × ((on_submit no_results search_page).queries ≡ search_page.queries)
          × ((on_submit no_results search_page).results ≡ [])
          × (is_some (on_submit no_results search_page).error ≡ true))
        ⊎ ((is_short search_page ≡ false)
            × ((on_submit no_results search_page).queries
                ≡ search_page.queries ++ (trim search_page.query ∷ []))
            × ((on_submit no_results search_page).results
                ≡ found (no_results (search_path (trim search_page.query))) search_page.results)))
on_submit-IsQuery_example = on_submit-IsQuery no_results search_page tt refl

abbrev password_page : Profile.PageState
password_page = record {
  next_password = "new";
  confirm_password = "new";
  message = "Password updated.";
  error = "";
  busy = false;
  updates = [];
}

abbrev signed_in : Option String
signed_in = some "u1"

abbrev accepts : String → String → Result (Unit {0})
accepts id password = ok tt

submit_password_lem_example :
    ((submit_password accepts signed_in password_page).busy ≡ false)
    × (((signed_in ≡ none)
          × (submit_password accepts signed_in password_page
              ≡ record password_page { error = "This session cannot change a password." }))
        ⊎ ((id : String) × (signed_in ≡ some id)
            × (((password_page.next_password ≢ password_page.confirm_password)
                  × ((submit_password accepts signed_in password_page).updates
                      ≡ password_page.updates)
                  × ((submit_password accepts signed_in password_page).message ≡ "")
                  × ((submit_password accepts signed_in password_page).error
                      ≡ "The passwords do not match."))
                ⊎ ((password_page.next_password ≡ password_page.confirm_password)
                    × ((submit_password accepts signed_in password_page).updates
                        ≡ password_page.updates ++ ((id, password_page.next_password) ∷ []))
                    × ((submit_password accepts signed_in password_page).message
                        ≡ notice (accepts id password_page.next_password))
                    × ((submit_password accepts signed_in password_page).error
                        ≡ complaint (accepts id password_page.next_password))))))
submit_password_lem_example = submit_password_lem accepts signed_in password_page refl

configuration_coverage-IsDrawable_example : All IsDrawable (configuration_coverage fleet)
configuration_coverage-IsDrawable_example = configuration_coverage-IsDrawable fleet

abbrev alert_state : AlertState
alert_state = record {
  alerts = alert none ∷ (alert (some "2024-12-31") ∷ []);
  alert_error = "";
  is_cancelled = false;
}

abbrev accepted : Result (Unit {0})
accepted = ok tt

dismiss_lem_example :
    (length (dismiss "2025-01-01" accepted (alert none) alert_state).alerts
      ≡ length alert_state.alerts)
    × (((open_alerts (dismiss "2025-01-01" accepted (alert none) alert_state).alerts
            ≡ select
                (λ (item : FleetAlert). not (item.id == (alert none).id))
                (open_alerts alert_state.alerts))
          × (accepted ≡ ok tt))
        ⊎ (((dismiss "2025-01-01" accepted (alert none) alert_state).alerts ≡ alert_state.alerts)
            × (accepted
                ≡ err (dismiss "2025-01-01" accepted (alert none) alert_state).alert_error)))
dismiss_lem_example = dismiss_lem "2025-01-01" accepted (alert none) alert_state refl
