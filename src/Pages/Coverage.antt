-- ===== src/Pages/Coverage.antt =====
-- frontend/src/pages/monitoring.tsx, lines 134-275: the coverage of the configuration and the signals of
-- the operations, each a bar with its value; and frontend/src/pages/environment-detail.tsx, lines
-- 311-345: the counts and the links of an environment.
use ansible_aam.Prelude.{
  ℕ, ◌≤◌, ◌<◌, String, Bool, not, ◌||◌, Option, none, some, List, [], ◌∷◌, ◌++◌, arith, ◌==◌, eqb,
  if◌then◌else◌, length, select, length-select-le, All,
}
use ansible_aam.Prelude.Int.{pos}
use ansible_aam.Prelude.Text.{◌⊕◌, is_empty}
use ansible_aam.Prelude.Text.Numbers.{Number, int, add, less, show_nat}
use ansible_aam.Types.{MonitoringEnvironment, Resource, EnvironmentDetail}
use ansible_aam.Utils.{EnvironmentKind, aap, orchestrator, same_kind, environment_kind}
use ansible_aam.Capabilities.{CapabilityProfile, parse_capability_profile}
use ansible_aam.Monitoring.Snapshots.{get_snapshot_health}
use ansible_aam.Pages.Fleet.{sum_numeric_metric}

pub data BarVariant : Type 0 where
  success warning danger : BarVariant

pub record CoverageBar : Type 0 where
  pub label : String
  pub value : ℕ
  pub total : ℕ
  pub value_text : String
  pub variant : Option BarVariant

unfoldable pub of_kind : EnvironmentKind → List MonitoringEnvironment → List MonitoringEnvironment
unfolding environment_kind
of_kind kind environments =
    select (λ (e : MonitoringEnvironment). same_kind (environment_kind e.kind) kind) environments

-- `n || 1`.
abbrev pub or_one : ℕ → ℕ
or_one n = if eqb n 0 then 1 else n

abbrev pub profile_of : MonitoringEnvironment → CapabilityProfile
profile_of e = (parse_capability_profile (some e.capabilities)).profile

abbrev pub is_configured : String → MonitoringEnvironment → Bool
is_configured service e = not (get_snapshot_health e.snapshots service == "not_configured")

-- A bar that counts the environments of a list.
unfoldable pub counting_bar :
    String
    → (MonitoringEnvironment → Bool)
    → List MonitoringEnvironment
    → (ℕ → ℕ → String)
    → Option BarVariant
    → CoverageBar
counting_bar label p environments text variant = record {
  label = label;
  value = length (select p environments);
  total = or_one (length environments);
  value_text = text (length (select p environments)) (length environments);
  variant = variant;
}

abbrev pub of_text : String → ℕ → ℕ → String
of_text what value total = show_nat value ⊕ (" of " ⊕ (show_nat total ⊕ what))

unfoldable pub configuration_coverage : List MonitoringEnvironment → List CoverageBar
unfolding of_kind counting_bar get_snapshot_health parse_capability_profile ◌⊕◌ show_nat
configuration_coverage environments =
    let aap_environments = of_kind aap environments in
    let aap_text = of_text " AAP environments" in
    counting_bar "Controller monitoring" (is_configured "controller") aap_environments aap_text
      (some success)
    ∷ counting_bar "EDA monitoring" (is_configured "eda") aap_environments aap_text (some success)
    ∷ counting_bar "Automation Hub monitoring" (is_configured "hub") aap_environments aap_text
        (some success)
    ∷ counting_bar "Orchestrator estates" (λ e. same_kind (environment_kind e.kind) orchestrator)
        environments (of_text " environments") (some success)
    ∷ counting_bar "Gateway-only access declared" (λ e. (profile_of e).gateway_enforced)
        aap_environments (λ _ _. "AAP environments expecting gateway-only access") none
    ∷ counting_bar "Metrics or reports declared"
        (λ e. (profile_of e).metrics_enabled || (profile_of e).automation_reports_enabled)
        environments (λ _ _. "Environments with observability declarations") (some success)
    ∷ counting_bar "Content signing declared" (λ e. (profile_of e).content_signing_enabled)
        aap_environments (λ _ _. "AAP environments with content signing declarations") none
    ∷ []

pub record Signal : Type 0 where
  pub label : String
  pub value : Number
  pub value_text : String
  pub variant : BarVariant

-- `count > 0 ? variant : "success"`.
abbrev pub if_any : Number → BarVariant → BarVariant
if_any count variant = if less (int (pos 0)) count then variant else success

abbrev signal : String → Number → String → BarVariant → Signal
signal label value value_text variant = record {
  label = label;
  value = value;
  value_text = value_text;
  variant = variant;
}

unfoldable pub operational_signals : List MonitoringEnvironment → List Signal
unfolding of_kind sum_numeric_metric
operational_signals environments =
    let metric = sum_numeric_metric (of_kind aap environments) in
    let orchestrated = sum_numeric_metric (of_kind orchestrator environments) "orchestrator" in
    let failed_jobs = metric "controller" "failed_jobs_recent" in
    let failed_projects = metric "controller" "failed_projects_recent" in
    let disabled = metric "eda" "disabled_activations" in
    let failed_executions = orchestrated "failed_executions_recent" in
    signal "Controller jobs" (metric "controller" "job_count")
      "Jobs discovered across AAP controller estates" success
    ∷ signal "Tracked templates"
        (add (metric "controller" "job_template_count")
          (metric "controller" "workflow_job_template_count"))
        "Job and workflow templates discovered" success
    ∷ signal "Recent failed jobs" failed_jobs "Failed jobs reported by recent controller queries"
        (if_any failed_jobs danger)
    ∷ signal "Failed projects" failed_projects "Projects currently reporting a failed state"
        (if_any failed_projects warning)
    ∷ signal "EDA activations" (metric "eda" "activation_count")
        "Rulebook activations discovered across AAP environments" success
    ∷ signal "Disabled activations" disabled "Activations currently disabled"
        (if_any disabled warning)
    ∷ signal "Hub collections" (metric "hub" "collection_count")
        "Collections returned by automation hub APIs" success
    ∷ signal "Orchestrator workflows" (orchestrated "workflow_count")
        "Workflows discovered in Orchestrator estates" success
    ∷ signal "Orchestrator integrations" (orchestrated "integration_count")
        "Integrations configured in Orchestrator estates" success
    ∷ signal "Failed orchestrator executions" failed_executions
        "Recent failed or errored Orchestrator executions" (if_any failed_executions danger)
    ∷ []

-- The counts of an environment's resources.
abbrev pub count_resources : (Resource → Bool) → EnvironmentDetail → ℕ
count_resources p environment = length (select p environment.resources)

unfoldable pub template_count : EnvironmentDetail → ℕ
template_count =
    count_resources
      λ r. r.resource_type == "job_template" || r.resource_type == "workflow_job_template"

unfoldable pub project_count : EnvironmentDetail → ℕ
project_count = count_resources (λ r. r.resource_type == "project")

unfoldable pub activation_count : EnvironmentDetail → ℕ
activation_count = count_resources (λ r. r.resource_type == "activation")

unfoldable pub hub_content_count : EnvironmentDetail → ℕ
hub_content_count = count_resources (λ r. r.service == "hub")

pub record EndpointLink : Type 0 where
  pub label : String
  pub href : String

-- `filter(… Boolean(item.href))`.
abbrev pub link_if : String → Option String → List EndpointLink
link_if label none = []
link_if label (some href) = if is_empty href then [] else record { label = label; href = href } ∷ []

abbrev pub or_url : Option String → Option String → Option String
or_url none other = other
or_url (some url) other = if is_empty url then other else some url

unfoldable pub endpoint_links : EnvironmentDetail → List EndpointLink
unfolding environment_kind
endpoint_links environment =
    if same_kind (environment_kind environment.kind) orchestrator
    then link_if "Open Automation Orchestrator"
        (or_url environment.orchestrator_url environment.platform_url)
    else link_if "Open platform URL" environment.platform_url
      ++ (link_if "Open gateway URL" environment.gateway_url
          ++ (link_if "Open controller URL" environment.controller_url
              ++ (link_if "Open EDA URL" environment.eda_url
                  ++ link_if "Open automation hub URL" environment.hub_url)))

-- A bar that can be drawn: its total is not 0 and its value at most that.
pub record IsDrawable (bar : CoverageBar) : Type 0 where
  pub positive : 0 < bar.total
  pub fits : bar.value ≤ bar.total

counting_bar-IsDrawable :
    (label : String) (p : MonitoringEnvironment → Bool) (environments : List MonitoringEnvironment)
    (text : ℕ → ℕ → String) (variant : Option BarVariant)
    → IsDrawable (counting_bar label p environments text variant)
unfolding counting_bar
counting_bar-IsDrawable label p environments text variant =
    let h = length-select-le p environments in
    record { positive = ground arith; fits = ground (arith, h) }

-- No bar of the configuration's coverage divides by 0 or is longer than its track, also in a fleet
-- without environments.
pub configuration_coverage-IsDrawable :
    (environments : List MonitoringEnvironment)
    → All IsDrawable (configuration_coverage environments)
unfolding configuration_coverage
configuration_coverage-IsDrawable environments =
    let bar = counting_bar-IsDrawable in
    let counted = of_text " AAP environments" in
    (
      bar _ _ _ counted _,
      (
        bar _ _ _ counted _,
        (
          bar _ _ _ counted _,
          (
            bar _ _ _ (of_text " environments") _,
            (
              bar _ _ _ (λ _ _. "AAP environments expecting gateway-only access") _,
              (
                bar _ _ _ (λ _ _. "Environments with observability declarations") _,
                (bar _ _ _ (λ _ _. "AAP environments with content signing declarations") _, tt),
              ),
            ),
          ),
        ),
      ),
    )
