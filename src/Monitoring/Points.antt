-- ===== src/Monitoring/Points.antt =====
-- frontend/src/monitoring.ts, lines 15-175: the monitoring points, their groups, and the groups
-- that an environment of each kind shows.
pub mod Laws
use ansible_aam.Prelude.{
  ℕ, zero, suc, ◌+◌, ◌-◌, ◌*◌, ◌≤◌, ◌<◌, Char, code, String, ◌≡◌, refl, sym, ap, ◌∙◌, ◌≢◌, ◌↔◌, ◌⊎◌,
  inl, inr, Bool, true, false, not, ◌&&◌, ◌||◌, Option, none, some, List, [], ◌∷◌, ◌++◌, map, arith,
  ◌==◌, eq_iff, eq_refl, ltb, leb, eqb, if◌then◌else◌, Bool-cases, Option-cases, or_else, is_some,
  length, select, some_of, every, find, take, drop, somes, length-append, select-append,
  length-select-le, length-somes-le, All, All-append, flat_map, length-map,
}
use ansible_aam.Prelude.Int.{ℤ, pos, negsuc, ◌+ℤ◌, ltb_ℤ, leb_ℤ, eqb_ℤ}
use ansible_aam.Prelude.Dict.{
  Dict, includes, keys, lookup, insert, remove, lookup-insert, lookup-remove,
}
use ansible_aam.Prelude.Text.{
  ◌⊕◌, is_empty, or_text, trim, is_blank, String-cases, trim_idem, trim-nil, is_empty-eq,
}
use ansible_aam.Prelude.Text.Numbers.{
  Number, nan, infinity, neg_infinity, int, is_finite, truthy_number, add, less, same_number,
  parse_int, show_nat, show, parse_int-show_nat,
}
use ansible_aam.Utils.{EnvironmentKind, aap, orchestrator, same_kind, environment_kind}
use ansible_aam.Monitoring.Services.{
  aap_monitored_services, orchestrator_monitored_services, monitored_services,
  monitored_services_for,
}

pub data Tone : Type 0 where
  danger success warning : Tone

pub record MonitoringPoint : Type 0 where
  pub label : String
  pub service : String
  pub key : String
  pub description : String
  pub tone : Option Tone

pub record MonitoringPointGroup : Type 0 where
  pub id : String
  pub title : String
  pub description : String
  pub points : List MonitoringPoint

abbrev point : String → String → String → String → Option Tone → MonitoringPoint
point label service key description tone = record {
  label = label;
  service = service;
  key = key;
  description = description;
  tone = tone;
}

abbrev platform_services_group : MonitoringPointGroup
platform_services_group = record {
  id = "platform-services";
  title = "Platform services";
  description = "Availability of the core AAP entry points.";
  points =
      point "Gateway API" "gateway" "health" "Platform gateway reachability." none
      ∷ point "Controller API" "controller" "health" "Automation controller reachability." none
      ∷ point "EDA API" "eda" "health" "Event-Driven Ansible reachability." none
      ∷ point "Automation Hub API" "hub" "health" "Automation hub reachability." none
      ∷ [];
}

abbrev controller_group : MonitoringPointGroup
controller_group = record {
  id = "controller";
  title = "Controller monitoring points";
  description = "Primary controller inventory, job, and execution signals.";
  points =
      point "Jobs" "controller" "job_count" "Total jobs visible to the collector." none
      ∷ point "Job templates" "controller" "job_template_count" "Controller job templates." none
      ∷ point "Workflow templates" "controller" "workflow_job_template_count"
          "Workflow job templates exposed by controller." none
      ∷ point "Inventories" "controller" "inventory_count" "Inventories available for automation."
          none
      ∷ point "Hosts" "controller" "host_count" "Hosts tracked in controller inventories." none
      ∷ point "Projects" "controller" "project_count" "Controller source projects." none
      ∷ point "Credentials" "controller" "credential_count"
          "Credential records available to the platform." none
      ∷ point "Execution environments" "controller" "execution_environment_count"
          "Execution environment definitions discovered in controller." none
      ∷ point "Recent failed jobs" "controller" "failed_jobs_recent"
          "Failed jobs returned by the recent jobs query." (some danger)
      ∷ point "Failed projects" "controller" "failed_projects_recent"
          "Projects currently reporting a failed or error state." (some warning)
      ∷ [];
}

abbrev eda_group : MonitoringPointGroup
eda_group = record {
  id = "eda";
  title = "EDA monitoring points";
  description = "Signals commonly used to review rulebook automation posture.";
  points =
      point "Activations" "eda" "activation_count" "Rulebook activations discovered in EDA." none
      ∷ point "EDA projects" "eda" "project_count" "Projects registered in EDA." none
      ∷ point "Decision environments" "eda" "decision_environment_count"
          "Decision environments configured for rulebook execution." none
      ∷ point "Disabled activations" "eda" "disabled_activations"
          "Rulebook activations currently disabled." (some warning)
      ∷ [];
}

abbrev hub_group : MonitoringPointGroup
hub_group = record {
  id = "hub";
  title = "Automation Hub monitoring points";
  description = "Content distribution and repository coverage across the hub.";
  points =
      point "Repositories" "hub" "repository_count" "Repositories available for content sync." none
      ∷ point "Collections" "hub" "collection_count" "Collections surfaced by the hub search API."
          none
      ∷ [];
}

abbrev orchestrator_group : MonitoringPointGroup
orchestrator_group = record {
  id = "orchestrator";
  title = "Automation Orchestrator monitoring points";
  description =
      "Health, workflow, execution, integration, and approval signals from this Orchestrator estate.";
  points =
      point "Orchestrator API" "orchestrator" "health" "Automation Orchestrator reachability." none
      ∷ point "Workflows" "orchestrator" "workflow_count" "Workflows defined in Orchestrator." none
      ∷ point "Enabled workflows" "orchestrator" "enabled_workflow_count"
          "Workflows currently enabled for execution." none
      ∷ point "Executions" "orchestrator" "execution_count" "Workflow executions discovered." none
      ∷ point "Recent failed executions" "orchestrator" "failed_executions_recent"
          "Failed or errored executions in the latest sample." (some danger)
      ∷ point "Running executions" "orchestrator" "running_executions"
          "Executions currently running, pending, or paused." none
      ∷ point "Projects" "orchestrator" "project_count" "Orchestrator projects." none
      ∷ point "Integrations" "orchestrator" "integration_count"
          "Configured Orchestrator integrations." none
      ∷ point "Unhealthy integrations" "orchestrator" "unhealthy_integration_count"
          "Integrations that failed validation." (some warning)
      ∷ point "Pending approvals" "orchestrator" "pending_approval_count"
          "Approval requests waiting on an operator." (some warning)
      ∷ [];
}

unfoldable pub monitoring_point_groups : List MonitoringPointGroup
monitoring_point_groups =
    platform_services_group ∷ controller_group ∷ eda_group ∷ hub_group ∷ orchestrator_group ∷ []

unfoldable pub monitoring_point_groups_for : Option String → List MonitoringPointGroup
unfolding environment_kind monitoring_point_groups
monitoring_point_groups_for value =
    if same_kind (environment_kind value) orchestrator
    then select (λ group. group.id == "orchestrator") monitoring_point_groups
    else select (λ group. not (group.id == "orchestrator")) monitoring_point_groups
