-- ===== src/Monitoring/Findings.antt =====
-- frontend/src/monitoring.ts, lines 296-506: why a monitored service is not healthy, the findings of
-- an environment and those of the fleet.
pub mod Laws
pub mod Reasons
pub mod Collect
mod Tests
use ansible_aam.Prelude.{
  ℕ, zero, suc, ◌+◌, ◌-◌, ◌*◌, ◌≤◌, ◌<◌, Char, code, String, ◌≡◌, refl, sym, ap, ◌∙◌, ◌≢◌, ◌↔◌, ◌⊎◌,
  inl, inr, Bool, true, false, not, ◌&&◌, ◌||◌, Option, none, some, List, [], ◌∷◌, ◌++◌, map, arith,
  ◌==◌, eq_iff, eq_refl, ltb, leb, eqb, if◌then◌else◌, Bool-cases, Option-cases, or_else, is_some,
  length, select, some_of, every, find, take, drop, somes, length-append, select-append,
  length-select-le, length-somes-le, All, All-append, flat_map, length-map,
}
use ansible_aam.Prelude.Int.{ℤ, pos, negsuc, ◌+ℤ◌, ltb_ℤ, leb_ℤ, eqb_ℤ}
use ansible_aam.Prelude.Dict.{
  Dict, includes, keys, lookup, insert, remove, lookup-insert, lookup-remove,
}
use ansible_aam.Prelude.Text.{
  ◌⊕◌, is_empty, or_text, trim, is_blank, String-cases, trim_idem, trim-nil, is_empty-eq,
}
use ansible_aam.Prelude.Text.Numbers.{
  Number, nan, infinity, neg_infinity, int, is_finite, truthy_number, add, less, same_number,
  parse_int, show_nat, show, parse_int-show_nat,
}
use mathlib.Core.Option
use ansible_aam.Prelude.Text.Search.{contains}
use ansible_aam.Prelude.Text.Split.{join}
use ansible_aam.Prelude.Text.Uri.{encode_uri_component}
use ansible_aam.Value.{Value}
use ansible_aam.Types.{ServiceSnapshot}
use ansible_aam.Utils.{humanize}
use ansible_aam.Monitoring.Services.{monitored_services_for, service_labels}
use ansible_aam.Monitoring.Snapshots.{
  get_snapshot, health_of, get_snapshot_health, get_numeric_metric,
}
use ansible_aam.Monitoring.Errors.{summary_string, summarize_collection_error}

pub data Severity : Type 0 where
  warning critical : Severity

pub record MonitoringFinding : Type 0 where
  pub environment_id : String
  pub environment_name : String
  pub service : String
  pub severity : Severity
  pub title : String
  pub reason : String
  pub resolution : String
  pub href : String
  pub href_label : String

pub record FindingSource : Type 0 where
  pub id : String
  pub name : String
  pub kind : Option String
  pub last_sync_error : Option String
  pub snapshots : List ServiceSnapshot

-- `n > 0` and `n >= 5` of a metric, which is finite.
abbrev pub is_positive : Number → Bool
is_positive n = less (int (pos 0)) n

abbrev pub is_five_or_more : Number → Bool
is_five_or_more n = less (int (pos 4)) n

abbrev pub is_zero : Number → Bool
is_zero n = same_number n (int (pos 0))

unfoldable pub environment_href : String → String
environment_href id = "/environments/" ⊕ id

unfoldable pub failed_jobs_href : String → String
failed_jobs_href id = "/jobs?status=failed&environmentId=" ⊕ encode_uri_component id

-- defaultHref: the link and its label.
unfoldable pub default_href : String → String → Number → String × String
default_href environment_id service failed_jobs =
    if service == "controller" && is_positive failed_jobs
    then (failed_jobs_href environment_id, "Review failed jobs")
    else (environment_href environment_id, "Open environment")

-- `parts.push(text)` under a test.
abbrev pub part : Bool → String → Option String
part test text = if test then some text else none

unfoldable pub and_join : List (Option String) → String
and_join parts = join " and " (somes parts)

-- `snapshot?.summary ?? {}`.
abbrev pub summary_of : Option ServiceSnapshot → Dict Value
summary_of none = []
summary_of (some snapshot) = snapshot.summary

-- `health === "critical" ? "critical" : "warning"`.
abbrev pub severity_of : String → Severity
severity_of health = if health == "critical" then critical else warning

-- What a branch of explainServiceHealth decides: the title, the reason and the resolution that are
-- used where the summary stores none, the link and its label.
pub record Explanation : Type 0 where
  pub title : String
  pub reason : String
  pub resolution : String
  pub href : String
  pub href_label : String

module _ (environment : FindingSource) (service : String) where
  unfoldable pub metric : String → Number
  metric key = get_numeric_metric environment.snapshots service key

  unfoldable pub label : String
  label = or_else (lookup service service_labels) service

  abbrev pub plain : String → String → String → Explanation
  plain title reason resolution = record {
    title = title;
    reason = reason;
    resolution = resolution;
    href = environment_href environment.id;
    href_label = "Open environment";
  }

  -- `error || health === "critical"`.
  unfoldable pub explain_unavailable : Option String → Explanation
  explain_unavailable error =
      let summarized : String = elim error [
        | none ↦ label ⊕ " collection failed"
        | some e ↦ summarize_collection_error e
      ] in
      let hub_unavailable = (service == "hub" && contains summarized "503") in
      record {
        title = label ⊕ " is unavailable";
        reason = label ⊕ (" collection failed (" ⊕ (summarized ⊕ ")."));
        resolution =
            if hub_unavailable
            then "Check that Automation Hub / galaxy is running in the AAP namespace, then sync this environment again."
            else "Confirm "
              ⊕ (label
                  ⊕ " is running, the registered URL and credentials still work, then sync this environment again.");
        href = environment_href environment.id;
        href_label = "Open environment and sync";
      }

  -- Recent failures of the controller.
  unfoldable pub explain_controller : Explanation
  explain_controller =
      let failed_jobs = metric "failed_jobs_recent" in
      let failed_projects = metric "failed_projects_recent" in
      let (href, href_label) = default_href environment.id service failed_jobs in
      record {
        title = label ⊕ " has recent failures";
        reason =
            "Controller is reachable, but "
            ⊕ (and_join (
                  part (is_five_or_more failed_jobs) (show failed_jobs ⊕ " recent failed jobs")
                  ∷ part (is_positive failed_projects)
                      (show failed_projects ⊕ " project(s) in a failed or error state")
                  ∷ [])
                ⊕ ".");
        resolution =
            "Inspect the failed jobs, fix the template, inventory, or credentials in AAP, then re-run. Failed projects need a successful project update in Controller.";
        href = href;
        href_label = href_label;
      }

  unfoldable pub explain_eda : Explanation
  explain_eda =
      plain "No EDA activations"
        "Event-Driven Ansible is reachable, but no rulebook activations were found, so it is not processing events."
        "Create a rulebook activation in AAP if this environment should use EDA. If EDA is unused here, this warning is expected."

  unfoldable pub explain_hub : Explanation
  explain_hub =
      plain "Automation Hub has no content"
        "Automation Hub responded, but returned no repositories or collections."
        "Publish or sync collections in Hub, or ignore this if Hub is not used for content in this environment."

  unfoldable pub explain_orchestrator : Explanation
  explain_orchestrator =
      let failed_executions = metric "failed_executions_recent" in
      let unhealthy_integrations = metric "unhealthy_integration_count" in
      plain (label ⊕ " needs attention")
        ("Automation Orchestrator is reachable, but "
          ⊕ (and_join (
                part (is_positive failed_executions)
                  (show failed_executions ⊕ " recent failed workflow execution(s)")
                ∷ part (is_positive unhealthy_integrations)
                    (show unhealthy_integrations ⊕ " integration(s) not available")
                ∷ part (is_zero (metric "workflow_count")) "no workflows were returned"
                ∷ [])
              ⊕ "."))
        "Open Automation Orchestrator to inspect failed executions, re-validate integrations, or publish a workflow."

  unfoldable pub explain_other : String → Explanation
  explain_other health =
      plain (label ⊕ " needs attention") (label ⊕ (" health is " ⊕ (humanize (some health) ⊕ ".")))
        ("Open the environment, review " ⊕ (label ⊕ " in AAP, then sync again."))

  -- The last four branches of explainServiceHealth.
  unfoldable pub explain_content : String → Explanation
  explain_content health =
      if service == "eda" && is_zero (metric "activation_count")
      then explain_eda
      else if service == "hub"
          && is_zero (metric "repository_count")
          && is_zero (metric "collection_count")
      then explain_hub
      else if service == "orchestrator"
          && (is_positive (metric "failed_executions_recent")
              || is_positive (metric "unhealthy_integration_count")
              || is_zero (metric "workflow_count"))
      then explain_orchestrator
      else explain_other health

  -- The branches of explainServiceHealth behind its early return, in the order of the code.
  unfoldable pub explain : String → Option String → Explanation
  explain health error =
      if is_some error || health == "critical"
      then explain_unavailable error
      else if service == "controller"
          && (is_five_or_more (metric "failed_jobs_recent")
              || is_positive (metric "failed_projects_recent"))
      then explain_controller
      else explain_content health

  -- The finding of a branch: a stored reason and a stored action come first.
  abbrev pub finding_of : Severity → Dict Value → Explanation → MonitoringFinding
  finding_of severity summary explanation = record {
    environment_id = environment.id;
    environment_name = environment.name;
    service = service;
    severity = severity;
    title = explanation.title;
    reason = or_else (summary_string summary "health_reason") explanation.reason;
    resolution = or_else (summary_string summary "health_action") explanation.resolution;
    href = explanation.href;
    href_label = explanation.href_label;
  }

  unfoldable pub explain_service_health : Option MonitoringFinding
  explain_service_health =
      let snapshot = get_snapshot environment.snapshots service in
      let health = health_of snapshot in
      let summary = summary_of snapshot in
      let found =
        finding_of (severity_of health) summary (explain health (summary_string summary "error")) in
      if health == "healthy" || health == "not_configured" then none else some found

-- A text in a condition: an empty one is falsy.
abbrev pub truthy_text : Option String → Option String
truthy_text none = none
truthy_text (some error) = if is_empty error then none else some error

abbrev failed_sync : FindingSource → String → MonitoringFinding
failed_sync environment error = record {
  environment_id = environment.id;
  environment_name = environment.name;
  service = "sync";
  severity = critical;
  title = "Latest sync failed";
  reason = error;
  resolution = "Fix connectivity or credentials for this environment, then queue a new sync.";
  href = environment_href environment.id;
  href_label = "Open environment and sync";
}

-- The finding of a failed sync.
unfoldable pub sync_finding : FindingSource → Option MonitoringFinding
sync_finding environment =
    Option.map (failed_sync environment) (truthy_text environment.last_sync_error)

unfoldable pub collect_environment_findings : FindingSource → List MonitoringFinding
collect_environment_findings environment = somes (
    sync_finding environment
    ∷ map (explain_service_health environment) (monitored_services_for environment.kind))

unfoldable pub collect_monitoring_findings : List FindingSource → List MonitoringFinding
collect_monitoring_findings environments = flat_map collect_environment_findings environments
