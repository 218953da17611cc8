-- ===== src/Monitoring/Findings/Tests.antt =====
-- Findings of a concrete environment, and the theorems at it.
use ansible_aam.Prelude.{
  ◌≤◌, String, ◌≡◌, refl, ◌↔◌, not, ◌&&◌, Option, none, some, [], ◌∷◌, ◌==◌, if◌then◌else◌,
}
use ansible_aam.Prelude.Dict.{Dict}
use mathlib.Core.List.{Sublistᴰ}
use ansible_aam.Value.{Value, str}
use ansible_aam.Types.{ServiceSnapshot}
use ansible_aam.Monitoring.Services.{monitored_services_for}
use ansible_aam.Monitoring.Snapshots.{get_snapshot, get_snapshot_health, get_numeric_metric}
use ansible_aam.Monitoring.Errors.{
  summary_string, match_status, summarize_collection_error, summarize_collection_error-le,
}
use ansible_aam.Prelude.Text.Search.{text_length, contains}
use ansible_aam.Prelude.Text.Uri.{encode_uri_component}
use ansible_aam.Monitoring.Findings.{
  warning, critical, MonitoringFinding, FindingSource, summary_of, label, environment_href,
  failed_jobs_href, explain_service_health, explain, explain_unavailable, explain_controller,
  explain_content, explain_other, default_href, and_join, metric, collect_environment_findings,
  sync_finding,
}
use ansible_aam.Monitoring.Findings.Laws.{explain_service_health-fields}
use ansible_aam.Monitoring.Findings.Reasons.{is_down, has_failed_jobs, explain_service_health-href}
use ansible_aam.Monitoring.Findings.Collect.{
  IsClean, named, collect_environment_findings-eq-nil_iff, collect_environment_findings-sublist,
}

-- All that a run of explainServiceHealth calls.
findings : Unit {0}
unfolding explain_service_health explain explain_unavailable explain_controller explain_content
    explain_other default_href and_join metric label environment_href failed_jobs_href
    get_numeric_metric get_snapshot summary_string summarize_collection_error
    collect_environment_findings sync_finding monitored_services_for encode_uri_component contains
findings = tt

abbrev snapshot : String → String → Dict Value → ServiceSnapshot
snapshot service health summary = record {
  service = service;
  health = health;
  summary = summary;
  collected_at = "";
}

abbrev sample : FindingSource
sample = record {
  id = "e 1";
  name = "East";
  kind = some "aap";
  last_sync_error = none;
  snapshots =
      snapshot "controller" "warning"
        (("failed_jobs_recent", str "7") ∷ ("health_reason", str " jobs fail ") ∷ [])
      ∷ snapshot "hub" "critical" []
      ∷ snapshot "eda" "healthy" []
      ∷ [];
}

abbrev first : Option MonitoringFinding → String
first o = elim o [ none ↦ "" | some f ↦ f.href ]

controller_link :
    first (explain_service_health sample "controller") ≡ "/jobs?status=failed&environmentId=e%201"
unfolding findings
controller_link = refl

abbrev controller_finding : MonitoringFinding
controller_finding = record {
  environment_id = "e 1";
  environment_name = "East";
  service = "controller";
  severity = warning;
  title = "Controller has recent failures";
  reason = "jobs fail";
  resolution =
      "Inspect the failed jobs, fix the template, inventory, or credentials in AAP, then re-run. Failed projects need a successful project update in Controller.";
  href = failed_jobs_href "e 1";
  href_label = "Review failed jobs";
}

controller_found : explain_service_health sample "controller" ≡ some controller_finding
unfolding findings
controller_found = refl

abbrev hub_finding : MonitoringFinding
hub_finding = record {
  environment_id = "e 1";
  environment_name = "East";
  service = "hub";
  severity = critical;
  title = "Automation Hub is unavailable";
  reason = "Automation Hub collection failed (Automation Hub collection failed).";
  resolution =
      "Confirm Automation Hub is running, the registered URL and credentials still work, then sync this environment again.";
  href = environment_href "e 1";
  href_label = "Open environment and sync";
}

hub_found : explain_service_health sample "hub" ≡ some hub_finding
unfolding findings
hub_found = refl

explain_service_health-fields_example :
    (hub_finding.environment_id ≡ sample.id)
    × (hub_finding.environment_name ≡ sample.name)
    × (hub_finding.service ≡ "hub")
    × ((hub_finding.severity ≡ critical)
        ↔ (get_snapshot_health sample.snapshots "hub" ≡ "critical"))
explain_service_health-fields_example =
    explain_service_health-fields sample "hub" hub_finding hub_found

abbrev controller_summary : Dict Value
controller_summary = summary_of (get_snapshot sample.snapshots "controller")

explain_service_health-href_example : controller_finding.href ≡ (
    if not (
        is_down
          (get_snapshot_health sample.snapshots "controller")
          (summary_string controller_summary "error"))
      && ("controller" == "controller"
          && has_failed_jobs
              (get_numeric_metric sample.snapshots "controller" "failed_jobs_recent")
              (get_numeric_metric sample.snapshots "controller" "failed_projects_recent"))
    then failed_jobs_href "e 1"
    else environment_href "e 1")
explain_service_health-href_example =
    explain_service_health-href sample "controller" controller_finding controller_found

collect_environment_findings-eq-nil_iff_example :
    (collect_environment_findings sample ≡ []) ↔ IsClean sample
collect_environment_findings-eq-nil_iff_example = collect_environment_findings-eq-nil_iff sample

collect_environment_findings-sublist_example :
    Sublistᴰ
      (named (collect_environment_findings sample))
      ("sync" ∷ monitored_services_for (some "aap"))
collect_environment_findings-sublist_example = collect_environment_findings-sublist sample

no_status : match_status "connection refused" ≡ none
unfolding match_status
no_status = refl

summarize_collection_error-le_example :
    text_length (summarize_collection_error "connection refused") ≤ 180
summarize_collection_error-le_example = summarize_collection_error-le "connection refused" no_status
