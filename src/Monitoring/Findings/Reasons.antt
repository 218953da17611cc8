-- ===== src/Monitoring/Findings/Reasons.antt =====
-- What a finding says, and where its link leads.
use ansible_aam.Prelude.{
  String, ◌≡◌, refl, ap, ◌∙◌, Bool, true, not, ◌&&◌, ◌||◌, Option, some, arith, ◌==◌, if◌then◌else◌,
  is_some,
}
use ansible_aam.Prelude.Dict.{Dict}
use ansible_aam.Prelude.Text.{◌⊕◌}
use ansible_aam.Prelude.Text.Numbers.{Number, nan, infinity, neg_infinity, int}
use ansible_aam.Value.{Value}
use ansible_aam.Monitoring.Snapshots.{get_snapshot, get_snapshot_health, get_numeric_metric}
use ansible_aam.Monitoring.Errors.{summary_string}
use ansible_aam.Monitoring.Findings.{
  MonitoringFinding, FindingSource, summary_of, Explanation, environment_href, failed_jobs_href,
  explain_eda, explain_hub, explain_content, is_five_or_more, explain_orchestrator, explain_other,
  label, metric, is_positive, default_href, explain, explain_unavailable, explain_controller,
  explain_service_health,
}
use ansible_aam.Monitoring.Findings.Laws.{explain_service_health-eq-some}

module _ (environment : FindingSource) (service : String) (f : MonitoringFinding)
    (found : explain_service_health environment service ≡ some f) where
  abbrev stored : Dict Value
  stored = summary_of (get_snapshot environment.snapshots service)

  -- Whatever branch is taken, a stored reason and a stored action are what the finding shows.
  pub explain_service_health-stored :
      ((r : String) → summary_string stored "health_reason" ≡ some r → f.reason ≡ r)
      × ((a : String) → summary_string stored "health_action" ≡ some a → f.resolution ≡ a)
  explain_service_health-stored =
      let e = explain_service_health-eq-some environment service found in
      (λ r h. ap (λ g. g.reason) e ∙ rw h refl, λ a h. ap (λ g. g.resolution) e ∙ rw h refl)

-- The service could not be collected.
abbrev pub is_down : String → Option String → Bool
is_down health error = is_some error || health == "critical"

-- The first branch, and no other, is taken for a service that is down.
explain_of_is_down :
    (environment : FindingSource) (service health : String) (error : Option String)
    → is_down health error ≡ true
    → explain environment service health error ≡ explain_unavailable environment service error
unfolding explain
explain_of_is_down environment service health error h = rw h

-- Recent failures of a reachable controller that include a failed job.
abbrev pub has_failed_jobs : Number → Number → Bool
has_failed_jobs failed_jobs failed_projects =
    is_five_or_more failed_jobs || is_positive failed_jobs && is_positive failed_projects

-- The link of each branch.
module _ (environment : FindingSource) (service : String) where
  unavailable_href :
      (error : Option String)
      → (explain_unavailable environment service error).href ≡ environment_href environment.id
  unfolding explain_unavailable
  unavailable_href error = refl

  eda_href : (explain_eda environment service).href ≡ environment_href environment.id
  unfolding explain_eda
  eda_href = refl

  hub_href : (explain_hub environment service).href ≡ environment_href environment.id
  unfolding explain_hub
  hub_href = refl

  orchestrator_href :
      (explain_orchestrator environment service).href ≡ environment_href environment.id
  unfolding explain_orchestrator
  orchestrator_href = refl

  other_href :
      (state : String)
      → (explain_other environment service state).href ≡ environment_href environment.id
  unfolding explain_other
  other_href state = refl

  content_href :
      (state : String)
      → (explain_content environment service state).href ≡ environment_href environment.id
  unfolding explain_content
  content_href state = ground (arith, eda_href, hub_href, orchestrator_href, other_href state)

  controller_href : (explain_controller environment service).href ≡ (
      if service == "controller" && is_positive (metric environment service "failed_jobs_recent")
      then failed_jobs_href environment.id
      else environment_href environment.id)
  unfolding explain_controller default_href
  controller_href = ground arith

positive_of_five : (n : Number) → is_five_or_more n ≡ true → is_positive n ≡ true
positive_of_five nan h = cc
positive_of_five infinity h = refl
positive_of_five neg_infinity h = cc
positive_of_five (int z) h = ground arith

choose_href :
    (down is_controller five jobs projects : Bool) (a b c : Explanation) (page jobs_page : String)
    → (five ≡ true → jobs ≡ true)
    → a.href ≡ page
    → b.href ≡ (if is_controller && jobs then jobs_page else page)
    → c.href ≡ page
    → (if down then a else if is_controller && (five || projects) then b else c).href
      ≡ (if not down && (is_controller && (five || jobs && projects)) then jobs_page else page)
choose_href down is_controller five jobs projects a b c page jobs_page h ha hb hc = ground arith

explain_href :
    (environment : FindingSource) (service state : String) (error : Option String)
    → (explain environment service state error).href ≡ (
        if not (is_down state error)
          && (service == "controller"
              && has_failed_jobs
                  (metric environment service "failed_jobs_recent")
                  (metric environment service "failed_projects_recent"))
        then failed_jobs_href environment.id
        else environment_href environment.id)
unfolding explain
explain_href environment service state error =
    choose_href (is_down state error) (service == "controller")
      (is_five_or_more (metric environment service "failed_jobs_recent"))
      (is_positive (metric environment service "failed_jobs_recent"))
      (is_positive (metric environment service "failed_projects_recent"))
      (explain_unavailable environment service error) (explain_controller environment service)
      (explain_content environment service state) (environment_href environment.id)
      (failed_jobs_href environment.id)
      (positive_of_five (metric environment service "failed_jobs_recent"))
      (unavailable_href environment service error) (controller_href environment service)
      (content_href environment service state)

unavailable_title :
    (environment : FindingSource) (service : String) (error : Option String)
    → (explain_unavailable environment service error).title
      ≡ label environment service ⊕ " is unavailable"
unfolding explain_unavailable
unavailable_title environment service error = refl

module _ (environment : FindingSource) (service : String) (f : MonitoringFinding)
    (found : explain_service_health environment service ≡ some f) where
  -- The summary's error text, with the health, decides whether the service is down.
  abbrev down : Bool
  down =
      is_down (get_snapshot_health environment.snapshots service)
        (summary_string (summary_of (get_snapshot environment.snapshots service)) "error")

  -- A finding links to the list of failed jobs exactly for a controller that is not down and has
  -- five failed jobs or more, or a failed job besides a failed project; else to the environment.
  pub explain_service_health-href : f.href ≡ (
      if not down
        && (service == "controller"
            && has_failed_jobs
                (get_numeric_metric environment.snapshots service "failed_jobs_recent")
                (get_numeric_metric environment.snapshots service "failed_projects_recent"))
      then failed_jobs_href environment.id
      else environment_href environment.id)
  unfolding metric
  explain_service_health-href =
      ap (λ g. g.href) (explain_service_health-eq-some environment service found)
      ∙ explain_href environment service _ _

  -- A service whose health is "critical" or whose summary holds an error is said to be unavailable.
  pub explain_service_health-title :
      down ≡ true → f.title ≡ label environment service ⊕ " is unavailable"
  explain_service_health-title h =
      ap (λ g. g.title) (explain_service_health-eq-some environment service found)
      ∙ ap (λ x. x.title) (explain_of_is_down environment service _ _ h)
      ∙ unavailable_title environment service _
