-- ===== src/Monitoring/Findings/Laws.antt =====
-- When there is a finding, which service it is about and how severe it is.
use ansible_aam.Prelude.{
  String, ◌≡◌, refl, sym, ap, ◌∙◌, ◌↔◌, ◌⊎◌, inl, inr, Bool, true, false, ◌||◌, none, some, arith,
  ◌==◌, eq_iff, if◌then◌else◌, Bool-cases,
}
use ansible_aam.Monitoring.Snapshots.{get_snapshot, health_of, get_snapshot_health}
use ansible_aam.Monitoring.Errors.{summary_string}
use ansible_aam.Monitoring.Findings.{
  critical, MonitoringFinding, FindingSource, summary_of, severity_of, explain, finding_of,
  explain_service_health,
}

-- The early return of explainServiceHealth.
abbrev pub is_quiet : String → Bool
is_quiet health = health == "healthy" || health == "not_configured"

abbrev pub IsQuiet : String → Type 0
IsQuiet health = (health ≡ "healthy") ⊎ (health ≡ "not_configured")

is_quiet_iff : (health : String) → (is_quiet health ≡ true) ↔ IsQuiet health
is_quiet_iff health = ground (arith, eq_iff health "healthy", eq_iff health "not_configured")

unless {ℓ} : {A : Type ℓ} (b : Bool) (a : A) → ((if b then none else some a) ≡ none) ↔ (b ≡ true)
unless true a = (λ e. refl, λ e. refl)
unless false a = (λ e. cc, λ e. cc)

-- A service gives no finding exactly when its health is "healthy" or "not_configured".
pub explain_service_health-eq-none_iff :
    (environment : FindingSource) (service : String)
    → (explain_service_health environment service ≡ none)
      ↔ IsQuiet (get_snapshot_health environment.snapshots service)
unfolding explain_service_health get_snapshot_health
explain_service_health-eq-none_iff environment service =
    let health = health_of (get_snapshot environment.snapshots service) in
    let (to, from) = unless (is_quiet health) _ in
    (λ e. (is_quiet_iff health).0 (to e), λ q. from ((is_quiet_iff health).1 q))

-- What the code computes for a service that is not quiet.
pub explain_service_health-eq-some :
    (environment : FindingSource) (service : String) {f : MonitoringFinding}
    → explain_service_health environment service ≡ some f
    → let snapshot = get_snapshot environment.snapshots service in
      let health = get_snapshot_health environment.snapshots service in
      let summary = summary_of snapshot in
      f
      ≡ finding_of environment service
          (severity_of health)
          summary
          (explain environment service health (summary_string summary "error"))
unfolding explain_service_health get_snapshot_health
explain_service_health-eq-some environment service h =
    elim (Bool-cases (is_quiet (health_of (get_snapshot environment.snapshots service)))) [
      | inl e ↦ cc (rw e at h)
      | inr e ↦ cc (rw e at h)
    ]

severity_of-critical_iff :
    (health : String) → (severity_of health ≡ critical) ↔ (health ≡ "critical")
severity_of-critical_iff health = ground (arith, eq_iff health "critical")

-- A finding names its environment and its service, and it is critical exactly when the health of
-- the service is "critical".
pub explain_service_health-fields :
    (environment : FindingSource) (service : String) (f : MonitoringFinding)
    → explain_service_health environment service ≡ some f
    → (f.environment_id ≡ environment.id)
      × (f.environment_name ≡ environment.name)
      × (f.service ≡ service)
      × ((f.severity ≡ critical) ↔ (get_snapshot_health environment.snapshots service ≡ "critical"))
explain_service_health-fields environment service f h =
    let e = explain_service_health-eq-some environment service h in
    let health = get_snapshot_health environment.snapshots service in
    let (to, from) = severity_of-critical_iff health in
    (
      ap (λ g. g.environment_id) e,
      ap (λ g. g.environment_name) e,
      ap (λ g. g.service) e,
      (λ c. to (sym (ap (λ g. g.severity) e) ∙ c), λ c. ap (λ g. g.severity) e ∙ from c),
    )
