-- ===== src/Monitoring/Findings/Collect.antt =====
-- The findings of an environment and of the fleet, as lists.
use ansible_aam.Prelude.{
  String, ◌≡◌, refl, sym, ap, ◌↔◌, ◌⊎◌, inl, inr, false, Option, none, some, List, [], ◌∷◌, ◌++◌,
  map, Bool-cases, Option-cases, or_else, somes, All,
}
use ansible_aam.Prelude.Text.{is_empty, is_empty-eq}
use ansible_aam.Monitoring.Services.{monitored_services_for}
use ansible_aam.Monitoring.Snapshots.{get_snapshot_health}
use ansible_aam.Monitoring.Findings.{
  MonitoringFinding, FindingSource, explain_service_health, sync_finding,
  collect_environment_findings, collect_monitoring_findings, truthy_text, failed_sync,
}
use mathlib.Core.List.{Sublistᴰ}
use mathlib.Core.Option
use ansible_aam.Monitoring.Findings.Laws.{
  IsQuiet, explain_service_health-eq-none_iff, explain_service_health-fields,
}

-- No sync error is recorded: an empty text counts as none.
abbrev pub HasNoSyncError : FindingSource → Type 0
HasNoSyncError environment =
    (environment.last_sync_error ≡ none) ⊎ (environment.last_sync_error ≡ some "")

-- An environment with nothing to report.
pub record IsClean (environment : FindingSource) : Type 0 where
  pub synced : HasNoSyncError environment
  pub quiet :
      All
        (λ service. IsQuiet (get_snapshot_health environment.snapshots service))
        (monitored_services_for environment.kind)

module _ {ℓ} {A : Type ℓ} where
  somes_cons-eq-nil :
      (o : Option A) (os : List (Option A)) → somes (o ∷ os) ≡ [] → (o ≡ none) × (somes os ≡ [])
  somes_cons-eq-nil none os h = (refl, h)
  somes_cons-eq-nil (some a) os h = cc

  append-eq-nil : (xs ys : List A) → xs ++ ys ≡ [] → (xs ≡ []) × (ys ≡ [])
  append-eq-nil [] ys h = (refl, h)
  append-eq-nil (x ∷ xs) ys h = cc

module _ (environment : FindingSource) where
  IsQuiet-of_none :
      (services : List String)
      → somes (map (explain_service_health environment) services) ≡ []
      → All (λ service. IsQuiet (get_snapshot_health environment.snapshots service)) services
  IsQuiet-of_none [] h = tt
  IsQuiet-of_none (s ∷ services) h =
      let (first, rest) = somes_cons-eq-nil _ _ h in
      ((explain_service_health-eq-none_iff environment s).0 first, IsQuiet-of_none services rest)

  none_of_quiet :
      (services : List String)
      → All (λ service. IsQuiet (get_snapshot_health environment.snapshots service)) services
      → somes (map (explain_service_health environment) services) ≡ []
  none_of_quiet [] h = refl
  none_of_quiet (s ∷ services) (h, hs) =
      rw ((explain_service_health-eq-none_iff environment s).1 h) (none_of_quiet services hs)

no_sync_finding :
    (environment : FindingSource) (o : Option String)
    → (Option.map (failed_sync environment) (truthy_text o) ≡ none) ↔ ((o ≡ none) ⊎ (o ≡ some ""))
no_sync_finding environment none = (λ e. inl refl, λ c. refl)
no_sync_finding environment (some error) = elim (Bool-cases (is_empty error)) [
  | inl e ↦ rw e (λ h. inr (ap some (is_empty-eq error e)), λ c. refl)
  | inr e ↦ rw e (λ h. cc, λ c. absurd (filled e c))
]
  where
    filled : is_empty error ≡ false → ((some error ≡ none) ⊎ (some error ≡ some "")) → ⊥
    filled e (inl h) = cc
    filled e (inr h) = cc (ap (λ o. is_empty (or_else o "")) h)

sync_finding-eq-none_iff :
    (environment : FindingSource) → (sync_finding environment ≡ none) ↔ HasNoSyncError environment
unfolding sync_finding
sync_finding-eq-none_iff environment = no_sync_finding environment environment.last_sync_error

-- An environment has no finding exactly when its last sync left no error and each service that is
-- monitored for its kind is healthy or not configured.
pub collect_environment_findings-eq-nil_iff :
    (environment : FindingSource)
    → (collect_environment_findings environment ≡ []) ↔ IsClean environment
unfolding collect_environment_findings
collect_environment_findings-eq-nil_iff environment =
    let services = monitored_services_for environment.kind in
    (
      λ h.
          let (synced, rest) = somes_cons-eq-nil _ _ h in
          record {
            synced = (sync_finding-eq-none_iff environment).0 synced;
            quiet = IsQuiet-of_none environment services rest;
          },
      λ c.
          rw ((sync_finding-eq-none_iff environment).1 c.synced)
            (none_of_quiet environment services c.quiet),
    )

fleet-IsClean :
    (environments : List FindingSource)
    → collect_monitoring_findings environments ≡ []
    → All IsClean environments
unfolding collect_monitoring_findings
fleet-IsClean [] h = tt
fleet-IsClean (e ∷ environments) h =
    let (first, rest) = append-eq-nil _ _ h in
    ((collect_environment_findings-eq-nil_iff e).0 first, fleet-IsClean environments rest)

clean_fleet :
    (environments : List FindingSource)
    → All IsClean environments
    → collect_monitoring_findings environments ≡ []
unfolding collect_monitoring_findings
clean_fleet [] h = refl
clean_fleet (e ∷ environments) (h, hs) =
    rw ((collect_environment_findings-eq-nil_iff e).1 h) (clean_fleet environments hs)

-- The fleet has no finding exactly when every environment is clean.
pub collect_monitoring_findings-eq-nil_iff :
    (environments : List FindingSource)
    → (collect_monitoring_findings environments ≡ []) ↔ All IsClean environments
collect_monitoring_findings-eq-nil_iff environments =
    (fleet-IsClean environments, clean_fleet environments)

-- The services that the findings name, in order.
abbrev pub named : List MonitoringFinding → List String
named findings = map (λ f. f.service) findings

named-somes :
    (environment : FindingSource) (services : List String)
    → Sublistᴰ (named (somes (map (explain_service_health environment) services))) services
named-somes environment [] = Sublistᴰ.slnil
named-somes environment (s ∷ services) =
    elim (Option-cases (explain_service_health environment s)) [
      | inl e ↦ rw e (Sublistᴰ.cons (named-somes environment services))
      | inr (f, e) ↦ rw e (
          Sublistᴰ.cons-cons (explain_service_health-fields environment s f e).2
            (named-somes environment services))
    ]

sync_finding-service :
    (environment : FindingSource) {f : MonitoringFinding}
    → sync_finding environment ≡ some f
    → f.service ≡ "sync"
unfolding sync_finding
sync_finding-service environment h = named_sync environment.last_sync_error h
  where
    named_sync :
        (o : Option String) {f : MonitoringFinding}
        → Option.map (failed_sync environment) (truthy_text o) ≡ some f
        → f.service ≡ "sync"
    named_sync none h = cc
    named_sync (some error) h = elim (Bool-cases (is_empty error)) [
      | inl e ↦ cc (rw e at h)
      | inr e ↦ sym (ap (λ g. (or_else g (failed_sync environment error)).service) (rw e at h))
    ]

-- The findings of an environment name "sync" at most once and first, and then only services that
-- are monitored for its kind, each at most once and in the declared order.
pub collect_environment_findings-sublist :
    (environment : FindingSource)
    → Sublistᴰ
        (named (collect_environment_findings environment))
        ("sync" ∷ monitored_services_for environment.kind)
unfolding collect_environment_findings
collect_environment_findings-sublist environment = elim (Option-cases (sync_finding environment)) [
  | inl e ↦ rw e (Sublistᴰ.cons (named-somes environment _))
  | inr (f, e) ↦
      rw e (Sublistᴰ.cons-cons (sync_finding-service environment e) (named-somes environment _))
]
