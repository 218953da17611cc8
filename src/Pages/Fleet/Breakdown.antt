-- ===== src/Pages/Fleet/Breakdown.antt =====
-- The counts of a health breakdown add up to the environments.
use ansible_aam.Prelude.{
  ℕ, ◌+◌, String, ◌≡◌, refl, ◌∙◌, Bool, false, List, [], ◌∷◌, arith, ◌==◌, eq_iff, if◌then◌else◌,
  length, select, All,
}
use ansible_aam.Types.{MonitoringEnvironment}
use ansible_aam.Monitoring.Snapshots.{get_snapshot_health}
use ansible_aam.Pages.Fleet.{
  HealthCounts, is_inherited, count_health, no_counts, HealthBreakdown, count_environments,
  build_health_breakdown,
}

abbrev pub sum_of : HealthCounts → ℕ
sum_of c = c.healthy + c.warning + c.critical + c.not_configured + c.unknown

-- How many of the environments have a health for which the test holds.
abbrev pub count_if : (String → Bool) → String → List MonitoringEnvironment → ℕ
count_if test service environments =
    length (select (λ e. test (get_snapshot_health e.snapshots service)) environments)

inherited_healthy : is_inherited "healthy" ≡ false
unfolding is_inherited
inherited_healthy = refl

inherited_warning : is_inherited "warning" ≡ false
unfolding is_inherited
inherited_warning = refl

inherited_critical : is_inherited "critical" ≡ false
unfolding is_inherited
inherited_critical = refl

inherited_not_configured : is_inherited "not_configured" ≡ false
unfolding is_inherited
inherited_not_configured = refl

inherited_unknown : is_inherited "unknown" ≡ false
unfolding is_inherited
inherited_unknown = refl

-- An environment is counted once, unless its health is the name of an inherited property.
count_health-sum :
    (counts : HealthCounts) (health : String)
    → sum_of (count_health counts health) + (if is_inherited health then 1 else 0)
      ≡ sum_of counts + 1
unfolding count_health
count_health-sum counts health = ground (
  arith,
  eq_iff health "healthy",
  eq_iff health "warning",
  eq_iff health "critical",
  eq_iff health "not_configured",
  eq_iff health "unknown",
  inherited_healthy,
  inherited_warning,
  inherited_critical,
  inherited_not_configured,
  inherited_unknown,
)

count_health-critical :
    (counts : HealthCounts) (health : String)
    → (count_health counts health).critical
      ≡ counts.critical + (if health == "critical" then 1 else 0)
unfolding count_health
count_health-critical counts health = ground (
  arith,
  eq_iff health "healthy",
  eq_iff health "warning",
  eq_iff health "critical",
  eq_iff health "not_configured",
  eq_iff health "unknown",
  eq_iff "healthy" "critical",
  eq_iff "warning" "critical",
  eq_iff "not_configured" "critical",
  eq_iff "unknown" "critical",
)

module _ (service : String) where
  count_environments-sum :
      (counts : HealthCounts) (environments : List MonitoringEnvironment)
      → sum_of (count_environments counts service environments)
          + count_if is_inherited service environments
        ≡ sum_of counts + length environments
  unfolding count_environments
  count_environments-sum counts [] = omega arith
  count_environments-sum counts (e ∷ environments) =
      let health = get_snapshot_health e.snapshots service in
      ground (
        arith,
        count_health-sum counts health,
        count_environments-sum (count_health counts health) environments,
      )

  count_environments-critical :
      (counts : HealthCounts) (environments : List MonitoringEnvironment)
      → (count_environments counts service environments).critical
        ≡ counts.critical + count_if (λ health. health == "critical") service environments
  unfolding count_environments
  count_environments-critical counts [] = omega arith
  count_environments-critical counts (e ∷ environments) =
      let health = get_snapshot_health e.snapshots service in
      ground (
        arith,
        count_health-critical counts health,
        count_environments-critical (count_health counts health) environments,
      )

-- What holds of one row.
pub record IsAccurate (environments : List MonitoringEnvironment) (row : HealthBreakdown)
    : Type 0 where
  pub total : row.total ≡ length environments
  pub conserved : sum_of row.counts + count_if is_inherited row.service environments ≡ row.total
  pub critical :
      row.counts.critical ≡ count_if (λ health. health == "critical") row.service environments

-- In every row the five counts add up to the environments but those whose health is the name of an
-- inherited property, and the count "critical" is that of the environments with this health.
pub build_health_breakdown-IsAccurate :
    (environments : List MonitoringEnvironment) (services : List String)
    → All (IsAccurate environments) (build_health_breakdown environments services)
unfolding build_health_breakdown
build_health_breakdown-IsAccurate environments [] = tt
build_health_breakdown-IsAccurate environments (s ∷ services) = (
  record {
    total = refl;
    conserved = count_environments-sum s no_counts environments ∙ omega arith;
    critical = count_environments-critical s no_counts environments ∙ omega arith;
  },
  build_health_breakdown-IsAccurate environments services,
)
