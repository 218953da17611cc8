-- ===== src/Monitoring/Points/Laws.antt =====
-- The table of monitoring points agrees with the lists of monitored services.
use ansible_aam.Prelude.{
  String, ◌≡◌, Bool, true, false, not, ◌&&◌, Option, List, arith, ◌==◌, if◌then◌else◌, select,
  some_of, All,
}
use ansible_aam.Prelude.Dict.{includes}
use ansible_aam.Utils.{orchestrator, same_kind, environment_kind}
use ansible_aam.Monitoring.Services.{
  monitored_services_for, aap_monitored_services, orchestrator_monitored_services,
}
use ansible_aam.Monitoring.Points.{
  MonitoringPointGroup, monitoring_point_groups, monitoring_point_groups_for,
}

-- Every point of the groups is about one of the services.
abbrev pub IsAbout : List String → List MonitoringPointGroup → Type 0
IsAbout services groups = All (λ g. All (λ p. includes services p.service ≡ true) g.points) groups

-- Each of the services has a point for its health.
abbrev pub ShowsHealth : List MonitoringPointGroup → List String → Type 0
ShowsHealth groups services =
    All
      (λ s.
        some_of
          (λ (g : MonitoringPointGroup).
            some_of (λ p. p.service == s && p.key == "health") g.points)
          groups
        ≡ true)
      services

-- What the two functions return, by the outcome of their common test.
abbrev services_by : Bool → List String
services_by b = if b then orchestrator_monitored_services else aap_monitored_services

abbrev groups_by : Bool → List MonitoringPointGroup
groups_by b =
    if b
    then select (λ group. group.id == "orchestrator") monitoring_point_groups
    else select (λ group. not (group.id == "orchestrator")) monitoring_point_groups

by_kind :
    (b : Bool) → IsAbout (services_by b) (groups_by b) × ShowsHealth (groups_by b) (services_by b)
unfolding monitoring_point_groups aap_monitored_services orchestrator_monitored_services
by_kind true = ground arith
by_kind false = ground arith

-- The groups that an environment shows are about the services that are monitored for its kind, and
-- the health of each of these is shown.
pub monitoring_point_groups_for-services :
    (value : Option String)
    → IsAbout (monitored_services_for value) (monitoring_point_groups_for value)
      × ShowsHealth (monitoring_point_groups_for value) (monitored_services_for value)
unfolding monitoring_point_groups_for monitored_services_for
monitoring_point_groups_for-services value =
    by_kind (same_kind (environment_kind value) orchestrator)
