-- ===== src/Monitoring/Snapshots.antt =====
-- frontend/src/monitoring.ts, lines 177-252: reading a service's snapshot, its health and its
-- metrics, and the collection profile of an environment.
use ansible_aam.Prelude.{
  String, ◌≡◌, inl, inr, Bool, true, ◌||◌, Option, none, some, List, [], ◌∷◌, ◌++◌, map, ◌==◌,
  if◌then◌else◌, Option-cases, or_else, find,
}
use ansible_aam.Prelude.Int.{pos}
use ansible_aam.Prelude.Dict.{Dict}
use ansible_aam.Prelude.Text.{◌⊕◌}
use ansible_aam.Prelude.Text.Numbers.{Number, int, is_finite, show}
use mathlib.Core.Option
use ansible_aam.Value.{Value, undefined, str, get, truthy}
use ansible_aam.Value.Count.{as_number, as_number-finite}
use ansible_aam.Types.{ServiceSnapshot, auth_mode_text, EnvironmentAuthMode}
use ansible_aam.Utils.{orchestrator, same_kind, environment_kind, humanize}
use ansible_aam.Capabilities.{CapabilityProfile, parse_capability_profile}
use ansible_aam.Monitoring.Services.{monitored_services}
use ansible_aam.Monitoring.Points.{MonitoringPoint}

unfoldable pub get_snapshot : List ServiceSnapshot → String → Option ServiceSnapshot
get_snapshot snapshots service = find (λ snapshot. snapshot.service == service) snapshots

-- `snapshot?.health ?? "not_configured"`.
abbrev pub health_of : Option ServiceSnapshot → String
health_of none = "not_configured"
health_of (some snapshot) = snapshot.health

-- `snapshot?.summary[key]`.
abbrev pub summary_value : Option ServiceSnapshot → String → Value
summary_value none key = undefined
summary_value (some snapshot) key = get key snapshot.summary

unfoldable pub get_snapshot_health : List ServiceSnapshot → String → String
unfolding get_snapshot
get_snapshot_health snapshots service = health_of (get_snapshot snapshots service)

-- The count of a value, or 0: the ladder of getNumericMetric and getHealthScore.
unfoldable pub number_or_zero : Value → Number
unfolding as_number
number_or_zero value = or_else (as_number value) (int (pos 0))

unfoldable pub get_numeric_metric : List ServiceSnapshot → String → String → Number
unfolding get_snapshot get number_or_zero
get_numeric_metric snapshots service key =
    number_or_zero (summary_value (get_snapshot snapshots service) key)

unfoldable pub get_health_score : Dict Value → Number
unfolding get number_or_zero
get_health_score summary = number_or_zero (get "health_score" summary)

-- `string | number`.
pub data MonitoringValue : Type 0 where
  text : String → MonitoringValue
  number : Number → MonitoringValue

unfoldable pub get_monitoring_value : List ServiceSnapshot → MonitoringPoint → MonitoringValue
unfolding get_snapshot_health get_numeric_metric
get_monitoring_value snapshots point =
    if point.key == "health"
    then text (get_snapshot_health snapshots point.service)
    else number (get_numeric_metric snapshots point.service point.key)

-- `String(value)`.
abbrev pub value_text : MonitoringValue → String
value_text (text s) = s
value_text (number n) = show n

-- The branches of formatMonitoringValue behind the test for "health".
abbrev pub number_text : (Number → String) → MonitoringValue → String
number_text to_locale_string (text s) = s
number_text to_locale_string (number n) = to_locale_string n

unfoldable pub format_monitoring_value :
    (Number → String) → MonitoringPoint → MonitoringValue → String
unfolding humanize show
format_monitoring_value to_locale_string point value =
    if point.key == "health"
    then humanize (some (value_text value))
    else number_text to_locale_string value

unfoldable pub get_service_health_map : List ServiceSnapshot → Dict String
unfolding monitored_services get_snapshot_health
get_service_health_map snapshots =
    map (λ service. (service, get_snapshot_health snapshots service)) monitored_services

-- `humanize` of a value that is cast to a text: a truthy value that is none has no `replaceAll`.
unfoldable pub humanize_value : Value → Option String
unfolding humanize
humanize_value (str s) = some (humanize (some s))
humanize_value v = if truthy v then none else some (humanize none)

abbrev pub Entry : Type 0
Entry = String × String

-- The fields of a record that getCollectionProfile reads.
pub record MonitoringRecord : Type 0 where
  pub kind : Option String
  pub auth_mode : EnvironmentAuthMode
  pub capabilities : Dict Value
  pub sync_interval_minutes : Number
  pub verify_ssl : Bool

abbrev common_entries : String → MonitoringRecord → List Entry
common_entries product r =
    ("Product", product)
    ∷ ("Auth mode", humanize (some (auth_mode_text r.auth_mode)))
    ∷ ("Verify TLS", if r.verify_ssl then "Enabled" else "Disabled")
    ∷ ("Sync interval", show r.sync_interval_minutes ⊕ " minutes")
    ∷ []

abbrev profile_entries : CapabilityProfile → String → List Entry
profile_entries profile mode =
    ("Management mode", mode)
    ∷ ("Gateway-only access", if profile.gateway_enforced then "Expected" else "Optional")
    ∷ (
      "Metrics and reports",
      if profile.metrics_enabled || profile.automation_reports_enabled
          then "Declared"
          else "Not declared",
    )
    ∷ []

-- getCollectionProfile; `none` is a TypeError.
unfoldable pub get_collection_profile : MonitoringRecord → Option (List Entry)
unfolding parse_capability_profile environment_kind humanize_value
get_collection_profile r =
    let profile = (parse_capability_profile (some r.capabilities)).profile in
    let mode = humanize_value profile.management_mode in
    let aap_entries =
      Option.map (λ m. common_entries "Ansible Automation Platform" r ++ profile_entries profile m)
        mode in
    if same_kind (environment_kind r.kind) orchestrator
    then some (common_entries "Automation Orchestrator" r)
    else aap_entries

-- A metric is a finite number, whatever the collector sent.
pub get_numeric_metric-finite :
    (snapshots : List ServiceSnapshot) (service key : String)
    → is_finite (get_numeric_metric snapshots service key) ≡ true
unfolding get_numeric_metric number_or_zero
get_numeric_metric-finite snapshots service key =
    let value = summary_value (get_snapshot snapshots service) key in
    elim (Option-cases (as_number value)) [
      | inl e ↦ rw e
      | inr (n, e) ↦ let (z, f) = as_number-finite value e in rw (e, f)
    ]
