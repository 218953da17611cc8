-- ===== src/Pages/Fleet.antt =====
-- frontend/src/pages/monitoring.tsx, lines 46-86 and 140-209: the sums over the fleet, the health
-- breakdown of each service, and the coverage figures.
pub mod Breakdown
pub mod Totals
use ansible_aam.Prelude.{
  ℕ, zero, suc, ◌+◌, ◌-◌, ◌*◌, ◌≤◌, ◌<◌, Char, code, String, ◌≡◌, refl, sym, ap, ◌∙◌, ◌≢◌, ◌↔◌, ◌⊎◌,
  inl, inr, Bool, true, false, not, ◌&&◌, ◌||◌, Option, none, some, List, [], ◌∷◌, ◌++◌, map, arith,
  ◌==◌, eq_iff, eq_refl, ltb, leb, eqb, if◌then◌else◌, Bool-cases, Option-cases, or_else, is_some,
  length, select, some_of, every, find, take, drop, somes, length-append, select-append,
  length-select-le, length-somes-le, All, All-append, flat_map, length-map,
}
use ansible_aam.Prelude.Int.{ℤ, pos, negsuc, ◌+ℤ◌, ltb_ℤ, leb_ℤ, eqb_ℤ}
use ansible_aam.Prelude.Dict.{
  Dict, includes, keys, lookup, insert, remove, lookup-insert, lookup-remove,
}
use ansible_aam.Prelude.Text.{
  ◌⊕◌, is_empty, or_text, trim, is_blank, String-cases, trim_idem, trim-nil, is_empty-eq,
}
use ansible_aam.Prelude.Text.Numbers.{
  Number, nan, infinity, neg_infinity, int, is_finite, truthy_number, add, less, same_number,
  parse_int, show_nat, show, parse_int-show_nat,
}
use mathlib.Core.List.{foldl}
use ansible_aam.Value.{Value, undefined, null, bool, num, str, arr, obj, get, truthy}
use ansible_aam.Types.{ServiceSnapshot, MonitoringEnvironment}
use ansible_aam.Utils.{EnvironmentKind, aap, orchestrator, same_kind, environment_kind}
use ansible_aam.Monitoring.Snapshots.{get_snapshot, summary_value, get_snapshot_health}

-- `Number.isFinite(parsed) ? total + parsed : total`.
abbrev pub add_finite : Number → Number → Number
add_finite total n = if is_finite n then add total n else total

-- The body of the `reduce` of sumNumericMetric, over the value of the key.
unfoldable pub add_value : Number → Value → Number
unfolding parse_int trim
add_value total (num n) = add_finite total n
add_value total (str s) = if is_blank s then total else add_finite total (parse_int s)
add_value total _ = total

unfoldable pub sum_numeric_metric : List MonitoringEnvironment → String → String → Number
unfolding add_value get_snapshot
sum_numeric_metric environments service key =
    foldl
      (λ total environment.
        add_value total (summary_value (get_snapshot environment.snapshots service) key))
      (int (pos 0)) environments

-- The object literal `counts`.
pub record HealthCounts : Type 0 where
  pub healthy : ℕ
  pub warning : ℕ
  pub critical : ℕ
  pub not_configured : ℕ
  pub unknown : ℕ

-- The properties that every object inherits: `in` finds these too, and an assignment to one changes
-- none of the five counts.
abbrev pub object_prototype_names : List String
object_prototype_names =
    "constructor" ∷ "__defineGetter__" ∷ "__defineSetter__" ∷ "hasOwnProperty" ∷ "__lookupGetter__"
    ∷ "__lookupSetter__" ∷ "isPrototypeOf" ∷ "propertyIsEnumerable" ∷ "toString" ∷ "valueOf"
    ∷ "__proto__" ∷ "toLocaleString" ∷ []

unfoldable pub is_inherited : String → Bool
is_inherited health = includes object_prototype_names health

-- `health in counts ? counts[health] += 1 : counts.unknown += 1`.
unfoldable pub count_health : HealthCounts → String → HealthCounts
count_health counts health =
    if health == "healthy"
    then record counts { healthy = counts.healthy + 1 }
    else if health == "warning"
    then record counts { warning = counts.warning + 1 }
    else if health == "critical"
    then record counts { critical = counts.critical + 1 }
    else if health == "not_configured"
    then record counts { not_configured = counts.not_configured + 1 }
    else if health == "unknown"
    then record counts { unknown = counts.unknown + 1 }
    else if is_inherited health
    then counts
    else record counts { unknown = counts.unknown + 1 }

abbrev pub no_counts : HealthCounts
no_counts = record { healthy = 0; warning = 0; critical = 0; not_configured = 0; unknown = 0 }

pub record HealthBreakdown : Type 0 where
  pub service : String
  pub counts : HealthCounts
  pub total : ℕ

-- The `forEach` over the environments, from some counts.
unfoldable pub count_environments :
    HealthCounts → String → List MonitoringEnvironment → HealthCounts
unfolding count_health get_snapshot_health
count_environments counts service [] = counts
count_environments counts service (environment ∷ environments) =
    count_environments (count_health counts (get_snapshot_health environment.snapshots service))
      service environments

unfoldable pub build_health_breakdown :
    List MonitoringEnvironment → List String → List HealthBreakdown
unfolding count_environments
build_health_breakdown environments services =
    map
      (λ service. record {
        service = service;
        counts = count_environments no_counts service environments;
        total = length environments;
      })
      services
