-- ===== src/Monitoring/Tests.antt =====
-- The order of services, the monitoring points and the fleet figures on concrete inputs.
use ansible_aam.Prelude.{String, ◌≡◌, refl, [], ◌∷◌}
use ansible_aam.Prelude.Int.{ℤ, pos}
use ansible_aam.Prelude.Dict.{Dict}
use mathlib.Core.List.{Perm}
use ansible_aam.Monitoring.Services.{
  monitored_services, service_order, compare_services, insert_sorted, sort, ordered_service_entries,
}
use ansible_aam.Monitoring.Order.{Ascending, place, ordered_service_entries-Ascending}

-- A locale in which all texts are equal.
abbrev blind : String → String → ℤ
blind left right = pos 0

abbrev health_by_service : Dict String
health_by_service = ("zeta", "ok") ∷ ("hub", "ok") ∷ ("gateway", "ok") ∷ []

ordered_test :
    ordered_service_entries blind health_by_service
    ≡ ("gateway", "ok") ∷ ("hub", "ok") ∷ ("zeta", "ok") ∷ []
unfolding ordered_service_entries compare_services insert_sorted sort service_order
    monitored_services
ordered_test = refl

ordered_service_entries-Ascending_example :
    Ascending (λ e. place e.0) (ordered_service_entries blind health_by_service)
    × Perm (ordered_service_entries blind health_by_service) health_by_service
ordered_service_entries-Ascending_example =
    ordered_service_entries-Ascending blind health_by_service
