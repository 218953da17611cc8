-- ===== src/Monitoring/Services.antt =====
-- frontend/src/monitoring.ts, lines 5-13 and 254-294: the monitored services, the labels of services
-- and resource types, and the order in which services are listed.
use ansible_aam.Prelude.{
  ℕ, suc, String, Option, none, some, List, [], ◌∷◌, ◌++◌, ◌==◌, if◌then◌else◌, or_else,
}
use ansible_aam.Prelude.Int.{ℤ, pos, leb_ℤ, eqb_ℤ, sub_ℕ}
use ansible_aam.Prelude.Dict.{Dict, lookup}
use mathlib.Core.Option
use ansible_aam.Utils.{orchestrator, same_kind, environment_kind, humanize}

unfoldable pub aap_monitored_services : List String
aap_monitored_services = "gateway" ∷ "controller" ∷ "eda" ∷ "hub" ∷ []

unfoldable pub orchestrator_monitored_services : List String
orchestrator_monitored_services = "orchestrator" ∷ []

unfoldable pub monitored_services : List String
unfolding aap_monitored_services orchestrator_monitored_services
monitored_services = aap_monitored_services ++ orchestrator_monitored_services

unfoldable pub monitored_services_for : Option String → List String
unfolding environment_kind aap_monitored_services orchestrator_monitored_services
monitored_services_for value =
    if same_kind (environment_kind value) orchestrator
    then orchestrator_monitored_services
    else aap_monitored_services

abbrev pub service_labels : Dict String
service_labels =
    ("gateway", "Gateway")
    ∷ ("controller", "Controller")
    ∷ ("eda", "Event-Driven Ansible")
    ∷ ("hub", "Automation Hub")
    ∷ ("orchestrator", "Automation Orchestrator")
    ∷ ("sync", "Environment sync")
    ∷ ("collector", "Collector")
    ∷ []

abbrev pub resource_type_labels : Dict String
resource_type_labels =
    ("workflow", "Orchestrator workflow")
    ∷ ("execution", "Orchestrator execution")
    ∷ ("integration", "Orchestrator integration")
    ∷ ("workflow_job_template", "Controller workflow template")
    ∷ ("job_template", "Job template")
    ∷ ("running_job", "Controller job")
    ∷ ("activation", "EDA activation")
    ∷ ("repository", "Hub repository")
    ∷ ("collection", "Hub collection")
    ∷ []

unfoldable pub service_label : String → String
unfolding lookup humanize
service_label service = or_else (lookup service service_labels) (humanize (some service))

unfoldable pub resource_type_label : String → String
unfolding lookup humanize
resource_type_label resource_type =
    or_else (lookup resource_type resource_type_labels) (humanize (some resource_type))

-- `xs.indexOf(x)`, with `none` for -1.
unfoldable pub index_of : List String → String → Option ℕ
index_of [] x = none
index_of (y ∷ ys) x = if y == x then some 0 else Option.map suc (index_of ys x)

-- `rank === -1 ? 50 : rank`.
unfoldable pub service_order : List String → String → ℕ
unfolding index_of
service_order services service = or_else (index_of services service) 50

-- `leftOrder - rightOrder || tie`.
abbrev pub by_order : ℕ → ℕ → ℤ → ℤ
by_order left_order right_order tie =
    let difference = sub_ℕ left_order right_order in
    if eqb_ℤ difference (pos 0) then tie else difference

-- The tie is broken by `localeCompare`, which is the host's.
module _ (locale_compare : String → String → ℤ) where
  unfoldable pub compare_services : String → String → ℤ
  compare_services left right =
      by_order (service_order monitored_services left) (service_order monitored_services right)
        (locale_compare left right)

-- `Array.prototype.sort`, which is stable: an item goes in front of the first that it is not after.
module _ {ℓ} {A : Type ℓ} (compare : A → A → ℤ) where
  unfoldable pub insert_sorted : A → List A → List A
  insert_sorted x [] = x ∷ []
  insert_sorted x (y ∷ ys) =
      if leb_ℤ (compare x y) (pos 0) then x ∷ y ∷ ys else y ∷ insert_sorted x ys

  unfoldable pub sort : List A → List A
  sort [] = []
  sort (x ∷ xs) = insert_sorted x (sort xs)

module _ {ℓ} {T : Type ℓ} (locale_compare : String → String → ℤ) where
  unfoldable pub ordered_service_entries : Dict T → Dict T
  unfolding compare_services
  ordered_service_entries services =
      sort (λ left right. compare_services locale_compare left.0 right.0) services
