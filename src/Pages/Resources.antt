-- ===== src/Pages/Resources.antt =====
-- frontend/src/pages/environment-detail.tsx, lines 65-100 and 290-309: the action of a resource, its
-- message, and the filters of the list.
use ansible_aam.Prelude.{
  String, ◌≡◌, refl, sym, ap, ◌∙◌, inl, inr, Bool, true, false, not, ◌&&◌, Option, none, some, List,
  [], ◌∷◌, arith, ◌==◌, eq_iff, if◌then◌else◌, Bool-cases, or_else, select,
}
use ansible_aam.Prelude.Dict.{Dict}
use ansible_aam.Prelude.Text.{◌⊕◌, is_empty, trim, trim-nil}
use ansible_aam.Prelude.Text.Search.{contains}
use ansible_aam.Prelude.Text.Split.{join}
use ansible_aam.Value.{Value, bool, get, truthy}
use ansible_aam.Types.{
  Resource, RemoteActionName, launch_job_template, launch_workflow_job_template, sync_project,
  set_activation_state, sync_repository, cancel_job, cancel_workflow_job, cancel_execution,
  decide_approval, patch_controller_settings, ensure_organization, ensure_execution_environment,
  ensure_instance_group,
}

pub record ResourceAction : Type 0 where
  pub action : RemoteActionName
  pub label : String
  pub payload : Option (Dict Value)

abbrev plain_action : RemoteActionName → String → ResourceAction
plain_action action label = record { action = action; label = label; payload = none }

-- The text that an action's name stands for.
abbrev pub action_text : RemoteActionName → String
action_text launch_job_template = "launch_job_template"
action_text launch_workflow_job_template = "launch_workflow_job_template"
action_text set_activation_state = "set_activation_state"
action_text sync_project = "sync_project"
action_text sync_repository = "sync_repository"
action_text cancel_job = "cancel_job"
action_text cancel_workflow_job = "cancel_workflow_job"
action_text cancel_execution = "cancel_execution"
action_text decide_approval = "decide_approval"
action_text patch_controller_settings = "patch_controller_settings"
action_text ensure_organization = "ensure_organization"
action_text ensure_execution_environment = "ensure_execution_environment"
action_text ensure_instance_group = "ensure_instance_group"

-- The action of an activation, by `resource.status !== "disabled"`.
abbrev pub activation_action : Bool → ResourceAction
activation_action enabled = record {
  action = set_activation_state;
  label = if enabled then "Disable activation" else "Enable activation";
  payload = some (("enabled", bool (not enabled)) ∷ []);
}

unfoldable pub build_resource_action : Resource → Option ResourceAction
build_resource_action resource =
    if resource.service == "controller" && resource.resource_type == "job_template"
    then some (plain_action launch_job_template "Launch template")
    else if resource.service == "controller" && resource.resource_type == "workflow_job_template"
    then some (plain_action launch_workflow_job_template "Launch workflow")
    else if resource.service == "controller" && resource.resource_type == "project"
    then some (plain_action sync_project "Sync project")
    else if resource.service == "eda" && resource.resource_type == "activation"
    then some (activation_action (not (resource.status == "disabled")))
    else if resource.service == "hub" && resource.resource_type == "repository"
    then some (plain_action sync_repository "Sync repository")
    else none

abbrev is_activation : RemoteActionName → Bool
is_activation set_activation_state = true
is_activation _ = false

abbrev payload_value : Option (Dict Value) → Bool
payload_value none = false
payload_value (some fields) = truthy (get "enabled" fields)

unfoldable pub action_success_message : ResourceAction → Resource → String
unfolding get ◌⊕◌
action_success_message action resource =
    if is_activation action.action
    then (if payload_value action.payload then "Enabled" else "Disabled")
      ⊕ (" " ⊕ (resource.name ⊕ "."))
    else action.label ⊕ (" queued for " ⊕ (resource.name ⊕ "."))

-- The five texts that are searched, without the empty ones.
unfoldable pub haystack : Resource → String
unfolding join
haystack resource = join " " (
    select (λ s. not (is_empty s))
      (resource.name
        ∷ resource.external_id
        ∷ resource.resource_type
        ∷ resource.service
        ∷ or_else resource.namespace ""
        ∷ []))

module _ (to_lower_case : String → String) where
  unfoldable pub is_shown : String → String → String → Resource → Bool
  unfolding haystack contains
  is_shown service_filter type_filter normalized_query resource =
      if not (service_filter == "all") && not (resource.service == service_filter)
      then false
      else if not (type_filter == "all") && not (resource.resource_type == type_filter)
      then false
      else if is_empty normalized_query
      then true
      else contains (to_lower_case (haystack resource)) normalized_query

  unfoldable pub filtered_resources : String → String → String → List Resource → List Resource
  unfolding is_shown
  filtered_resources service_filter type_filter query resources =
      select (is_shown service_filter type_filter (to_lower_case (trim query))) resources

  is_shown-and :
      (service_filter type_filter query : String) (r : Resource)
      → is_shown service_filter type_filter query r ≡ (
          is_shown "all" "all" query r
          && (is_shown "all" type_filter "" r && is_shown service_filter "all" "" r))
  unfolding is_shown
  is_shown-and service_filter type_filter query r = ground (arith, eq_iff "all" "all")

  select_and :
      (p q : Resource → Bool) (rs : List Resource)
      → select p (select q rs) ≡ select (λ r. p r && q r) rs
  select_and p q [] = refl
  select_and p q (r ∷ rs) = ground (arith, select_and p q rs)

  -- With a lower-casing that leaves the empty text alone: the three filters together show what each
  -- leaves of the others' lists, by service first, then by type, then by the query.
  pub filtered_resources-step :
      to_lower_case "" ≡ ""
      → (service_filter type_filter query : String) (rs : List Resource)
      → filtered_resources service_filter type_filter query rs
        ≡ filtered_resources "all" "all" query (
            filtered_resources "all" type_filter "" (filtered_resources service_filter "all" "" rs))
  unfolding filtered_resources
  filtered_resources-step empty service_filter type_filter query rs =
      let q = to_lower_case (trim query) in
      let blank : to_lower_case (trim "") ≡ "" = ap to_lower_case trim-nil ∙ empty in
      let by_service = is_shown service_filter "all" "" in
      let by_type = is_shown "all" type_filter "" in
      let by_query = is_shown "all" "all" q in
      let together : select (is_shown service_filter type_filter q) rs
          ≡ select by_query (select by_type (select by_service rs)) =
        (λ i. select (λ r. is_shown-and service_filter type_filter q r i) rs)
        ∙ sym (select_and by_query (λ r. by_type r && by_service r) rs)
        ∙ ap (select by_query) (sym (select_and by_type by_service rs)) in
      together
      ∙ ap
          (λ t.
            select by_query
              (select (is_shown "all" type_filter t) (select (is_shown service_filter "all" t) rs)))
          (sym blank)

-- An action that is offered for an activation turns it to the other state, and the message says so.
pub action_success_message-activation :
    (resource : Resource)
    → resource.service ≡ "eda"
    → resource.resource_type ≡ "activation"
    → (action : ResourceAction) × (build_resource_action resource ≡ some action)
      × (action.action ≡ set_activation_state)
      × (action.payload ≡ some (("enabled", bool (resource.status == "disabled")) ∷ []))
      × (action_success_message action resource
          ≡ (if resource.status == "disabled" then "Enabled" else "Disabled")
            ⊕ (" " ⊕ (resource.name ⊕ ".")))
unfolding build_resource_action
action_success_message-activation resource s t = elim (Bool-cases (resource.status == "disabled")) [
  | inl e ↦
      rw (s, t, e)
        (activation_action false, refl, refl, refl, unfold action_success_message get in refl)
  | inr e ↦
      rw (s, t, e)
        (activation_action true, refl, refl, refl, unfold action_success_message get in refl)
]
