-- ===== src/Api/Endpoints.antt =====
-- frontend/src/api.ts, lines 107-195: the method and the path of each call of the API.
-- `URLSearchParams` is a parameter: `params_text` writes names and values as a query.
use ansible_aam.Prelude.{ℕ, String, Bool, Option, [], ◌∷◌, ◌++◌, eqb, if◌then◌else◌, or_else}
use ansible_aam.Prelude.Dict.{Dict}
use ansible_aam.Prelude.Text.{◌⊕◌, is_empty}
use ansible_aam.Prelude.Text.Numbers.{show_nat}
use ansible_aam.Prelude.Text.Uri.{encode_uri_component}

pub data Method : Type 0 where
  get post patch delete : Method

-- The calls, with the parts of the path; the bodies are those of the pages' requests.
pub data Endpoint : Type 0 where
  dashboard approvals monitoring environments create_environment fleet_topology groups policies
        create_policy policy_results config_baseline me auth_providers login external_login logout
        access_directory create_access_user create_assignment create_identity_provider
        sync_executions runtime_settings hub_preferences update_hub_preferences execute_action
        job_stats :
      Endpoint
  health_history activity : Option String → Endpoint
  alerts : Bool → Endpoint
  acknowledge_alert environment update_environment delete_environment sync_environment topology
        update_policy push_policy remediate_policy update_access_user delete_assignment
        update_identity_provider delete_identity_provider search :
      String → Endpoint
  jobs : (status environment_id : Option String) (limit_per_environment : ℕ) → Endpoint

-- `environmentId ? `?environment_id=…` : ""`.
unfoldable pub environment_query : Option String → String
unfolding encode_uri_component ◌⊕◌
environment_query environment_id =
    if is_empty (or_else environment_id "")
    then ""
    else "?environment_id=" ⊕ encode_uri_component (or_else environment_id "")

-- The parameters of a list of jobs: those that are there and not empty.
abbrev pub param : String → Option String → Dict String
param name value = if is_empty (or_else value "") then [] else (name, or_else value "") ∷ []

unfoldable pub jobs_params : Option String → Option String → ℕ → Dict String
unfolding show_nat
jobs_params status environment_id limit_per_environment =
    param "status" status
    ++ (param "environment_id" environment_id
        ++ (if eqb limit_per_environment 0
            then []
            else ("limit_per_environment", show_nat limit_per_environment) ∷ []))

abbrev under : String → String → String → String
under prefix id suffix = prefix ⊕ (id ⊕ suffix)

module _ (params_text : Dict String → String) where
  abbrev pub with_query : String → String → String
  with_query path query = if is_empty query then path else path ⊕ ("?" ⊕ query)

  unfoldable pub path_of : Endpoint → String
  unfolding ◌⊕◌ environment_query jobs_params encode_uri_component
  path_of dashboard = "/dashboard"
  path_of approvals = "/approvals"
  path_of monitoring = "/monitoring"
  path_of environments = "/environments"
  path_of create_environment = "/environments"
  path_of fleet_topology = "/topology"
  path_of groups = "/groups"
  path_of policies = "/policies"
  path_of create_policy = "/policies"
  path_of policy_results = "/policy-results"
  path_of config_baseline = "/config-baseline"
  path_of me = "/me"
  path_of auth_providers = "/auth/providers"
  path_of login = "/auth/login"
  path_of external_login = "/auth/external"
  path_of logout = "/auth/logout"
  path_of access_directory = "/access/directory"
  path_of create_access_user = "/access/users"
  path_of create_assignment = "/access/assignments"
  path_of create_identity_provider = "/access/identity-providers"
  path_of sync_executions = "/sync-executions"
  path_of runtime_settings = "/settings/runtime"
  path_of hub_preferences = "/settings/preferences"
  path_of update_hub_preferences = "/settings/preferences"
  path_of execute_action = "/actions"
  path_of job_stats = "/jobs/stats"
  path_of (health_history environment_id) = "/health-history" ⊕ environment_query environment_id
  path_of (activity environment_id) = "/events" ⊕ environment_query environment_id
  path_of (alerts include_closed) =
      "/alerts" ⊕ (if include_closed then "?include_closed=true" else "")
  path_of (acknowledge_alert id) = under "/alerts/" id "/acknowledge"
  path_of (environment id) = under "/environments/" id ""
  path_of (update_environment id) = under "/environments/" id ""
  path_of (delete_environment id) = under "/environments/" id ""
  path_of (sync_environment id) = under "/environments/" id "/sync"
  path_of (topology id) = under "/environments/" id "/topology"
  path_of (update_policy id) = under "/policies/" id ""
  path_of (push_policy id) = under "/policies/" id "/push"
  path_of (remediate_policy id) = under "/policies/" id "/remediate"
  path_of (update_access_user id) = under "/access/users/" id ""
  path_of (delete_assignment id) = under "/access/assignments/" id ""
  path_of (update_identity_provider id) = under "/access/identity-providers/" id ""
  path_of (delete_identity_provider id) = under "/access/identity-providers/" id ""
  path_of (search q) = "/search?q=" ⊕ encode_uri_component q
  path_of (jobs status environment_id limit) =
      with_query "/jobs" (params_text (jobs_params status environment_id limit))

unfoldable pub method_of : Endpoint → Method
method_of create_environment = post
method_of create_policy = post
method_of login = post
method_of external_login = post
method_of logout = post
method_of create_access_user = post
method_of create_assignment = post
method_of create_identity_provider = post
method_of update_hub_preferences = patch
method_of execute_action = post
method_of (acknowledge_alert id) = post
method_of (update_environment id) = patch
method_of (delete_environment id) = delete
method_of (sync_environment id) = post
method_of (update_policy id) = patch
method_of (push_policy id) = post
method_of (remediate_policy id) = post
method_of (update_access_user id) = patch
method_of (delete_assignment id) = delete
method_of (update_identity_provider id) = patch
method_of (delete_identity_provider id) = delete
method_of _ = get
