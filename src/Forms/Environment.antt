-- ===== src/Forms/Environment.antt =====
-- frontend/src/components/environment-form.tsx: the state of the form, the parsers of its fields,
-- the initial state of a stored environment, and the check of the credentials.
pub mod Submit
pub mod Slug
pub mod Registration
use ansible_aam.Prelude.{
  ℕ, zero, suc, ◌+◌, ◌-◌, ◌*◌, ◌≤◌, ◌<◌, Char, code, String, ◌≡◌, refl, sym, ap, ◌∙◌, ◌≢◌, ◌↔◌, ◌⊎◌,
  inl, inr, Bool, true, false, not, ◌&&◌, ◌||◌, Option, none, some, List, [], ◌∷◌, ◌++◌, map, arith,
  ◌==◌, eq_iff, eq_refl, ltb, leb, eqb, if◌then◌else◌, Bool-cases, Option-cases, or_else, is_some,
  length, select, some_of, every, find, take, drop, somes, length-append, select-append,
  length-select-le, length-somes-le, All, All-append, flat_map, length-map,
}
use ansible_aam.Prelude.Int.{ℤ, pos, negsuc, ◌+ℤ◌, ltb_ℤ, leb_ℤ, eqb_ℤ}
use ansible_aam.Prelude.Dict.{
  Dict, includes, keys, lookup, insert, remove, lookup-insert, lookup-remove,
}
use ansible_aam.Prelude.Text.{
  ◌⊕◌, is_empty, or_text, trim, is_blank, String-cases, trim_idem, trim-nil, is_empty-eq,
}
use ansible_aam.Prelude.Text.Numbers.{
  Number, nan, infinity, neg_infinity, int, is_finite, truthy_number, add, less, same_number,
  parse_int, show_nat, show, parse_int-show_nat,
}
use ansible_aam.Prelude.Result.{Result, ok, err, ◌>>=◌, ◌>>◌, throw_if}
use ansible_aam.Prelude.Text.Split.{join}
use ansible_aam.Value.{Value, undefined, null, bool, num, str, arr, obj, entries, from_entries, get}
use ansible_aam.Types.{
  EnvironmentAuthMode, oauth2, service_account, header_passthrough, DeploymentType, podman,
  EnvironmentDetail,
}
use ansible_aam.Utils.{EnvironmentKind, aap, orchestrator, same_kind}
use ansible_aam.Capabilities.{CapabilityProfile, as_string, parse_capability_profile}

pub data Mode : Type 0 where
  create edit : Mode

-- `management_mode` is the profile's, which is cast and not checked.
pub record FormState : Type 0 where
  pub name : String
  pub slug : String
  pub description : String
  pub owner : String
  pub tags : String
  pub groupings : String
  pub labels : String
  pub kind : EnvironmentKind
  pub deployment_type : DeploymentType
  pub region : String
  pub cluster_or_project : String
  pub account_or_subscription : String
  pub host_or_namespace : String
  pub platform_url : String
  pub gateway_url : String
  pub controller_url : String
  pub eda_url : String
  pub hub_url : String
  pub orchestrator_url : String
  pub auth_mode : EnvironmentAuthMode
  pub client_id : String
  pub client_secret : String
  pub access_token : String
  pub orchestrator_client_id : String
  pub orchestrator_client_secret : String
  pub orchestrator_access_token : String
  pub verify_ssl : Bool
  pub sync_interval_minutes : String
  pub management_mode : Value
  pub operator_namespace : String
  pub cluster_namespace : String
  pub terraform_workspace : String
  pub backstage_entity_ref : String
  pub mcp_endpoint : String
  pub runner_enabled : Bool
  pub builder_pipeline_enabled : Bool
  pub receptor_mesh_enabled : Bool
  pub receptor_node_count : String
  pub execution_environments_expected : Bool
  pub remote_execution_expected : Bool
  pub content_signing_enabled : Bool
  pub content_signing_expected : Bool
  pub gateway_enforced : Bool
  pub developer_portal_expected : Bool
  pub mcp_expected : Bool
  pub metrics_enabled : Bool
  pub automation_reports_enabled : Bool
  pub ai_assistant_enabled : Bool
  pub orchestrator_expected : Bool
  pub extra_capabilities : String
  pub service_paths : String

-- A value that `JSON.parse` returned, where an object is wanted.
abbrev pub as_object : String → Value → Result (Dict Value)
as_object label (obj fields) = ok (entries fields)
as_object label _ = err (label ⊕ " must be a JSON object.")

-- parseObjectField, over `JSON.parse`, which throws a message of its own.
unfoldable pub parse_object_field : (String → Result Value) → String → String → Result (Dict Value)
parse_object_field json_parse value label =
    if is_blank value then ok [] else json_parse (trim value) >>= as_object label

-- `count ? String(count) : ""`.
unfoldable pub count_text : Option Number → String
unfolding show
count_text none = ""
count_text (some n) = if truthy_number n then show n else ""

-- The first of the texts that is there: `a ?? b ?? ""`.
abbrev pub first_text : Option String → Option String → String
first_text (some s) _ = s
first_text none o = or_else o ""

abbrev pub is_orchestrator_text : Option String → Bool
is_orchestrator_text none = false
is_orchestrator_text (some kind) = kind == "orchestrator"

-- `kind === "orchestrator" ? "orchestrator" : "aap"`.
abbrev pub form_kind : Option String → EnvironmentKind
form_kind kind = if is_orchestrator_text kind then orchestrator else aap

abbrev pub infrastructure_text : String → Dict Value → String
infrastructure_text key infrastructure = as_string (get key infrastructure)

-- The fields of the form that come from the capability profile, and the rest.
abbrev with_profile : CapabilityProfile → String → FormState → FormState
with_profile profile extra_capabilities form = record form {
  management_mode = profile.management_mode;
  operator_namespace = profile.operator_namespace;
  cluster_namespace = profile.cluster_namespace;
  terraform_workspace = profile.terraform_workspace;
  backstage_entity_ref = profile.backstage_entity_ref;
  mcp_endpoint = profile.mcp_endpoint;
  runner_enabled = profile.runner_enabled;
  builder_pipeline_enabled = profile.builder_pipeline_enabled;
  receptor_mesh_enabled = profile.receptor_mesh_enabled;
  receptor_node_count = count_text profile.receptor_node_count;
  execution_environments_expected = profile.execution_environments_expected;
  remote_execution_expected = profile.remote_execution_expected;
  content_signing_enabled = profile.content_signing_enabled;
  content_signing_expected = profile.content_signing_expected;
  gateway_enforced = profile.gateway_enforced;
  developer_portal_expected = profile.developer_portal_expected;
  mcp_expected = profile.mcp_expected;
  metrics_enabled = profile.metrics_enabled;
  automation_reports_enabled = profile.automation_reports_enabled;
  ai_assistant_enabled = profile.ai_assistant_enabled;
  orchestrator_expected = profile.orchestrator_expected;
  extra_capabilities = extra_capabilities;
}

-- buildInitialState without an environment, and before the profile is read.
abbrev empty_form : FormState
empty_form = record {
  name = "";
  slug = "";
  description = "";
  owner = "";
  tags = "";
  groupings = "";
  labels = "{}";
  kind = aap;
  deployment_type = podman;
  region = "";
  cluster_or_project = "";
  account_or_subscription = "";
  host_or_namespace = "";
  platform_url = "";
  gateway_url = "";
  controller_url = "";
  eda_url = "";
  hub_url = "";
  orchestrator_url = "";
  auth_mode = oauth2;
  client_id = "";
  client_secret = "";
  access_token = "";
  orchestrator_client_id = "";
  orchestrator_client_secret = "";
  orchestrator_access_token = "";
  verify_ssl = true;
  sync_interval_minutes = "5";
  management_mode = undefined;
  operator_namespace = "";
  cluster_namespace = "";
  terraform_workspace = "";
  backstage_entity_ref = "";
  mcp_endpoint = "";
  runner_enabled = false;
  builder_pipeline_enabled = false;
  receptor_mesh_enabled = false;
  receptor_node_count = "";
  execution_environments_expected = false;
  remote_execution_expected = false;
  content_signing_enabled = false;
  content_signing_expected = false;
  gateway_enforced = false;
  developer_portal_expected = false;
  mcp_expected = false;
  metrics_enabled = false;
  automation_reports_enabled = false;
  ai_assistant_enabled = false;
  orchestrator_expected = false;
  extra_capabilities = "{}";
  service_paths = "{}";
}

abbrev from_environment : (Dict Value → String) → EnvironmentDetail → FormState
from_environment to_pretty_json initial = record empty_form {
  name = initial.name;
  slug = initial.slug;
  description = initial.description;
  owner = initial.owner;
  tags = join ", " initial.tags;
  groupings = join ", " initial.groupings;
  labels = to_pretty_json initial.labels;
  kind = form_kind initial.kind;
  deployment_type = initial.deployment_type;
  region = infrastructure_text "region" initial.infrastructure;
  cluster_or_project = infrastructure_text "cluster_or_project" initial.infrastructure;
  account_or_subscription = infrastructure_text "account_or_subscription" initial.infrastructure;
  host_or_namespace = infrastructure_text "host_or_namespace" initial.infrastructure;
  platform_url = or_else initial.platform_url "";
  gateway_url = or_else initial.gateway_url "";
  controller_url = or_else initial.controller_url "";
  eda_url = or_else initial.eda_url "";
  hub_url = or_else initial.hub_url "";
  orchestrator_url = or_else initial.orchestrator_url "";
  auth_mode = initial.auth_mode;
  client_id =
      if is_orchestrator_text initial.kind
      then first_text initial.orchestrator_client_id initial.client_id
      else or_else initial.client_id "";
  orchestrator_client_id = or_else initial.orchestrator_client_id "";
  verify_ssl = initial.verify_ssl;
  sync_interval_minutes = show initial.sync_interval_minutes;
  service_paths = to_pretty_json initial.service_paths;
}

abbrev initial_form : (Dict Value → String) → Option EnvironmentDetail → FormState
initial_form to_pretty_json none = empty_form
initial_form to_pretty_json (some initial) = from_environment to_pretty_json initial

abbrev stored_capabilities : Option EnvironmentDetail → Option (Dict Value)
stored_capabilities none = none
stored_capabilities (some initial) = some initial.capabilities

-- buildInitialState, over `JSON.stringify(value, null, 2)`.
unfoldable pub build_initial_state : (Dict Value → String) → Option EnvironmentDetail → FormState
unfolding parse_capability_profile count_text
build_initial_state to_pretty_json initial =
    let parsed = parse_capability_profile (stored_capabilities initial) in
    with_profile parsed.profile (to_pretty_json parsed.extra_capabilities)
      (initial_form to_pretty_json initial)

unfoldable pub validate_credential_state :
    Mode → EnvironmentAuthMode → String → String → String → Result (Unit {0})
validate_credential_state edit _ _ _ _ = ok tt
validate_credential_state create header_passthrough _ _ _ = ok tt
validate_credential_state create service_account _ _ access_token =
    throw_if (is_blank access_token)
      "Service account mode requires an access token when creating an environment."
validate_credential_state create oauth2 client_id client_secret access_token =
    throw_if
      (is_blank access_token && not (not (is_blank client_id) && not (is_blank client_secret)))
      "OAuth2 requires either an access token or both client ID and client secret."
