-- ===== src/Forms/Environment/Submit.antt =====
-- frontend/src/components/environment-form.tsx, lines 308-417: the request that the form sends.
pub mod Accepts
pub mod Kept
pub mod Roundtrip
use ansible_aam.Prelude.{
  ℕ, zero, suc, ◌+◌, ◌-◌, ◌*◌, ◌≤◌, ◌<◌, Char, code, String, ◌≡◌, refl, sym, ap, ◌∙◌, ◌≢◌, ◌↔◌, ◌⊎◌,
  inl, inr, Bool, true, false, not, ◌&&◌, ◌||◌, Option, none, some, List, [], ◌∷◌, ◌++◌, map, arith,
  ◌==◌, eq_iff, eq_refl, ltb, leb, eqb, if◌then◌else◌, Bool-cases, Option-cases, or_else, is_some,
  length, select, some_of, every, find, take, drop, somes, length-append, select-append,
  length-select-le, length-somes-le, All, All-append, flat_map, length-map,
}
use ansible_aam.Prelude.Int.{ℤ, pos, negsuc, ◌+ℤ◌, ltb_ℤ, leb_ℤ, eqb_ℤ}
use ansible_aam.Prelude.Dict.{
  Dict, includes, keys, lookup, insert, remove, lookup-insert, lookup-remove,
}
use ansible_aam.Prelude.Text.{
  ◌⊕◌, is_empty, or_text, trim, is_blank, String-cases, trim_idem, trim-nil, is_empty-eq,
}
use ansible_aam.Prelude.Text.Numbers.{
  Number, nan, infinity, neg_infinity, int, is_finite, truthy_number, add, less, same_number,
  parse_int, show_nat, show, parse_int-show_nat,
}
use ansible_aam.Prelude.Result.{Result, ok, err, ◌>>=◌, ◌>>◌, throw_if}
use ansible_aam.Prelude.Text.Split.{split_csv}
use ansible_aam.Value.{Value, str}
use ansible_aam.Types.{EnvironmentMutationPayload}
use ansible_aam.Utils.{EnvironmentKind, aap, orchestrator, same_kind}
use ansible_aam.Capabilities.{CapabilityProfile, build_capabilities}
use ansible_aam.Forms.Environment.{Mode, FormState, parse_object_field, validate_credential_state}

-- `s || null`.
abbrev pub filled : String → Option String
filled s = if is_empty s then none else some s

-- `if (value.trim()) infrastructure[key] = value.trim()`.
unfoldable pub add_text : String → String → Dict Value → Dict Value
unfolding insert
add_text key value infrastructure =
    if is_blank value then infrastructure else insert key (str (trim value)) infrastructure

unfoldable pub infrastructure_of : FormState → Dict Value
unfolding add_text
infrastructure_of form = add_text "host_or_namespace" form.host_or_namespace (
    add_text "account_or_subscription" form.account_or_subscription
      (add_text "cluster_or_project" form.cluster_or_project (add_text "region" form.region [])))

-- `n || d` of a number.
abbrev pub or_number : Number → Number → Number
or_number n d = if truthy_number n then n else d

-- `n || null`.
abbrev pub number_or_null : Number → Option Number
number_or_null n = if truthy_number n then some n else none

abbrev pub is_orchestrator : FormState → Bool
is_orchestrator form = same_kind form.kind orchestrator

abbrev pub kind_text : EnvironmentKind → String
kind_text aap = "aap"
kind_text orchestrator = "orchestrator"

abbrev pub profile_of : FormState → CapabilityProfile
profile_of form = record {
  management_mode = form.management_mode;
  operator_namespace = trim form.operator_namespace;
  cluster_namespace = trim form.cluster_namespace;
  terraform_workspace = trim form.terraform_workspace;
  backstage_entity_ref = trim form.backstage_entity_ref;
  mcp_endpoint = trim form.mcp_endpoint;
  runner_enabled = form.runner_enabled;
  builder_pipeline_enabled = form.builder_pipeline_enabled;
  receptor_mesh_enabled = form.receptor_mesh_enabled;
  receptor_node_count = number_or_null (parse_int form.receptor_node_count);
  execution_environments_expected = form.execution_environments_expected;
  remote_execution_expected = form.remote_execution_expected;
  content_signing_enabled = form.content_signing_enabled;
  content_signing_expected = form.content_signing_expected;
  gateway_enforced = form.gateway_enforced;
  developer_portal_expected = form.developer_portal_expected;
  mcp_expected = form.mcp_expected;
  metrics_enabled = form.metrics_enabled;
  automation_reports_enabled = form.automation_reports_enabled;
  ai_assistant_enabled = form.ai_assistant_enabled;
  orchestrator_expected = is_orchestrator form;
}

-- A URL of the platform: `null` for the orchestrator.
abbrev pub platform_text : FormState → String → Option String
platform_text form url = if is_orchestrator form then none else filled (trim url)

-- `if (text) payload.field = text`: the field is absent or a text.
abbrev pub present : String → Option (Option String)
present text = if is_empty text then none else some (some text)

-- The payload with the secrets that are typed in. `none` is a field that is absent, and `some none`
-- is one that is `null`.
abbrev pub payload_of :
    FormState → Dict Value → Dict Value → Dict Value → EnvironmentMutationPayload
payload_of form labels extra_capabilities service_paths = record {
  name = trim form.name;
  slug = trim form.slug;
  description = trim form.description;
  owner = trim form.owner;
  tags = split_csv form.tags;
  groupings = split_csv form.groupings;
  labels = labels;
  kind = some (kind_text form.kind);
  deployment_type = form.deployment_type;
  infrastructure = infrastructure_of form;
  platform_url =
      if is_orchestrator form
      then filled (or_text (trim form.orchestrator_url) (trim form.platform_url))
      else filled (trim form.platform_url);
  gateway_url = platform_text form form.gateway_url;
  controller_url = platform_text form form.controller_url;
  eda_url = platform_text form form.eda_url;
  hub_url = platform_text form form.hub_url;
  orchestrator_url = if is_orchestrator form then filled (trim form.orchestrator_url) else none;
  auth_mode = form.auth_mode;
  client_id =
      if is_orchestrator form
      then filled (or_text (trim form.client_id) (trim form.orchestrator_client_id))
      else filled (trim form.client_id);
  client_secret = present (trim form.client_secret);
  access_token = present (trim form.access_token);
  orchestrator_client_id = some (
      if is_orchestrator form
      then filled (or_text (trim form.orchestrator_client_id) (trim form.client_id))
      else none);
  orchestrator_client_secret =
      if is_orchestrator form
      then present (or_text (trim form.orchestrator_client_secret) (trim form.client_secret))
      else none;
  orchestrator_access_token =
      if is_orchestrator form
      then present (or_text (trim form.orchestrator_access_token) (trim form.access_token))
      else none;
  verify_ssl = form.verify_ssl;
  sync_interval_minutes = or_number (parse_int form.sync_interval_minutes) (int (pos 5));
  is_managed = none;
  capabilities = build_capabilities (profile_of form) extra_capabilities;
  service_paths = service_paths;
}

-- handleSubmit up to the call of `onSubmit`; an error is the message that the form shows.
unfoldable pub handle_submit :
    (String → Result Value) → Mode → FormState → Result EnvironmentMutationPayload
handle_submit json_parse mode form = do
  validate_credential_state mode form.auth_mode form.client_id form.client_secret form.access_token
  labels ← parse_object_field json_parse form.labels "Labels"
  extra_capabilities ←
      parse_object_field json_parse form.extra_capabilities "Additional capabilities"
  service_paths ← parse_object_field json_parse form.service_paths "Service path overrides"
  let payload = payload_of form labels extra_capabilities service_paths
  throw_if (is_empty payload.name || is_empty payload.slug) "Name and slug are required."
  throw_if (is_orchestrator form && not (is_some payload.orchestrator_url))
      "Name, slug, and Orchestrator URL are required."
  throw_if (not (is_orchestrator form) && not (is_some payload.gateway_url))
      "Name, slug, and gateway URL are required."
  ok payload
