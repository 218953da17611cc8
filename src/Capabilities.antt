-- ===== src/Capabilities.antt =====
-- frontend/src/capabilities.ts: the capability profile of an environment, read from the stored
-- `capabilities` object and written back to it.
pub mod Fields
pub mod Roundtrip
pub mod Extras
pub mod Saving
pub mod Describe
mod Tests
use ansible_aam.Prelude.{
  ℕ, zero, suc, ◌+◌, ◌-◌, ◌*◌, ◌≤◌, ◌<◌, Char, code, String, ◌≡◌, refl, sym, ap, ◌∙◌, ◌≢◌, ◌↔◌, ◌⊎◌,
  inl, inr, Bool, true, false, not, ◌&&◌, ◌||◌, Option, none, some, List, [], ◌∷◌, ◌++◌, map, arith,
  ◌==◌, eq_iff, eq_refl, ltb, leb, eqb, if◌then◌else◌, Bool-cases, Option-cases, or_else, is_some,
  length, select, some_of, every, find, take, somes, length-append, select-append, length-select-le,
  length-somes-le, All, All-append, flat_map, length-map,
}
use ansible_aam.Prelude.Int.{ℤ, pos, negsuc, ◌+ℤ◌, ltb_ℤ, leb_ℤ, eqb_ℤ}
use ansible_aam.Prelude.Dict.{
  Dict, includes, keys, lookup, insert, remove, lookup-insert, lookup-remove,
}
use ansible_aam.Prelude.Text.{
  ◌⊕◌, is_empty, or_text, trim, is_blank, String-cases, trim_idem, trim-nil, is_empty-eq,
}
use ansible_aam.Prelude.Text.Numbers.{
  Number, nan, infinity, neg_infinity, int, is_finite, truthy_number, add, less, same_number,
  parse_int, show_nat, show, parse_int-show_nat,
}
use ansible_aam.Value.{Value, undefined, null, bool, num, str, arr, obj, get, truthy}
use ansible_aam.Value.Count.{as_number}

-- `management_mode` is cast and not checked, so it is any value but `null` and `undefined`.
pub record CapabilityProfile : Type 0 where
  pub management_mode : Value
  pub operator_namespace : String
  pub cluster_namespace : String
  pub terraform_workspace : String
  pub backstage_entity_ref : String
  pub mcp_endpoint : String
  pub runner_enabled : Bool
  pub builder_pipeline_enabled : Bool
  pub receptor_mesh_enabled : Bool
  pub receptor_node_count : Option Number
  pub execution_environments_expected : Bool
  pub remote_execution_expected : Bool
  pub content_signing_enabled : Bool
  pub content_signing_expected : Bool
  pub gateway_enforced : Bool
  pub developer_portal_expected : Bool
  pub mcp_expected : Bool
  pub metrics_enabled : Bool
  pub automation_reports_enabled : Bool
  pub ai_assistant_enabled : Bool
  pub orchestrator_expected : Bool

unfoldable pub known_capability_keys : List String
known_capability_keys =
    "management_mode" ∷ "operator_namespace" ∷ "cluster_namespace" ∷ "terraform_workspace"
    ∷ "backstage_entity_ref" ∷ "mcp_endpoint" ∷ "runner_enabled" ∷ "builder_pipeline_enabled"
    ∷ "receptor_mesh_enabled" ∷ "receptor_node_count" ∷ "execution_environments_expected"
    ∷ "remote_execution_expected" ∷ "content_signing_enabled" ∷ "content_signing_expected"
    ∷ "gateway_enforced" ∷ "developer_portal_expected" ∷ "mcp_expected" ∷ "metrics_enabled"
    ∷ "automation_reports_enabled" ∷ "ai_assistant_enabled" ∷ "orchestrator_expected" ∷ []

abbrev pub as_string : Value → String
as_string (str s) = s
as_string _ = ""

-- `value === true`.
abbrev pub as_boolean : Value → Bool
as_boolean (bool b) = b
as_boolean _ = false

-- `value ?? "manual"`.
abbrev pub management_mode_or_manual : Value → Value
management_mode_or_manual undefined = str "manual"
management_mode_or_manual null = str "manual"
management_mode_or_manual v = v

pub record ParsedCapabilities : Type 0 where
  pub profile : CapabilityProfile
  pub extra_capabilities : Dict Value

-- The loop over `Object.entries(source)`.
unfoldable pub collect_extras : Dict Value → Dict Value → Dict Value
unfolding insert
collect_extras extras [] = extras
collect_extras extras ((key, value) ∷ source) =
    collect_extras
      (if not (includes known_capability_keys key) then insert key value extras else extras) source

unfoldable pub read_profile : Dict Value → CapabilityProfile
unfolding get as_number
read_profile source = record {
  management_mode = management_mode_or_manual (get "management_mode" source);
  operator_namespace = as_string (get "operator_namespace" source);
  cluster_namespace = as_string (get "cluster_namespace" source);
  terraform_workspace = as_string (get "terraform_workspace" source);
  backstage_entity_ref = as_string (get "backstage_entity_ref" source);
  mcp_endpoint = as_string (get "mcp_endpoint" source);
  runner_enabled = as_boolean (get "runner_enabled" source);
  builder_pipeline_enabled = as_boolean (get "builder_pipeline_enabled" source);
  receptor_mesh_enabled = as_boolean (get "receptor_mesh_enabled" source);
  receptor_node_count = as_number (get "receptor_node_count" source);
  execution_environments_expected = as_boolean (get "execution_environments_expected" source);
  remote_execution_expected = as_boolean (get "remote_execution_expected" source);
  content_signing_enabled = as_boolean (get "content_signing_enabled" source);
  content_signing_expected = as_boolean (get "content_signing_expected" source);
  gateway_enforced = as_boolean (get "gateway_enforced" source);
  developer_portal_expected = as_boolean (get "developer_portal_expected" source);
  mcp_expected = as_boolean (get "mcp_expected" source);
  metrics_enabled = as_boolean (get "metrics_enabled" source);
  automation_reports_enabled = as_boolean (get "automation_reports_enabled" source);
  ai_assistant_enabled = as_boolean (get "ai_assistant_enabled" source);
  orchestrator_expected = as_boolean (get "orchestrator_expected" source);
}

-- parseCapabilityProfile; `null` and `undefined` stand for the empty object.
unfoldable pub parse_capability_profile : Option (Dict Value) → ParsedCapabilities
unfolding read_profile collect_extras
parse_capability_profile capabilities =
    let source = or_else capabilities [] in
    record { profile = read_profile source; extra_capabilities = collect_extras [] source }

-- The string fields with `profile[key]`, in the order of the list.
abbrev pub string_fields : CapabilityProfile → Dict String
string_fields profile =
    ("operator_namespace", profile.operator_namespace)
    ∷ ("cluster_namespace", profile.cluster_namespace)
    ∷ ("terraform_workspace", profile.terraform_workspace)
    ∷ ("backstage_entity_ref", profile.backstage_entity_ref)
    ∷ ("mcp_endpoint", profile.mcp_endpoint)
    ∷ []

abbrev pub boolean_fields : CapabilityProfile → Dict Bool
boolean_fields profile =
    ("runner_enabled", profile.runner_enabled)
    ∷ ("builder_pipeline_enabled", profile.builder_pipeline_enabled)
    ∷ ("receptor_mesh_enabled", profile.receptor_mesh_enabled)
    ∷ ("execution_environments_expected", profile.execution_environments_expected)
    ∷ ("remote_execution_expected", profile.remote_execution_expected)
    ∷ ("content_signing_enabled", profile.content_signing_enabled)
    ∷ ("content_signing_expected", profile.content_signing_expected)
    ∷ ("gateway_enforced", profile.gateway_enforced)
    ∷ ("developer_portal_expected", profile.developer_portal_expected)
    ∷ ("mcp_expected", profile.mcp_expected)
    ∷ ("metrics_enabled", profile.metrics_enabled)
    ∷ ("automation_reports_enabled", profile.automation_reports_enabled)
    ∷ ("ai_assistant_enabled", profile.ai_assistant_enabled)
    ∷ ("orchestrator_expected", profile.orchestrator_expected)
    ∷ []

unfoldable pub store_strings : Dict String → Dict Value → Dict Value
unfolding insert remove
store_strings [] merged = merged
store_strings ((key, value) ∷ fields) merged =
    store_strings fields
      (if not (is_blank value) then insert key (str (trim value)) merged else remove key merged)

unfoldable pub store_booleans : Dict Bool → Dict Value → Dict Value
unfolding insert remove
store_booleans [] merged = merged
store_booleans ((key, value) ∷ fields) merged =
    store_booleans fields (if value then insert key (bool true) merged else remove key merged)

-- `count && count > 0`.
abbrev pub is_positive_count : Option Number → Bool
is_positive_count none = false
is_positive_count (some n) = truthy_number n && less (int (pos 0)) n

abbrev count_number : Option Number → Number
count_number count = or_else count nan

unfoldable pub store_count : Option Number → Dict Value → Dict Value
unfolding insert remove
store_count count merged =
    if is_positive_count count
    then insert "receptor_node_count" (num (count_number count)) merged
    else remove "receptor_node_count" merged

unfoldable pub build_capabilities : CapabilityProfile → Dict Value → Dict Value
unfolding store_strings store_booleans store_count insert
build_capabilities profile extra_capabilities =
    let merged = insert "management_mode" profile.management_mode extra_capabilities in
    let merged' = store_strings (string_fields profile) merged in
    let merged_flags = store_booleans (boolean_fields profile) merged' in
    store_count profile.receptor_node_count merged_flags

-- A stored object that is read and written back.
unfoldable pub save_capabilities : Dict Value → Dict Value
unfolding parse_capability_profile build_capabilities
save_capabilities stored =
    let parsed = parse_capability_profile (some stored) in
    build_capabilities parsed.profile parsed.extra_capabilities
