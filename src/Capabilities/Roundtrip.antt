-- ===== src/Capabilities/Roundtrip.antt =====
-- Reading back what `build_capabilities` wrote, and writing back what was read.
use ansible_aam.Prelude.{
  String, ◌≡◌, refl, sym, ap, ◌∙◌, inl, inr, Bool, true, false, Option, none, some, if◌then◌else◌,
  Bool-cases, or_else,
}
use ansible_aam.Prelude.Dict.{Dict, lookup}
use ansible_aam.Prelude.Text.{trim, is_blank, is_empty-eq}
use ansible_aam.Prelude.Text.Numbers.{Number}
use ansible_aam.Value.{Value, undefined, get}
use ansible_aam.Value.Count.{finite_or_null, as_number}
use ansible_aam.Capabilities.{
  CapabilityProfile, as_string, as_boolean, management_mode_or_manual, read_profile,
  parse_capability_profile, is_positive_count, count_number, build_capabilities,
}
use ansible_aam.Capabilities.Fields.{
  text_value, flag_value, count_value, assignments, build_capabilities-assign_all, assigned_or,
  lookup-assign_all, assignments-Distinct,
}

abbrev pub settled_count : Option Number → Option Number
settled_count count = if is_positive_count count then finite_or_null (count_number count) else none

-- What a profile comes back as: texts trimmed, a count that is not positive or not finite dropped,
-- and the mode defaulted.
unfoldable pub settled : CapabilityProfile → CapabilityProfile
unfolding trim
settled profile = record {
  management_mode = management_mode_or_manual profile.management_mode;
  operator_namespace = trim profile.operator_namespace;
  cluster_namespace = trim profile.cluster_namespace;
  terraform_workspace = trim profile.terraform_workspace;
  backstage_entity_ref = trim profile.backstage_entity_ref;
  mcp_endpoint = trim profile.mcp_endpoint;
  runner_enabled = profile.runner_enabled;
  builder_pipeline_enabled = profile.builder_pipeline_enabled;
  receptor_mesh_enabled = profile.receptor_mesh_enabled;
  receptor_node_count = settled_count profile.receptor_node_count;
  execution_environments_expected = profile.execution_environments_expected;
  remote_execution_expected = profile.remote_execution_expected;
  content_signing_enabled = profile.content_signing_enabled;
  content_signing_expected = profile.content_signing_expected;
  gateway_enforced = profile.gateway_enforced;
  developer_portal_expected = profile.developer_portal_expected;
  mcp_expected = profile.mcp_expected;
  metrics_enabled = profile.metrics_enabled;
  automation_reports_enabled = profile.automation_reports_enabled;
  ai_assistant_enabled = profile.ai_assistant_enabled;
  orchestrator_expected = profile.orchestrator_expected;
}

-- A known key has the profile's value, and any other key that of the extra capabilities.
pub lookup-build_capabilities :
    (j : String) (profile : CapabilityProfile) (extra : Dict Value)
    → lookup j (build_capabilities profile extra)
      ≡ assigned_or (lookup j (assignments profile)) (lookup j extra)
lookup-build_capabilities j profile extra =
    ap (lookup j) (build_capabilities-assign_all profile extra)
    ∙ lookup-assign_all j (assignments profile) extra (assignments-Distinct profile)

get-build_capabilities :
    (j : String) (profile : CapabilityProfile) (extra : Dict Value)
    → get j (build_capabilities profile extra)
      ≡ or_else (assigned_or (lookup j (assignments profile)) (lookup j extra)) undefined
unfolding get
get-build_capabilities j profile extra =
    ap (λ o. or_else o undefined) (lookup-build_capabilities j profile extra)

as_string-text_value : (s : String) → as_string (or_else (text_value s) undefined) ≡ trim s
as_string-text_value s = elim (Bool-cases (is_blank s)) [
  | inl e ↦ rw e (sym (is_empty-eq (trim s) e))
  | inr e ↦ rw e
]

as_boolean-flag_value : (b : Bool) → as_boolean (or_else (flag_value b) undefined) ≡ b
as_boolean-flag_value true = refl
as_boolean-flag_value false = refl

as_number-count_value :
    (count : Option Number)
    → as_number (or_else (count_value count) undefined) ≡ settled_count count
unfolding as_number
as_number-count_value count = elim (Bool-cases (is_positive_count count)) [
  | inl e ↦ rw e
  | inr e ↦ rw e
]

-- Reading a built object gives the profile back, settled, whatever the extra capabilities hold.
pub read_profile-build_capabilities :
    (profile : CapabilityProfile) (extra : Dict Value)
    → (parse_capability_profile (some (build_capabilities profile extra))).profile ≡ settled profile
unfolding parse_capability_profile read_profile settled lookup
read_profile-build_capabilities profile extra =
    let stored = λ (key : String). get-build_capabilities key profile extra in
    λ i. record {
      management_mode = management_mode_or_manual (stored "management_mode" i);
      operator_namespace =
          (ap as_string (stored "operator_namespace")
              ∙ as_string-text_value profile.operator_namespace)
            i;
      cluster_namespace =
          (ap as_string (stored "cluster_namespace")
              ∙ as_string-text_value profile.cluster_namespace)
            i;
      terraform_workspace =
          (ap as_string (stored "terraform_workspace")
              ∙ as_string-text_value profile.terraform_workspace)
            i;
      backstage_entity_ref =
          (ap as_string (stored "backstage_entity_ref")
              ∙ as_string-text_value profile.backstage_entity_ref)
            i;
      mcp_endpoint =
          (ap as_string (stored "mcp_endpoint") ∙ as_string-text_value profile.mcp_endpoint) i;
      runner_enabled =
          (ap as_boolean (stored "runner_enabled") ∙ as_boolean-flag_value profile.runner_enabled)
            i;
      builder_pipeline_enabled =
          (ap as_boolean (stored "builder_pipeline_enabled")
              ∙ as_boolean-flag_value profile.builder_pipeline_enabled)
            i;
      receptor_mesh_enabled =
          (ap as_boolean (stored "receptor_mesh_enabled")
              ∙ as_boolean-flag_value profile.receptor_mesh_enabled)
            i;
      receptor_node_count =
          (ap as_number (stored "receptor_node_count")
              ∙ as_number-count_value profile.receptor_node_count)
            i;
      execution_environments_expected =
          (ap as_boolean (stored "execution_environments_expected")
              ∙ as_boolean-flag_value profile.execution_environments_expected)
            i;
      remote_execution_expected =
          (ap as_boolean (stored "remote_execution_expected")
              ∙ as_boolean-flag_value profile.remote_execution_expected)
            i;
      content_signing_enabled =
          (ap as_boolean (stored "content_signing_enabled")
              ∙ as_boolean-flag_value profile.content_signing_enabled)
            i;
      content_signing_expected =
          (ap as_boolean (stored "content_signing_expected")
              ∙ as_boolean-flag_value profile.content_signing_expected)
            i;
      gateway_enforced =
          (ap as_boolean (stored "gateway_enforced")
              ∙ as_boolean-flag_value profile.gateway_enforced)
            i;
      developer_portal_expected =
          (ap as_boolean (stored "developer_portal_expected")
              ∙ as_boolean-flag_value profile.developer_portal_expected)
            i;
      mcp_expected =
          (ap as_boolean (stored "mcp_expected") ∙ as_boolean-flag_value profile.mcp_expected) i;
      metrics_enabled =
          (ap as_boolean (stored "metrics_enabled") ∙ as_boolean-flag_value profile.metrics_enabled)
            i;
      automation_reports_enabled =
          (ap as_boolean (stored "automation_reports_enabled")
              ∙ as_boolean-flag_value profile.automation_reports_enabled)
            i;
      ai_assistant_enabled =
          (ap as_boolean (stored "ai_assistant_enabled")
              ∙ as_boolean-flag_value profile.ai_assistant_enabled)
            i;
      orchestrator_expected =
          (ap as_boolean (stored "orchestrator_expected")
              ∙ as_boolean-flag_value profile.orchestrator_expected)
            i;
    }
