-- ===== src/Capabilities/Describe.antt =====
-- frontend/src/capabilities.ts, describeCapabilityProfile: the labelled values of a profile. The
-- management mode is whatever was stored, so the values are of any type.
use ansible_aam.Prelude.{String, ◌||◌, Option, none, some, List, [], ◌∷◌, if◌then◌else◌}
use ansible_aam.Prelude.Text.{◌⊕◌, or_text}
use ansible_aam.Prelude.Text.Numbers.{Number, truthy_number, show}
use ansible_aam.Value.{Value, str}
use ansible_aam.Capabilities.{CapabilityProfile}

-- `count ? ` (${count} nodes)` : ""`.
abbrev pub nodes_text : Option Number → String
nodes_text none = ""
nodes_text (some n) = if truthy_number n then " (" ⊕ (show n ⊕ " nodes)") else ""

unfoldable pub describe_capability_profile : CapabilityProfile → List (String × Value)
unfolding ◌⊕◌ show
describe_capability_profile profile =
    ("Management mode", profile.management_mode)
    ∷ ("Operator namespace", str (or_text profile.operator_namespace "Not declared"))
    ∷ ("Cluster namespace", str (or_text profile.cluster_namespace "Not declared"))
    ∷ ("Terraform workspace", str (or_text profile.terraform_workspace "Not declared"))
    ∷ ("Backstage entity", str (or_text profile.backstage_entity_ref "Not declared"))
    ∷ ("MCP endpoint", str (or_text profile.mcp_endpoint "Not declared"))
    ∷ ("Runner", str (if profile.runner_enabled then "Enabled" else "Disabled"))
    ∷ (
      "Execution builder",
      str (if profile.builder_pipeline_enabled then "Enabled" else "Disabled"),
    )
    ∷ (
      "Receptor mesh",
      str (
          if profile.receptor_mesh_enabled
          then "Enabled" ⊕ nodes_text profile.receptor_node_count
          else "Disabled"),
    )
    ∷ ("Content signing", str (if profile.content_signing_enabled then "Enabled" else "Disabled"))
    ∷ ("Gateway-only access", str (if profile.gateway_enforced then "Expected" else "Optional"))
    ∷ (
      "Metrics and reports",
      str (
          if profile.metrics_enabled || profile.automation_reports_enabled
          then "Enabled"
          else "Disabled"),
    )
    ∷ ("AI assist", str (if profile.ai_assistant_enabled then "Enabled" else "Disabled"))
    ∷ (
      "Automation Orchestrator",
      str (if profile.orchestrator_expected then "Expected" else "Optional"),
    )
    ∷ []
