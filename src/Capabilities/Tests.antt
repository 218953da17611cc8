-- ===== src/Capabilities/Tests.antt =====
-- Runs on concrete profiles, and the theorems at them.
use ansible_aam.Prelude.{◌≡◌, refl, true, false, none, some, [], ◌∷◌, if◌then◌else◌}
use ansible_aam.Prelude.Int.{pos}
use ansible_aam.Prelude.Dict.{Dict, includes, lookup}
use ansible_aam.Prelude.Text.{trim}
use ansible_aam.Prelude.Text.Numbers.{int}
use ansible_aam.Value.{Value, bool, num, str}
use ansible_aam.Capabilities.{
  CapabilityProfile, known_capability_keys, parse_capability_profile, build_capabilities,
  save_capabilities,
}
use ansible_aam.Capabilities.Roundtrip.{settled, read_profile-build_capabilities}
use ansible_aam.Capabilities.Extras.{extra-build_capabilities}
use ansible_aam.Capabilities.Saving.{save_capabilities_idem}

abbrev sample : CapabilityProfile
sample = record {
  management_mode = str "operator";
  operator_namespace = " aap ";
  cluster_namespace = "";
  terraform_workspace = "";
  backstage_entity_ref = "";
  mcp_endpoint = "";
  runner_enabled = false;
  builder_pipeline_enabled = false;
  receptor_mesh_enabled = false;
  receptor_node_count = some (int (pos 3));
  execution_environments_expected = false;
  remote_execution_expected = false;
  content_signing_enabled = false;
  content_signing_expected = false;
  gateway_enforced = true;
  developer_portal_expected = false;
  mcp_expected = false;
  metrics_enabled = false;
  automation_reports_enabled = false;
  ai_assistant_enabled = false;
  orchestrator_expected = false;
}

abbrev extras : Dict Value
extras = ("team", str "blue") ∷ ("mcp_expected", bool true) ∷ []

built :
    build_capabilities sample extras
    ≡ ("team", str "blue")
      ∷ ("management_mode", str "operator")
      ∷ ("operator_namespace", str "aap")
      ∷ ("gateway_enforced", bool true)
      ∷ ("receptor_node_count", num (int (pos 3)))
      ∷ []
unfolding build_capabilities trim
built = refl

extras_read_back :
    (parse_capability_profile (some (build_capabilities sample extras))).extra_capabilities
    ≡ ("team", str "blue") ∷ []
unfolding build_capabilities parse_capability_profile known_capability_keys trim
extras_read_back = refl

read_profile-build_capabilities_example :
    (parse_capability_profile (some (build_capabilities sample extras))).profile ≡ settled sample
read_profile-build_capabilities_example = read_profile-build_capabilities sample extras

extra-build_capabilities_example :
    lookup "team"
      (parse_capability_profile (some (build_capabilities sample extras))).extra_capabilities
    ≡ (if includes known_capability_keys "team" then none else lookup "team" extras)
unfolding lookup
extra-build_capabilities_example = extra-build_capabilities sample extras "team" (refl, (refl, tt))

save_capabilities_idem_example :
    lookup "mcp_endpoint" (save_capabilities (save_capabilities extras))
    ≡ lookup "mcp_endpoint" (save_capabilities extras)
save_capabilities_idem_example = save_capabilities_idem extras "mcp_endpoint"
