-- ===== src/Capabilities/Saving.antt =====
-- Writing back what was read: what the form saves does not change when it is saved again.
use ansible_aam.Prelude.{
  String, ◌≡◌, refl, sym, ap, ◌∙◌, inl, inr, Bool, Option, none, some, [], ◌∷◌, arith,
  if◌then◌else◌, Option-cases, is_some,
}
use ansible_aam.Prelude.Dict.{Dict, lookup}
use ansible_aam.Prelude.Text.{trim, trim_idem}
use ansible_aam.Value.{Value, undefined, get}
use ansible_aam.Value.Count.{as_number, as_number-finite}
use ansible_aam.Capabilities.{
  management_mode_or_manual, collect_extras, read_profile, parse_capability_profile,
  build_capabilities, save_capabilities,
}
use ansible_aam.Capabilities.Fields.{
  text_value, flag_value, count_value, assignments, assigned_or, is_some-lookup-assignments,
}
use ansible_aam.Capabilities.Roundtrip.{
  settled_count, settled, lookup-build_capabilities, read_profile-build_capabilities,
}
use ansible_aam.Capabilities.Extras.{collect_extras-Distinct, extra-build_capabilities}

text_value-trim : (s : String) → text_value (trim s) ≡ text_value s
text_value-trim s = rw (trim_idem s)

count_value-settled_count :
    (v : Value) → count_value (settled_count (as_number v)) ≡ count_value (as_number v)
count_value-settled_count v = elim (Option-cases (as_number v)) [
  | inl e ↦ rw e
  | inr (n, e) ↦ let (z, f) = as_number-finite v e in rw (e, f) (ground arith)
]

mode_idem :
    (v : Value)
    → management_mode_or_manual (management_mode_or_manual v) ≡ management_mode_or_manual v
mode_idem undefined = refl
mode_idem _ = refl

-- A profile that was read is built as its settled form is.
assignments-settled :
    (source : Dict Value)
    → assignments (settled (read_profile source)) ≡ assignments (read_profile source)
unfolding settled read_profile
assignments-settled source =
    let profile = read_profile source in
    λ i.
      ("management_mode", some (mode_idem (get "management_mode" source) i))
      ∷ ("operator_namespace", text_value-trim profile.operator_namespace i)
      ∷ ("cluster_namespace", text_value-trim profile.cluster_namespace i)
      ∷ ("terraform_workspace", text_value-trim profile.terraform_workspace i)
      ∷ ("backstage_entity_ref", text_value-trim profile.backstage_entity_ref i)
      ∷ ("mcp_endpoint", text_value-trim profile.mcp_endpoint i)
      ∷ ("runner_enabled", flag_value profile.runner_enabled)
      ∷ ("builder_pipeline_enabled", flag_value profile.builder_pipeline_enabled)
      ∷ ("receptor_mesh_enabled", flag_value profile.receptor_mesh_enabled)
      ∷ ("execution_environments_expected", flag_value profile.execution_environments_expected)
      ∷ ("remote_execution_expected", flag_value profile.remote_execution_expected)
      ∷ ("content_signing_enabled", flag_value profile.content_signing_enabled)
      ∷ ("content_signing_expected", flag_value profile.content_signing_expected)
      ∷ ("gateway_enforced", flag_value profile.gateway_enforced)
      ∷ ("developer_portal_expected", flag_value profile.developer_portal_expected)
      ∷ ("mcp_expected", flag_value profile.mcp_expected)
      ∷ ("metrics_enabled", flag_value profile.metrics_enabled)
      ∷ ("automation_reports_enabled", flag_value profile.automation_reports_enabled)
      ∷ ("ai_assistant_enabled", flag_value profile.ai_assistant_enabled)
      ∷ ("orchestrator_expected", flag_value profile.orchestrator_expected)
      ∷ ("receptor_node_count", count_value-settled_count (get "receptor_node_count" source) i)
      ∷ []

assigned_or-known :
    (o : Option (Option Value)) (b : Bool) (old : Option Value)
    → is_some o ≡ b
    → assigned_or o (if b then none else old) ≡ assigned_or o old
assigned_or-known none b old h = rw (← h)
assigned_or-known (some value) b old h = refl

-- Saving the capabilities of an environment a second time changes the value of no key.
pub save_capabilities_idem :
    (stored : Dict Value) (j : String)
    → lookup j (save_capabilities (save_capabilities stored)) ≡ lookup j (save_capabilities stored)
unfolding save_capabilities parse_capability_profile
save_capabilities_idem stored j =
    let profile = read_profile stored in
    let extra = collect_extras [] stored in
    let saved = build_capabilities profile extra in
    let again = read_profile-build_capabilities profile extra in
    let kept = extra-build_capabilities profile extra j (collect_extras-Distinct stored [] tt) in
    lookup-build_capabilities j (read_profile saved) (collect_extras [] saved)
    ∙ ap (λ p. assigned_or (lookup j (assignments p)) (lookup j (collect_extras [] saved))) again
    ∙ ap (λ l. assigned_or (lookup j l) (lookup j (collect_extras [] saved)))
        (assignments-settled stored)
    ∙ ap (assigned_or (lookup j (assignments profile))) kept
    ∙ assigned_or-known _ _ _ (is_some-lookup-assignments j profile)
    ∙ sym (lookup-build_capabilities j profile extra)
