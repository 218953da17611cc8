-- ===== src/Capabilities/Fields.antt =====
-- The built object as one list of assignments: each known key with the value that it is set to, or
-- `none` where it is deleted.
use ansible_aam.Prelude.{
  String, ◌≡◌, refl, sym, ap, ◌∙◌, Bool, true, not, ◌||◌, Option, none, some, List, [], ◌∷◌, ◌++◌,
  arith, ◌==◌, eq_iff, if◌then◌else◌, is_some, take, drop,
}
use ansible_aam.Prelude.Dict.{
  Dict, includes, keys, lookup, insert, remove, lookup-insert, lookup-remove,
}
use ansible_aam.Prelude.Text.{trim, is_blank}
use ansible_aam.Prelude.Text.Numbers.{Number}
use ansible_aam.Value.{Value, bool, num, str}
use ansible_aam.Capabilities.{
  CapabilityProfile, known_capability_keys, string_fields, boolean_fields, store_strings,
  store_booleans, is_positive_count, count_number, store_count, build_capabilities,
}

abbrev pub Assignments : Type 0
Assignments = Dict (Option Value)

unfoldable pub assign : String → Option Value → Dict Value → Dict Value
assign key none merged = remove key merged
assign key (some value) merged = insert key value merged

unfoldable pub assign_all : Assignments → Dict Value → Dict Value
assign_all [] merged = merged
assign_all ((key, value) ∷ more) merged = assign_all more (assign key value merged)

abbrev pub text_value : String → Option Value
text_value s = if not (is_blank s) then some (str (trim s)) else none

abbrev pub flag_value : Bool → Option Value
flag_value b = if b then some (bool true) else none

abbrev pub count_value : Option Number → Option Value
count_value count = if is_positive_count count then some (num (count_number count)) else none

-- What `build_capabilities` does to each known key, in the order of the code.
abbrev pub assignments : CapabilityProfile → Assignments
assignments profile =
    ("management_mode", some profile.management_mode)
    ∷ ("operator_namespace", text_value profile.operator_namespace)
    ∷ ("cluster_namespace", text_value profile.cluster_namespace)
    ∷ ("terraform_workspace", text_value profile.terraform_workspace)
    ∷ ("backstage_entity_ref", text_value profile.backstage_entity_ref)
    ∷ ("mcp_endpoint", text_value profile.mcp_endpoint)
    ∷ ("runner_enabled", flag_value profile.runner_enabled)
    ∷ ("builder_pipeline_enabled", flag_value profile.builder_pipeline_enabled)
    ∷ ("receptor_mesh_enabled", flag_value profile.receptor_mesh_enabled)
    ∷ ("execution_environments_expected", flag_value profile.execution_environments_expected)
    ∷ ("remote_execution_expected", flag_value profile.remote_execution_expected)
    ∷ ("content_signing_enabled", flag_value profile.content_signing_enabled)
    ∷ ("content_signing_expected", flag_value profile.content_signing_expected)
    ∷ ("gateway_enforced", flag_value profile.gateway_enforced)
    ∷ ("developer_portal_expected", flag_value profile.developer_portal_expected)
    ∷ ("mcp_expected", flag_value profile.mcp_expected)
    ∷ ("metrics_enabled", flag_value profile.metrics_enabled)
    ∷ ("automation_reports_enabled", flag_value profile.automation_reports_enabled)
    ∷ ("ai_assistant_enabled", flag_value profile.ai_assistant_enabled)
    ∷ ("orchestrator_expected", flag_value profile.orchestrator_expected)
    ∷ ("receptor_node_count", count_value profile.receptor_node_count)
    ∷ []

text_step :
    (key value : String) (merged : Dict Value)
    → (if not (is_blank value) then insert key (str (trim value)) merged else remove key merged)
      ≡ assign key (text_value value) merged
unfolding assign
text_step key value merged = ground arith

flag_step :
    (key : String) (value : Bool) (merged : Dict Value)
    → (if value then insert key (bool true) merged else remove key merged)
      ≡ assign key (flag_value value) merged
unfolding assign
flag_step key value merged = ground arith

store_count-assign :
    (count : Option Number) (merged : Dict Value)
    → store_count count merged ≡ assign "receptor_node_count" (count_value count) merged
unfolding store_count assign
store_count-assign count merged = ground arith

abbrev text_assignments : Dict String → Assignments
text_assignments [] = []
text_assignments ((key, value) ∷ fields) = (key, text_value value) ∷ text_assignments fields

abbrev flag_assignments : Dict Bool → Assignments
flag_assignments [] = []
flag_assignments ((key, value) ∷ fields) = (key, flag_value value) ∷ flag_assignments fields

store_strings-assign_all :
    (fields : Dict String) (merged : Dict Value)
    → store_strings fields merged ≡ assign_all (text_assignments fields) merged
unfolding store_strings assign_all
store_strings-assign_all [] merged = refl
store_strings-assign_all ((key, value) ∷ fields) merged =
    ap (store_strings fields) (text_step key value merged)
    ∙ store_strings-assign_all fields (assign key (text_value value) merged)

store_booleans-assign_all :
    (fields : Dict Bool) (merged : Dict Value)
    → store_booleans fields merged ≡ assign_all (flag_assignments fields) merged
unfolding store_booleans assign_all
store_booleans-assign_all [] merged = refl
store_booleans-assign_all ((key, value) ∷ fields) merged =
    ap (store_booleans fields) (flag_step key value merged)
    ∙ store_booleans-assign_all fields (assign key (flag_value value) merged)

assign_all-append :
    (xs ys : Assignments) (merged : Dict Value)
    → assign_all (xs ++ ys) merged ≡ assign_all ys (assign_all xs merged)
unfolding assign_all
assign_all-append [] ys merged = refl
assign_all-append ((key, value) ∷ xs) ys merged = assign_all-append xs ys (assign key value merged)

-- The code builds what the list of assignments says.
pub build_capabilities-assign_all :
    (profile : CapabilityProfile) (extra : Dict Value)
    → build_capabilities profile extra ≡ assign_all (assignments profile) extra
unfolding build_capabilities assign_all assign
build_capabilities-assign_all profile extra =
    store_count-assign profile.receptor_node_count _
    ∙ ap (assign "receptor_node_count" (count_value profile.receptor_node_count)) (
        store_booleans-assign_all (boolean_fields profile) _
        ∙ ap (assign_all (flag_assignments (boolean_fields profile)))
            (store_strings-assign_all (string_fields profile) _))

-- No key is assigned twice.
abbrev pub Distinct {ℓ} : {V : Type ℓ} → Dict V → Type ℓ
Distinct [] = Unit
Distinct ((k, v) ∷ d) = (lookup k d ≡ none) × Distinct d

abbrev pub assigned_or : Option (Option Value) → Option Value → Option Value
assigned_or none old = old
assigned_or (some value) old = value

lookup-assign :
    (k j : String) (value : Option Value) (merged : Dict Value)
    → lookup j (assign k value merged) ≡ (if k == j then value else lookup j merged)
unfolding assign
lookup-assign k j none merged = lookup-remove k j merged
lookup-assign k j (some v) merged = lookup-insert k j v merged

-- A key of the list gets its value, and any other keeps what it had.
pub lookup-assign_all :
    (j : String) (list : Assignments) (merged : Dict Value)
    → Distinct list
    → lookup j (assign_all list merged) ≡ assigned_or (lookup j list) (lookup j merged)
unfolding assign_all lookup
lookup-assign_all j [] merged h = refl
lookup-assign_all j ((k, v) ∷ list) merged (h, hs) =
    ground (
      arith,
      eq_iff k j,
      lookup-assign k j v merged,
      lookup-assign_all j list (assign k v merged) hs,
    )

pub assignments-Distinct : (profile : CapabilityProfile) → Distinct (assignments profile)
unfolding lookup
assignments-Distinct profile = (
  refl,
  (
    refl,
    (
      refl,
      (
        refl,
        (
          refl,
          (
            refl,
            (
              refl,
              (
                refl,
                (
                  refl,
                  (
                    refl,
                    (
                      refl,
                      (
                        refl,
                        (refl, (refl, (refl, (refl, (refl, (refl, (refl, (refl, (refl, tt))))))))),
                      ),
                    ),
                  ),
                ),
              ),
            ),
          ),
        ),
      ),
    ),
  ),
)

is_some-lookup :
    (j : String) (list : Assignments) → is_some (lookup j list) ≡ includes (keys list) j
unfolding lookup
is_some-lookup j [] = refl
is_some-lookup j ((k, v) ∷ list) = ground (arith, is_some-lookup j list)

includes-rotate :
    (j k : String) (ks : List String) → includes (ks ++ k ∷ []) j ≡ includes (k ∷ ks) j
includes-rotate j k [] = refl
includes-rotate j k (i ∷ ks) = ground (arith, includes-rotate j k ks)

includes-append :
    (j : String) (ks ls : List String) → includes (ks ++ ls) j ≡ includes ks j || includes ls j
includes-append j [] ls = refl
includes-append j (k ∷ ks) ls = ground (arith, includes-append j ks ls)

abbrev first_keys : List String
unfolding known_capability_keys
first_keys = take 9 known_capability_keys

abbrev last_keys : List String
unfolding known_capability_keys
last_keys = drop 10 known_capability_keys

-- The assigned keys are the known ones.
pub is_some-lookup-assignments :
    (j : String) (profile : CapabilityProfile)
    → is_some (lookup j (assignments profile)) ≡ includes known_capability_keys j
unfolding known_capability_keys
is_some-lookup-assignments j profile =
    is_some-lookup j (assignments profile)
    ∙ includes-append j first_keys (last_keys ++ "receptor_node_count" ∷ [])
    ∙ ap (λ b. includes first_keys j || b) (includes-rotate j "receptor_node_count" last_keys)
    ∙ sym (includes-append j first_keys ("receptor_node_count" ∷ last_keys))
