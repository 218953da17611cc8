-- ===== src/Forms/Policy/Rules.antt =====
-- What holds of the rules and the scopes that the policy form makes, for the page that reads them.
use ansible_aam.Prelude.{
  ℕ, suc, ◌<◌, String, ◌≡◌, refl, ◌↔◌, Bool, true, false, ◌&&◌, List, [], ◌∷◌, ◌++◌, arith, ◌==◌,
  ltb, eqb, if◌then◌else◌, length,
}
use ansible_aam.Prelude.Int.{pos}
use ansible_aam.Prelude.Dict.{Dict}
use ansible_aam.Prelude.Text.Numbers.{int}
use ansible_aam.Prelude.Result.{Result}
use ansible_aam.Prelude.Text.Split.{split_csv}
use ansible_aam.Value.{Value, undefined, str, arr, get}
use ansible_aam.Types.{PolicyPushResult}
use ansible_aam.Forms.Policy.{
  RuleType, require_version_prefix, require_tls_verification, max_sync_interval_minutes,
  max_sync_age_minutes, max_failed_jobs, max_failed_executions, min_health_score, component_enabled,
  controller_setting, named_resource_present, rule_text, RuleFields, build_rule, is_remediable,
  build_scope, text_items, evaluation_variant, success,
}

-- The rules that the backend can write to a controller.
abbrev pub is_written : RuleType → Bool
is_written controller_setting = true
is_written named_resource_present = true
is_written _ = false

-- What the page relies on.
pub record IsRule (type : RuleType) (remediate : Bool) (rule : Dict Value) : Type 0 where
  pub typed : get "type" rule ≡ str (rule_text type)
  pub remediable : is_remediable rule ≡ (is_written type && remediate)

Bool-and_true : (b : Bool) → (b && true) ≡ b
Bool-and_true true = refl
Bool-and_true false = refl

-- A rule of the form has its type under "type", and the page offers to remediate it just if it is a
-- setting or a named resource and the box "remediate" was ticked.
pub build_rule-IsRule :
    (json_parse : String → Result Value) (type : RuleType) (f : RuleFields)
    → IsRule type f.remediate (build_rule json_parse type f)
unfolding build_rule is_remediable get
build_rule-IsRule p require_version_prefix f = record { typed = refl; remediable = refl }
build_rule-IsRule p require_tls_verification f = record { typed = refl; remediable = refl }
build_rule-IsRule p max_sync_interval_minutes f = record { typed = refl; remediable = refl }
build_rule-IsRule p max_sync_age_minutes f = record { typed = refl; remediable = refl }
build_rule-IsRule p max_failed_jobs f = record { typed = refl; remediable = refl }
build_rule-IsRule p max_failed_executions f = record { typed = refl; remediable = refl }
build_rule-IsRule p min_health_score f = record { typed = refl; remediable = refl }
build_rule-IsRule p component_enabled f = record { typed = refl; remediable = refl }
build_rule-IsRule p controller_setting f = record {
  typed = refl;
  remediable = Bool-and_true f.remediate;
}
build_rule-IsRule p named_resource_present f = record {
  typed = refl;
  remediable = Bool-and_true f.remediate;
}

ltb-suc : (n : ℕ) → ltb 0 (suc n) ≡ true
ltb-suc n = ground arith

eqb-suc : (n : ℕ) → eqb (suc n) 0 ≡ false
eqb-suc n = ground arith

-- What a scope says: one kind of environment or all of them, and the tags if there are any.
pub record IsScope (applies_to tags : String) (scope : Dict Value) : Type 0 where
  pub kind : get "kind" scope ≡ (if applies_to == "all" then undefined else str applies_to)
  pub tagged :
      get "tags" scope
      ≡ (if eqb (length (split_csv tags)) 0 then undefined else arr (text_items (split_csv tags)))

-- The two parts of a scope, over the test and the tags.
abbrev scope_of : Bool → String → List String → Dict Value
scope_of is_all applies_to tag_list =
    (if is_all then [] else ("kind", str applies_to) ∷ [])
    ++ (if ltb 0 (length tag_list) then ("tags", arr (text_items tag_list)) ∷ [] else [])

get-scope_of :
    (is_all : Bool) (applies_to : String) (tag_list : List String)
    → (get "kind" (scope_of is_all applies_to tag_list)
        ≡ (if is_all then undefined else str applies_to))
      × (get "tags" (scope_of is_all applies_to tag_list)
          ≡ (if eqb (length tag_list) 0 then undefined else arr (text_items tag_list)))
unfolding get
get-scope_of true applies_to [] = (refl, refl)
get-scope_of true applies_to (t ∷ ts) = rw (ltb-suc (length ts), eqb-suc (length ts)) (refl, refl)
get-scope_of false applies_to [] = (refl, refl)
get-scope_of false applies_to (t ∷ ts) = rw (ltb-suc (length ts), eqb-suc (length ts)) (refl, refl)

-- The scope of the form names the chosen product, or none for "all", and it has the tags of the
-- comma-separated field just if there is one.
pub build_scope-IsScope :
    (applies_to tags : String) → IsScope applies_to tags (build_scope applies_to tags)
unfolding build_scope
build_scope-IsScope applies_to tags =
    let (k, t) = get-scope_of (applies_to == "all") applies_to (split_csv tags) in
    record { kind = k; tagged = t }

-- The page shows an evaluation as a success just if it reached an environment, some policy is
-- compliant, and none is noncompliant, unknown or skipped.
pub evaluation_variant-success_iff :
    (result : PolicyPushResult) (compliant noncompliant unknown skipped environments : ℕ)
    → result.compliant ≡ int (pos compliant)
    → result.noncompliant ≡ int (pos noncompliant)
    → result.unknown ≡ int (pos unknown)
    → result.skipped ≡ int (pos skipped)
    → result.environments ≡ int (pos environments)
    → (evaluation_variant result ≡ success)
      ↔ ((0 < environments) × (0 < compliant) × (noncompliant ≡ 0) × (unknown ≡ 0) × (skipped ≡ 0))
unfolding evaluation_variant
evaluation_variant-success_iff result c n u s e hc hn hu hs he =
    rw (hc, hn, hu, hs, he) (ground arith)
