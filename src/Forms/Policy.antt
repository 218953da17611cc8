-- ===== src/Forms/Policy.antt =====
-- frontend/src/components/policy-form.tsx: the rule and the scope that the form makes of its fields,
-- and frontend/src/pages/policies.tsx, lines 36-56 and 72-83: what the page reads of a rule, of a
-- user's roles and of a result.
pub mod Rules
use ansible_aam.Prelude.{
  ℕ, zero, suc, ◌+◌, ◌-◌, ◌*◌, ◌≤◌, ◌<◌, Char, code, String, ◌≡◌, refl, sym, ap, ◌∙◌, ◌≢◌, ◌↔◌, ◌⊎◌,
  inl, inr, Bool, true, false, not, ◌&&◌, ◌||◌, Option, none, some, List, [], ◌∷◌, ◌++◌, map, arith,
  ◌==◌, eq_iff, eq_refl, ltb, leb, eqb, if◌then◌else◌, Bool-cases, Option-cases, or_else, is_some,
  length, select, some_of, every, find, take, drop, somes, length-append, select-append,
  length-select-le, length-somes-le, All, All-append, flat_map, length-map,
}
use ansible_aam.Prelude.Int.{ℤ, pos, negsuc, ◌+ℤ◌, ltb_ℤ, leb_ℤ, eqb_ℤ}
use ansible_aam.Prelude.Dict.{
  Dict, includes, keys, lookup, insert, remove, lookup-insert, lookup-remove,
}
use ansible_aam.Prelude.Text.{
  ◌⊕◌, is_empty, or_text, trim, is_blank, String-cases, trim_idem, trim-nil, is_empty-eq,
}
use ansible_aam.Prelude.Text.Numbers.{
  Number, nan, infinity, neg_infinity, int, is_finite, truthy_number, add, less, same_number,
  parse_int, show_nat, show, parse_int-show_nat, is_digit,
}
use ansible_aam.Prelude.Result.{Result, ok, err}
use ansible_aam.Prelude.Text.Search.{starts_with_char, ends_with_char}
use ansible_aam.Prelude.Text.Split.{split_csv}
use ansible_aam.Value.{Value, bool, num, str, arr, obj, Items, from_entries, get, truthy}
use ansible_aam.Types.{Policy, PolicyCreatePayload, PolicyPushResult}

pub data RuleType : Type 0 where
  require_version_prefix require_tls_verification max_sync_interval_minutes max_sync_age_minutes
        max_failed_jobs max_failed_executions min_health_score component_enabled controller_setting
        named_resource_present :
      RuleType

abbrev pub rule_text : RuleType → String
rule_text require_version_prefix = "require_version_prefix"
rule_text require_tls_verification = "require_tls_verification"
rule_text max_sync_interval_minutes = "max_sync_interval_minutes"
rule_text max_sync_age_minutes = "max_sync_age_minutes"
rule_text max_failed_jobs = "max_failed_jobs"
rule_text max_failed_executions = "max_failed_executions"
rule_text min_health_score = "min_health_score"
rule_text component_enabled = "component_enabled"
rule_text controller_setting = "controller_setting"
rule_text named_resource_present = "named_resource_present"

-- `/^\d*$/`.
unfoldable pub all_digits : String → Bool
all_digits String.[] = true
all_digits (String.◌∷◌ c s) = is_digit (code c) && all_digits s

-- `/^-?\d+$/`.
unfoldable pub is_integer_text : String → Bool
unfolding all_digits
is_integer_text String.[] = false
is_integer_text (String.◌∷◌ c s) =
    if eqb (code c) 45 then not (is_empty s) && all_digits s else is_digit (code c) && all_digits s

abbrev looks_like_json : String → Bool
looks_like_json s =
    starts_with_char 123 s && ends_with_char 125 s || starts_with_char 91 s && ends_with_char 93 s

-- `try { return JSON.parse(s) } catch { return s }`.
abbrev pub parsed_or_text : Result Value → String → Value
parsed_or_text (ok v) s = v
parsed_or_text (err e) s = str s

unfoldable pub parse_setting_value : (String → Result Value) → String → Value
unfolding is_integer_text
parse_setting_value json_parse raw =
    let trimmed = trim raw in
    if trimmed == "true"
    then bool true
    else if trimmed == "false"
    then bool false
    else if is_integer_text trimmed
    then num (parse_int trimmed)
    else if looks_like_json trimmed
    then parsed_or_text (json_parse trimmed) trimmed
    else str raw

-- The fields of the form.
pub record RuleFields : Type 0 where
  pub threshold : String
  pub prefix : String
  pub service : String
  pub setting_key : String
  pub setting_value : String
  pub resource_type : String
  pub resource_name : String
  pub resource_image : String
  pub remediate : Bool

-- `parseInt(s, 10) || 0`.
abbrev or_zero : Number → Number
or_zero n = if truthy_number n then n else int (pos 0)

-- The record to create for a missing resource.
unfoldable pub create_fields : RuleFields → Dict Value
create_fields f =
    ("name", str (trim f.resource_name))
    ∷ (if f.resource_type == "execution_environment" && not (is_blank f.resource_image)
        then ("image", str (trim f.resource_image)) ∷ ("pull", str "missing") ∷ []
        else [])

abbrev threshold_rule : RuleType → RuleFields → Dict Value
threshold_rule type f =
    ("type", str (rule_text type)) ∷ ("threshold", num (or_zero (parse_int f.threshold))) ∷ []

unfoldable pub build_rule : (String → Result Value) → RuleType → RuleFields → Dict Value
unfolding parse_setting_value create_fields
build_rule json_parse require_version_prefix f =
    ("type", str "require_version_prefix") ∷ ("prefix", str (trim f.prefix)) ∷ []
build_rule json_parse require_tls_verification f = ("type", str "require_tls_verification") ∷ []
build_rule json_parse component_enabled f =
    ("type", str "component_enabled") ∷ ("service", str f.service) ∷ []
build_rule json_parse controller_setting f =
    ("type", str "controller_setting")
    ∷ ("key", str (trim f.setting_key))
    ∷ ("value", parse_setting_value json_parse f.setting_value)
    ∷ ("remediate", bool f.remediate)
    ∷ []
build_rule json_parse named_resource_present f =
    ("type", str "named_resource_present")
    ∷ ("resource_type", str f.resource_type)
    ∷ ("name", str (trim f.resource_name))
    ∷ ("remediate", bool f.remediate)
    ∷ ("create", obj (from_entries (create_fields f)))
    ∷ []
build_rule json_parse max_sync_interval_minutes f = threshold_rule max_sync_interval_minutes f
build_rule json_parse max_sync_age_minutes f = threshold_rule max_sync_age_minutes f
build_rule json_parse max_failed_jobs f = threshold_rule max_failed_jobs f
build_rule json_parse max_failed_executions f = threshold_rule max_failed_executions f
build_rule json_parse min_health_score f = threshold_rule min_health_score f

-- The list of texts as a value.
unfoldable pub text_items : List String → Items
text_items [] = Items.nil
text_items (s ∷ ss) = Items.item (str s) (text_items ss)

unfoldable pub build_scope : String → String → Dict Value
unfolding split_csv text_items
build_scope applies_to tags =
    let tag_list = split_csv tags in
    (if applies_to == "all" then [] else ("kind", str applies_to) ∷ [])
    ++ (if ltb 0 (length tag_list) then ("tags", arr (text_items tag_list)) ∷ [] else [])

-- handleSubmit: the request of a new policy.
pub record PolicyFields : Type 0 where
  pub name : String
  pub description : String
  pub severity : String
  pub rule_type : RuleType
  pub rule_fields : RuleFields
  pub tags : String
  pub applies_to : String
  pub push_to_fleet : Bool

unfoldable pub create_policy_payload : (String → Result Value) → PolicyFields → PolicyCreatePayload
unfolding build_scope build_rule
create_policy_payload json_parse f = record {
  name = trim f.name;
  description = trim f.description;
  severity = f.severity;
  enabled = true;
  scope = build_scope f.applies_to f.tags;
  rule = build_rule json_parse f.rule_type f.rule_fields;
  push_to_fleet = f.push_to_fleet;
}

-- `rule.type === text`.
abbrev pub is_text : String → Value → Bool
is_text t (str s) = s == t
is_text t _ = false

unfoldable pub is_remediable : Dict Value → Bool
unfolding get
is_remediable rule =
    truthy (get "remediate" rule)
    && (is_text "controller_setting" (get "type" rule)
        || is_text "named_resource_present" (get "type" rule))

unfoldable pub is_admin : List String → Bool
is_admin roles = some_of (λ role. role == "aam.admin" || role == "platform-admin") roles

pub data EvaluationVariant : Type 0 where
  success warning danger info : EvaluationVariant

unfoldable pub evaluation_variant : PolicyPushResult → EvaluationVariant
evaluation_variant result =
    let nothing = int (pos 0) in
    if less nothing result.noncompliant
    then danger
    else if less nothing result.unknown
        || less nothing result.skipped
        || same_number result.environments nothing
    then warning
    else if less nothing result.compliant
    then success
    else info

pub data SeverityColor : Type 0 where
  red orange blue grey : SeverityColor

unfoldable pub severity_color : (String → String) → String → SeverityColor
severity_color to_lower_case severity =
    let normalized = to_lower_case severity in
    if normalized == "critical" || normalized == "high"
    then red
    else if normalized == "medium" || normalized == "warning"
    then orange
    else if normalized == "low"
    then blue
    else grey
