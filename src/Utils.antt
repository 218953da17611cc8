-- ===== src/Utils.antt =====
-- frontend/src/utils.ts: labels and the kind of an environment.
use ansible_aam.Prelude.{
  String, ◌≡◌, refl, ◌∙◌, ◌↔◌, inl, inr, Bool, true, false, Option, none, some, arith, ◌==◌, eq_iff,
  if◌then◌else◌, Bool-cases,
}
use ansible_aam.Prelude.Text.{is_empty}
use ansible_aam.Prelude.Text.Numbers.{show}
use ansible_aam.Prelude.Text.Search.{spaced, is_empty-spaced}
use ansible_aam.Value.{Value, undefined, null, bool, num, str, arr, obj}

pub data EnvironmentKind : Type 0 where
  aap orchestrator : EnvironmentKind

abbrev pub same_kind : EnvironmentKind → EnvironmentKind → Bool
same_kind aap aap = true
same_kind orchestrator orchestrator = true
same_kind _ _ = false

-- environmentKind of an object with an optional `kind`, of a text, and of `null` or `undefined`.
-- All three read one optional text.
unfoldable pub environment_kind : Option String → EnvironmentKind
environment_kind none = aap
environment_kind (some kind) = if kind == "orchestrator" then orchestrator else aap

unfoldable pub environment_kind_label : Option String → String
unfolding environment_kind
environment_kind_label value =
    if same_kind (environment_kind value) orchestrator
    then "Automation Orchestrator"
    else "Ansible Automation Platform"

-- humanize: an empty text is falsy.
unfoldable pub humanize_or : String → Option String → String
unfolding spaced
humanize_or fallback none = fallback
humanize_or fallback (some value) = if is_empty value then fallback else spaced value

unfoldable pub humanize : Option String → String
unfolding humanize_or
humanize = humanize_or "Unknown"

unfoldable pub deployment_type_label : Option String → String
unfolding humanize
deployment_type_label none = humanize none
deployment_type_label (some value) =
    if value == "podman"
    then "RHEL / Podman"
    else if value == "openshift"
    then "OpenShift"
    else if value == "aws"
    then "AWS"
    else if value == "gcp"
    then "GCP"
    else if value == "azure"
    then "Azure"
    else if value == "other"
    then "Other"
    else humanize (some value)

-- formatDateTime: the parsing and the printing of dates are the host's.
module _ {Date : Type 0} (new_date : String → Option Date) (to_locale_string : Date → String) where
  unfoldable pub format_date_time_or : String → Option String → String
  format_date_time_or fallback none = fallback
  format_date_time_or fallback (some value) =
      if is_empty value
      then fallback
      else elim (new_date value) [ none ↦ fallback | some date ↦ to_locale_string date ]

-- stringifyValue, over `JSON.stringify`.
unfoldable pub stringify_value : (Value → String) → Value → String
unfolding show
stringify_value json undefined = "Not available"
stringify_value json null = "Not available"
stringify_value json (str s) = s
stringify_value json (num n) = show n
stringify_value json (bool b) = if b then "true" else "false"
stringify_value json (arr xs) = json (arr xs)
stringify_value json (obj fs) = json (obj fs)

pub humanize-filled : (value : Option String) → is_empty (humanize value) ≡ false
unfolding humanize
humanize-filled none = refl
humanize-filled (some value) = elim (Bool-cases (is_empty value)) [
  | inl e ↦ rw e
  | inr e ↦ rw e (is_empty-spaced value ∙ e)
]

-- The two kinds of `environment_kind`, by the text that decides.
pub environment_kind-orchestrator_iff :
    (value : Option String)
    → (environment_kind value ≡ orchestrator) ↔ (value ≡ some "orchestrator")
unfolding environment_kind
environment_kind-orchestrator_iff none = ground arith
environment_kind-orchestrator_iff (some kind) = ground (arith, eq_iff kind "orchestrator")
