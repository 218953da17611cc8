-- ===== src/Forms/Environment/Registration.antt =====
-- frontend/src/components/environment-form.tsx, lines 256-310, 438-490 and 1095-1103: the steps of
-- the registration of a new environment, with the events on the fields that the steps ask for. The
-- other fields stand in the form as they are; their events change none of these.
pub mod Sound
use ansible_aam.Prelude.{
  ℕ, ◌+◌, ◌-◌, ◌≤◌, ◌<◌, String, ◌≡◌, refl, sym, ap, ◌∙◌, inl, inr, Bool, true, false, not, ◌&&◌,
  ◌||◌, Option, none, some, arith, ltb, eqb, if◌then◌else◌, Bool-cases, Option-cases, is_some,
}
use ansible_aam.Prelude.Dict.{Dict}
use ansible_aam.Prelude.Text.{is_blank}
use ansible_aam.Prelude.Text.Numbers.{Number, show}
use ansible_aam.Types.{service_account}
use ansible_aam.Utils.{EnvironmentKind, aap, orchestrator, same_kind}
use ansible_aam.Forms.Environment.{FormState, build_initial_state}
use ansible_aam.Forms.Environment.Slug.{slugify}
use ansible_aam.Value.{Value}

-- The state of the form in the mode "create".
pub record Registration : Type 0 where
  pub form : FormState
  pub slug_dirty : Bool
  pub local_error : Option String
  pub step : ℕ

-- `registrationSteps.length - 1`.
abbrev pub last_step : ℕ
last_step = 3

-- What continueRegistration objects to, first to last.
unfoldable pub objection : ℕ → FormState → Option String
objection step form =
    if eqb step 0 && (is_blank form.name || is_blank form.slug)
    then some "Enter a display name. The slug is filled in from that name."
    else if eqb step 2 && (same_kind form.kind orchestrator && is_blank form.orchestrator_url)
    then some "Enter the Automation Orchestrator URL."
    else if eqb step 2 && (not (same_kind form.kind orchestrator) && is_blank form.gateway_url)
    then some "Enter the platform gateway URL."
    else none

-- `Math.min(step + 1, registrationSteps.length - 1)`.
abbrev pub next_step : ℕ → ℕ
next_step step = if ltb (step + 1) last_step then step + 1 else last_step

unfoldable pub continue_registration : Registration → Registration
continue_registration state =
    let error = objection state.step state.form in
    record state {
      local_error = error;
      step = if is_some error then state.step else next_step state.step;
    }

unfoldable pub back : Registration → Registration
back state = record state { step = state.step - 1 }

-- The name's `onChange`: the slug follows until it is typed in itself.
unfoldable pub type_name : (String → String) → String → Registration → Registration
unfolding slugify
type_name to_lower_case value state = record state {
  form = record state.form {
    name = value;
    slug = if state.slug_dirty then state.form.slug else slugify to_lower_case value;
  };
}

unfoldable pub type_slug : String → Registration → Registration
type_slug value state = record state {
  slug_dirty = true;
  form = record state.form { slug = value };
}

-- The choice of the product; an orchestrator starts with a service account.
unfoldable pub choose_kind : EnvironmentKind → Registration → Registration
choose_kind aap state = record state { form = record state.form { kind = aap } }
choose_kind orchestrator state = record state {
  form = record state.form { kind = orchestrator; auth_mode = service_account };
}

unfoldable pub type_gateway_url : String → Registration → Registration
type_gateway_url value state = record state { form = record state.form { gateway_url = value } }

unfoldable pub type_orchestrator_url : String → Registration → Registration
type_orchestrator_url value state = record state {
  form = record state.form { orchestrator_url = value };
}

-- The hub's preferences arrive, at any step.
unfoldable pub load_preferences : Number → Registration → Registration
unfolding show
load_preferences minutes state = record state {
  form = record state.form { sync_interval_minutes = show minutes };
}

-- The first state of the page.
unfoldable pub start : (Dict Value → String) → Registration
unfolding build_initial_state
start to_pretty_json = record {
  form = build_initial_state to_pretty_json none;
  slug_dirty = false;
  local_error = none;
  step = 0;
}

-- One event, at a step that shows the control for it.
pub data Event (to_lower_case : String → String) : Registration → Registration → Type 0 where
  typed_name :
      (v : String) (s : Registration)
      → s.step ≡ 0
      → Event to_lower_case s (type_name to_lower_case v s)
  typed_slug : (v : String) (s : Registration) → s.step ≡ 0 → Event to_lower_case s (type_slug v s)
  chose_kind :
      (k : EnvironmentKind) (s : Registration)
      → s.step ≡ 0
      → Event to_lower_case s (choose_kind k s)
  typed_gateway_url :
      (v : String) (s : Registration) → s.step ≡ 2 → Event to_lower_case s (type_gateway_url v s)
  typed_orchestrator_url :
      (v : String) (s : Registration)
      → s.step ≡ 2
      → Event to_lower_case s (type_orchestrator_url v s)
  loaded : (n : Number) (s : Registration) → Event to_lower_case s (load_preferences n s)
  continued :
      (s : Registration) → s.step < last_step → Event to_lower_case s (continue_registration s)
  went_back : (s : Registration) → 0 < s.step → Event to_lower_case s (back s)

-- A run of events.
pub data Reaches (to_lower_case : String → String) : Registration → Registration → Type 0 where
  here : (s : Registration) → Reaches to_lower_case s s
  and_then :
      (s t u : Registration)
      → Reaches to_lower_case s t
      → Event to_lower_case t u
      → Reaches to_lower_case s u
