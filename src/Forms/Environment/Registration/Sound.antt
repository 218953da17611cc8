-- ===== src/Forms/Environment/Registration/Sound.antt =====
-- What a run of the registration has made sure of at each step.
use ansible_aam.Prelude.{
  ℕ, ◌≤◌, ◌<◌, String, ◌≡◌, refl, sym, ap, ◌∙◌, inl, inr, false, none, arith, eqb, if◌then◌else◌,
  Bool-cases, Option-cases,
}
use ansible_aam.Prelude.Dict.{Dict}
use ansible_aam.Prelude.Text.{is_blank}
use ansible_aam.Value.{Value}
use ansible_aam.Utils.{aap, orchestrator, same_kind}
use ansible_aam.Forms.Environment.{FormState}
use ansible_aam.Forms.Environment.Registration.{
  next_step, Event, Reaches, Registration, and_then, back, choose_kind, chose_kind,
  continue_registration, continued, here, last_step, load_preferences, loaded, objection, start,
  type_gateway_url, type_name, type_orchestrator_url, type_slug, typed_gateway_url, typed_name,
  typed_orchestrator_url, typed_slug, went_back,
}

abbrev pub product_url : FormState → String
product_url form =
    if same_kind form.kind orchestrator then form.orchestrator_url else form.gateway_url

-- What the steps that are passed have made sure of.
pub record IsSound (state : Registration) : Type 0 where
  pub bounded : state.step ≤ last_step
  pub named :
      0 < state.step → (is_blank state.form.name ≡ false) × (is_blank state.form.slug ≡ false)
  pub connected : 2 < state.step → is_blank (product_url state.form) ≡ false

objection-named :
    (step : ℕ) (form : FormState)
    → step ≡ 0
    → objection step form ≡ none
    → (is_blank form.name ≡ false) × (is_blank form.slug ≡ false)
unfolding objection
objection-named step form e h = ground arith

objection-connected :
    (step : ℕ) (form : FormState)
    → step ≡ 2
    → objection step form ≡ none
    → is_blank (product_url form) ≡ false
unfolding objection
objection-connected step form e h = ground arith

-- A state at a step where the first fields may be edited.
at_first : (s : Registration) → s.step ≡ 0 → IsSound s
at_first s h = record {
  bounded = omega arith;
  named = λ q. ground arith;
  connected = λ q. ground arith;
}

keep :
    (s t : Registration)
    → t.step ≡ s.step
    → t.form.name ≡ s.form.name
    → t.form.slug ≡ s.form.slug
    → ((2 < s.step) → product_url t.form ≡ product_url s.form)
    → IsSound s
    → IsSound t
keep s t step name slug url h = record {
  bounded = rw step h.bounded;
  named = λ q. let (n, m) = h.named (rw (sym step) q) in (rw name n, rw slug m);
  connected =
      λ q. let above : 2 < s.step = rw (sym step) q in ap is_blank (url above) ∙ h.connected above;
}

passed_name :
    (s : Registration)
    → IsSound s
    → objection s.step s.form ≡ none
    → (is_blank s.form.name ≡ false) × (is_blank s.form.slug ≡ false)
passed_name s h e = elim (Bool-cases (eqb s.step 0)) [
  | inl q ↦ objection-named s.step s.form (ground arith) e
  | inr q ↦ h.named (ground arith)
]

next_step-le : (n : ℕ) → next_step n ≤ last_step
next_step-le n = ground arith

next_step-last : (n : ℕ) → n < last_step → 2 < next_step n → n ≡ 2
next_step-last n h q = ground arith

continue_registration-IsSound :
    (s : Registration) → s.step < last_step → IsSound s → IsSound (continue_registration s)
unfolding continue_registration
continue_registration-IsSound s below h = elim (Option-cases (objection s.step s.form)) [
  | inl e ↦ rw e (record {
    bounded = next_step-le s.step;
    named = λ q. passed_name s h e;
    connected = λ q. objection-connected s.step s.form (next_step-last s.step below q) e;
  })
  | inr (m, e) ↦ rw e (record { bounded = h.bounded; named = h.named; connected = h.connected })
]

Event-IsSound :
    {to_lower_case : String → String} (s t : Registration)
    → Event to_lower_case s t
    → IsSound s
    → IsSound t
unfolding type_name type_slug choose_kind type_gateway_url type_orchestrator_url load_preferences
    back
Event-IsSound _ _ (typed_name v s e) h = at_first _ e
Event-IsSound _ _ (typed_slug v s e) h = at_first _ e
Event-IsSound _ _ (chose_kind aap s e) h = at_first _ e
Event-IsSound _ _ (chose_kind orchestrator s e) h = at_first _ e
Event-IsSound _ _ (typed_gateway_url v s e) h = keep s _ refl refl refl (λ q. ground arith) h
Event-IsSound _ _ (typed_orchestrator_url v s e) h = keep s _ refl refl refl (λ q. ground arith) h
Event-IsSound _ _ (loaded n s) h = keep s _ refl refl refl (λ q. refl) h
Event-IsSound _ _ (continued s e) h = continue_registration-IsSound s e h
Event-IsSound _ _ (went_back s e) h = record {
  bounded = let b = h.bounded in omega arith;
  named = λ q. h.named (omega arith);
  connected = λ q. let b = h.bounded in h.connected (omega arith);
}

run-IsSound :
    {to_lower_case : String → String} (s t : Registration)
    → Reaches to_lower_case s t
    → IsSound s
    → IsSound t
run-IsSound _ _ (here _) h = h
run-IsSound _ _ (and_then s t u r e) h = Event-IsSound t u e (run-IsSound s t r h)

start-IsSound : (to_pretty_json : Dict Value → String) → IsSound (start to_pretty_json)
unfolding start
start-IsSound to_pretty_json = at_first _ refl

-- Whatever the events in whatever order: the step is one of the four, after the first step the name
-- and the slug are not blank, and at the last step the URL of the chosen product is not blank.
pub Reaches-IsSound :
    {to_lower_case : String → String} (to_pretty_json : Dict Value → String) (s : Registration)
    → Reaches to_lower_case (start to_pretty_json) s
    → IsSound s
Reaches-IsSound to_pretty_json s r = run-IsSound _ s r (start-IsSound to_pretty_json)
