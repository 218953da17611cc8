-- ===== src/Pages/Policies/Handlers.antt =====
-- What the handlers of the policies page do, on success and on failure.
use ansible_aam.Prelude.{
  String, ◌≡◌, refl, ◌≢◌, ◌↔◌, inl, inr, Bool, true, false, not, ◌&&◌, eqb, length, Option, none,
  some, List, [], ◌∷◌, map, arith, eq_iff,
}
use ansible_aam.Prelude.Text.{◌⊕◌, is_empty}
use ansible_aam.Prelude.Result.{Result, ok, err, Result-cases}
use ansible_aam.Types.{Policy, PolicyCreatePayload, PolicyPushResult}
use ansible_aam.Pages.Policies.{
  PageState, Server, replace_policy, toggle_policy, push_policy, remediate_policy, create_policy,
  reload, push_summary, evaluate, is_unavailable,
}

abbrev pub policy_ids : List Policy → List String
policy_ids policies = map (λ (policy : Policy). policy.id) policies

pub data Event : Type 0 where
  toggle : Policy → Bool → Event
  push remediate : Policy → Event
  create : PolicyCreatePayload → Event

unfoldable pub handle : Server → Event → PageState → PageState
handle server (toggle policy enabled) = toggle_policy server policy enabled
handle server (push policy) = push_policy server policy
handle server (remediate policy) = remediate_policy server policy
handle server (create payload) = create_policy server payload

-- The message of an error.
abbrev pub error_of {ℓ} : {T : Type ℓ} → Result T → Option String
error_of (err message) = some message
error_of (ok value) = none

-- Why the API refuses an event's own request.
abbrev pub refusal : Server → Event → Option String
refusal server (toggle policy enabled) = error_of (server.update_policy policy.id enabled)
refusal server (push policy) = error_of (server.push_policy policy.id)
refusal server (remediate policy) = error_of (server.remediate_policy policy.id)
refusal server (create payload) = error_of (server.create_policy payload)

-- What the page keeps of the policies, and whether its dialogue is open.
pub record SameView (s t : PageState) : Type 0 where
  pub policies : s.policies ≡ t.policies
  pub results : s.results ≡ t.results
  pub baseline : s.baseline ≡ t.baseline
  pub evaluation : s.evaluation ≡ t.evaluation
  pub is_create_open : s.is_create_open ≡ t.is_create_open

-- No handler of the page is under way.
pub record IsIdle (s : PageState) : Type 0 where
  pub updating : s.updating_id ≡ none
  pub pushing : s.pushing_id ≡ none
  pub remediating : s.remediating_id ≡ none
  pub creating : s.creating ≡ false

error_of-eq {ℓ} :
    {T : Type ℓ} (r : Result T) (message : String) → error_of r ≡ some message → r ≡ err message
error_of-eq (err m) message h = ground arith
error_of-eq (ok v) message h = absurd cc

is_unavailable_iff :
    (message : String) (policies : List Policy)
    → (not (is_empty message) && eqb (length policies) 0) ≡ true
      ↔ ((policies ≡ []) × (message ≢ ""))
is_unavailable_iff String.[] policies = (λ h. cc, λ h. absurd (h.1 refl))
is_unavailable_iff (String.◌∷◌ c message) [] = (λ h. (refl, λ e. cc), λ h. refl)
is_unavailable_iff (String.◌∷◌ c message) (p ∷ policies) =
    (λ h. absurd (ground (arith, h)), λ h. absurd (cc))

-- On a page where nothing is under way, an event whose request the API refuses leaves the policies, their
-- results, the configuration, the last evaluation and the flag of the dialogue in the page's state as
-- they were; the error is the API's message, and again nothing is under way. The page draws these, with
-- the dialogue, as long as it has a policy or the message is empty; where it has no policy and the
-- message is not empty, it draws the error alone, and a dialogue that was open is not seen any more.
pub handle-refused :
    (server : Server) (event : Event) (message : String) (s : PageState)
    → IsIdle s
    → refusal server event ≡ some message
    → SameView (handle server event s) s
      × ((handle server event s).error ≡ some message)
      × IsIdle (handle server event s)
      × (is_unavailable (handle server event s) ≡ true ↔ ((s.policies ≡ []) × (message ≢ "")))
unfolding handle is_unavailable toggle_policy push_policy remediate_policy create_policy
handle-refused server (toggle policy enabled) message s idle h =
    rw (error_of-eq (server.update_policy policy.id enabled) message h)
      (ground arith, refl, ground arith, is_unavailable_iff message s.policies)
handle-refused server (push policy) message s idle h =
    rw (error_of-eq (server.push_policy policy.id) message h)
      (ground arith, refl, ground arith, is_unavailable_iff message s.policies)
handle-refused server (remediate policy) message s idle h =
    rw (error_of-eq (server.remediate_policy policy.id) message h)
      (ground arith, refl, ground arith, is_unavailable_iff message s.policies)
handle-refused server (create payload) message s idle h =
    rw (error_of-eq (server.create_policy payload) message h)
      (ground arith, refl, ground arith, is_unavailable_iff message s.policies)

ids-replace_policy :
    (updated : Policy) (current : List Policy)
    → policy_ids (replace_policy updated current) ≡ policy_ids current
unfolding replace_policy
ids-replace_policy updated [] = refl
ids-replace_policy updated (item ∷ current) =
    ground (arith, eq_iff item.id updated.id, ids-replace_policy updated current)

-- Whatever the API answers, switching a policy on or off keeps the page's policies, by their ids, in
-- their order.
pub ids-toggle_policy :
    (server : Server) (policy : Policy) (enabled : Bool) (s : PageState)
    → policy_ids (toggle_policy server policy enabled s).policies ≡ policy_ids s.policies
unfolding toggle_policy
ids-toggle_policy server policy enabled s =
    elim (Result-cases (server.update_policy policy.id enabled)) [
      | inl (m, r) ↦ rw r refl
      | inr (updated, r) ↦ rw r (ids-replace_policy updated s.policies)
    ]

-- A push that the API answers is recorded with its message even when the lists cannot be read again;
-- then the error is that of the reading and the list of the policies is the old one.
pub push_policy-ok :
    (server : Server) (policy : Policy) (result : PolicyPushResult) (s : PageState)
    → server.push_policy policy.id ≡ ok result
    → ((push_policy server policy s).evaluation
        ≡ some (record { policy_name = policy.name; result = result; kind = evaluate }))
      × ((push_policy server policy s).message ≡ some (policy.name ⊕ (": " ⊕ push_summary result)))
      × ((push_policy server policy s).error ≡ error_of server.reloaded)
      × ((push_policy server policy s).policies
          ≡ elim server.reloaded [ err m ↦ s.policies | ok lists ↦ lists.0 ])
unfolding push_policy reload
push_policy-ok server policy result s h = elim (Result-cases server.reloaded) [
  | inl (m, q) ↦ rw (h, q) (refl, refl, refl, refl)
  | inr (lists, q) ↦ rw (h, q) (refl, refl, refl, refl)
]
