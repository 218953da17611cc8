-- ===== src/Pages/Environment/Idle.antt =====
-- No handler leaves the environment's page busy.
use ansible_aam.Prelude.{
  String, ◌≡◌, ◌⊎◌, inl, inr, Bool, true, false, none, some, List, [], ◌∷◌, arith, Option-cases,
}
use ansible_aam.Prelude.Result.{Result, ok, err, Result-cases}
use ansible_aam.Types.{
  EnvironmentDetail, EnvironmentMutationPayload, Resource, ActivityEvent, HealthSample,
}
use ansible_aam.Pages.Resources.{ResourceAction}
use ansible_aam.Pages.Environment.{
  whole, managed, update_environment, sync_environment, delete_environment, execute_action, Server,
  PageState, set_environment, set_activity, set_health_history, load_environment, save_body,
  handle_save, handle_sync, handle_set_managed, handle_deregister, handle_resource_action,
  without_empty_secrets,
}

-- What a user does on the page.
pub data Event : Type 0 where
  save : EnvironmentMutationPayload → Bool → Event
  sync : Event
  set_managed : Bool → Event
  deregister_environment : Event
  run_action : Resource → ResourceAction → Event

module _ (environment_id : String) where
  -- An event, with the answers that the API gives to it.
  unfoldable pub step : PageState → Server × Event → PageState
  step s (server, save payload sync_after_save) =
      handle_save environment_id server payload sync_after_save s
  step s (server, sync) = handle_sync environment_id server s
  step s (server, set_managed is_managed) = handle_set_managed environment_id server is_managed s
  step s (server, deregister_environment) = handle_deregister environment_id server s
  step s (server, run_action resource action) =
      handle_resource_action environment_id server resource action s

  unfoldable pub run : PageState → List (Server × Event) → PageState
  unfolding step
  run s [] = s
  run s (e ∷ es) = run (step s e) es

-- Nothing is under way, or the page was left.
pub record IsIdle (s : PageState) : Type 0 where
  pub syncing : s.syncing ≡ false
  pub actioning : s.actioning_id ≡ none
  pub busy : (s.busy ≡ false) ⊎ (s.location ≡ "/environments")

-- Loading changes none of the fields that say what is under way.
pub record SameWork (s t : PageState) : Type 0 where
  pub busy : s.busy ≡ t.busy
  pub syncing : s.syncing ≡ t.syncing
  pub actioning : s.actioning_id ≡ t.actioning_id
  pub location : s.location ≡ t.location

set_environment-SameWork :
    (r : Result EnvironmentDetail) (s : PageState) → SameWork (set_environment r s) s
set_environment-SameWork (ok d) s = ground arith
set_environment-SameWork (err m) s = ground arith

set_activity-SameWork :
    (r : Result (List ActivityEvent)) (s : PageState) → SameWork (set_activity r s) s
set_activity-SameWork (ok d) s = ground arith
set_activity-SameWork (err m) s = ground arith

set_health_history-SameWork :
    (r : Result (List HealthSample)) (s : PageState) → SameWork (set_health_history r s) s
set_health_history-SameWork (ok d) s = ground arith
set_health_history-SameWork (err m) s = ground arith

module _ (environment_id : String) (server : Server) where
  load_environment-SameWork :
      (s : PageState) → SameWork (load_environment environment_id server s) s
  unfolding load_environment
  load_environment-SameWork s = ground (
    arith,
    set_environment-SameWork (server.environment environment_id) s,
    set_activity-SameWork (server.activity environment_id)
        (set_environment (server.environment environment_id) s),
    set_health_history-SameWork (server.health_history environment_id) (
        set_activity (server.activity environment_id)
          (set_environment (server.environment environment_id) s)),
  )

  handle_sync-IsIdle : (s : PageState) → IsIdle s → IsIdle (handle_sync environment_id server s)
  unfolding handle_sync
  handle_sync-IsIdle s h = elim (Option-cases s.environment) [
    | inl e ↦ rw e (ground arith)
    | inr (detail, e) ↦ elim (Result-cases (server.call (sync_environment environment_id))) [
      | inl (m, r) ↦ rw (e, r) (ground arith)
      | inr (u, r) ↦ rw (e, r) (grind (arith, load_environment-SameWork))
    ]
  ]

  handle_save-IsIdle :
      (payload : EnvironmentMutationPayload) (sync_after_save : Bool) (s : PageState)
      → IsIdle s
      → IsIdle (handle_save environment_id server payload sync_after_save s)
  unfolding handle_save save_body
  handle_save-IsIdle payload true s h =
      let sent = update_environment environment_id (whole (without_empty_secrets payload)) in
      elim (Result-cases (server.call sent)) [
        | inl (m, r) ↦ rw r (ground arith)
        | inr (u, r) ↦ elim (Result-cases (server.call (sync_environment environment_id))) [
          | inl (m, q) ↦ rw (r, q) (ground arith)
          | inr (v, q) ↦ rw (r, q) (grind (arith, load_environment-SameWork))
        ]
      ]
  handle_save-IsIdle payload false s h =
      let sent = update_environment environment_id (whole (without_empty_secrets payload)) in
      elim (Result-cases (server.call sent)) [
        | inl (m, r) ↦ rw r (ground arith)
        | inr (u, r) ↦ rw r (grind (arith, load_environment-SameWork))
      ]

  handle_set_managed-IsIdle :
      (is_managed : Bool) (s : PageState)
      → IsIdle s
      → IsIdle (handle_set_managed environment_id server is_managed s)
  unfolding handle_set_managed
  handle_set_managed-IsIdle is_managed s h = elim (Option-cases s.environment) [
    | inl e ↦ rw e (ground arith)
    | inr (detail, e) ↦
        elim (Result-cases (server.call (update_environment environment_id (managed is_managed)))) [
          | inl (m, r) ↦ rw (e, r) (ground arith)
          | inr (u, r) ↦ rw (e, r) (grind (arith, load_environment-SameWork))
        ]
  ]

  handle_deregister-IsIdle :
      (s : PageState) → IsIdle s → IsIdle (handle_deregister environment_id server s)
  unfolding handle_deregister
  handle_deregister-IsIdle s h = elim (Option-cases s.environment) [
    | inl e ↦ rw e (ground arith)
    | inr (detail, e) ↦ elim (Result-cases (server.call (delete_environment environment_id))) [
      | inl (m, r) ↦ rw (e, r) (ground arith)
      | inr (u, r) ↦ rw (e, r) (ground arith)
    ]
  ]

  handle_resource_action-IsIdle :
      (resource : Resource) (action : ResourceAction) (s : PageState)
      → IsIdle s
      → IsIdle (handle_resource_action environment_id server resource action s)
  unfolding handle_resource_action
  handle_resource_action-IsIdle resource action s h =
      let request = execute_action record {
        environment_id = environment_id;
        action = action.action;
        target_id = resource.external_id;
        target_name = some resource.name;
        payload = action.payload;
        path_override = none;
      } in
      elim (Result-cases (server.call request)) [
        | inl (m, r) ↦ rw r (ground arith)
        | inr (u, r) ↦ rw r (grind (arith, load_environment-SameWork))
      ]

step-IsIdle :
    (environment_id : String) (server : Server) (e : Event) (s : PageState)
    → IsIdle s
    → IsIdle (step environment_id s (server, e))
unfolding step
step-IsIdle id server (save payload sync_after_save) s h =
    handle_save-IsIdle id server payload sync_after_save s h
step-IsIdle id server sync s h = handle_sync-IsIdle id server s h
step-IsIdle id server (set_managed is_managed) s h =
    handle_set_managed-IsIdle id server is_managed s h
step-IsIdle id server deregister_environment s h = handle_deregister-IsIdle id server s h
step-IsIdle id server (run_action resource action) s h =
    handle_resource_action-IsIdle id server resource action s h

-- From a page where nothing is under way, after any events with any answers of the API, failures
-- included, nothing is under way: the controls are enabled again, or the page was left for the list
-- of the environments.
pub run-IsIdle :
    (environment_id : String) (events : List (Server × Event)) (s : PageState)
    → IsIdle s
    → IsIdle (run environment_id s events)
unfolding run
run-IsIdle id [] s h = h
run-IsIdle id ((server, e) ∷ events) s h =
    run-IsIdle id events (step id s (server, e)) (step-IsIdle id server e s h)
