-- ===== src/Pages/Environment.antt =====
-- frontend/src/pages/environment-detail.tsx, lines 102-273: the state of an environment's page and
-- its handlers. `navigate` is the location, and the calls to the API that change something are
-- listed in order. The page has the id of its environment.
mod Tests
pub mod Idle
pub mod Saving
use ansible_aam.Prelude.{
  ℕ, zero, suc, ◌+◌, ◌-◌, ◌*◌, ◌≤◌, ◌<◌, Char, code, String, ◌≡◌, refl, sym, ap, ◌∙◌, ◌≢◌, ◌↔◌, ◌⊎◌,
  inl, inr, Bool, true, false, not, ◌&&◌, ◌||◌, Option, none, some, List, [], ◌∷◌, ◌++◌, map, arith,
  ◌==◌, eq_iff, eq_refl, ltb, leb, eqb, if◌then◌else◌, Bool-cases, Option-cases, or_else, is_some,
  length, select, some_of, every, find, take, drop, somes, length-append, select-append,
  length-select-le, length-somes-le, All, All-append, flat_map, length-map,
}
use ansible_aam.Prelude.Int.{ℤ, pos, negsuc, ◌+ℤ◌, ltb_ℤ, leb_ℤ, eqb_ℤ}
use ansible_aam.Prelude.Dict.{
  Dict, includes, keys, lookup, insert, remove, lookup-insert, lookup-remove,
}
use ansible_aam.Prelude.Text.{
  ◌⊕◌, is_empty, or_text, trim, is_blank, String-cases, trim_idem, trim-nil, is_empty-eq,
}
use ansible_aam.Prelude.Text.Numbers.{
  Number, nan, infinity, neg_infinity, int, is_finite, truthy_number, add, less, same_number,
  parse_int, show_nat, show, parse_int-show_nat,
}
use ansible_aam.Prelude.Result.{Result, ok, err}
use ansible_aam.Prelude.Action.{Action, ◌>>=◌, ◌>>◌, change, answer, attempt, after_catch}
use ansible_aam.Types.{
  EnvironmentDetail, EnvironmentMutationPayload, ActivityEvent, HealthSample, Resource,
  RemoteActionName, RemoteActionRequest,
}
use ansible_aam.Pages.Resources.{ResourceAction, action_success_message, action_text}

pub data ConfirmAction : Type 0 where
  deactivate deregister : ConfirmAction

-- The body of a PATCH: the whole payload, or one flag.
pub data Update : Type 0 where
  whole : EnvironmentMutationPayload → Update
  managed : Bool → Update

pub data Call : Type 0 where
  update_environment : String → Update → Call
  sync_environment : String → Call
  delete_environment : String → Call
  execute_action : RemoteActionRequest → Call

-- The answers of the API while one event is handled.
pub record Server : Type 0 where
  pub call : Call → Result (Unit {0})
  pub environment : String → Result EnvironmentDetail
  pub activity : String → Result (List ActivityEvent)
  pub health_history : String → Result (List HealthSample)

pub record PageState : Type 0 where
  pub environment : Option EnvironmentDetail
  pub activity : List ActivityEvent
  pub health_history : List HealthSample
  pub busy : Bool
  pub syncing : Bool
  pub actioning_id : Option String
  pub error : Option String
  pub message : Option String
  pub confirm_action : Option ConfirmAction
  pub location : String
  pub calls : List Call

-- Each of the three results of `Promise.allSettled`.
abbrev pub set_environment : Result EnvironmentDetail → PageState → PageState
set_environment (ok detail) s = record s { environment = some detail; error = none }
set_environment (err message) s = record s { error = some message }

abbrev pub set_activity : Result (List ActivityEvent) → PageState → PageState
set_activity (ok items) s = record s { activity = items }
set_activity (err message) s = s

abbrev pub set_health_history : Result (List HealthSample) → PageState → PageState
set_health_history (ok samples) s = record s { health_history = samples }
set_health_history (err message) s = s

-- A secret that is absent, `null` or empty is deleted.
abbrev pub kept_secret : Option (Option String) → Option (Option String)
kept_secret none = none
kept_secret (some none) = none
kept_secret (some (some s)) = if is_empty s then none else some (some s)

unfoldable pub without_empty_secrets : EnvironmentMutationPayload → EnvironmentMutationPayload
without_empty_secrets payload = record payload {
  client_secret = kept_secret payload.client_secret;
  access_token = kept_secret payload.access_token;
  orchestrator_client_secret = kept_secret payload.orchestrator_client_secret;
  orchestrator_access_token = kept_secret payload.orchestrator_access_token;
}

-- `setBusy(true); setError(null); setMessage(null)`.
abbrev begin : PageState → PageState
begin s = record s { busy = true; error = none; message = none }

abbrev fail : String → PageState → PageState
fail text s = record s { error = some text }

abbrev say : String → Action PageState (Unit {0})
say text = change (λ s. record s { message = some text })

abbrev with_environment : (EnvironmentDetail → PageState → PageState) → PageState → PageState
with_environment handler s = elim s.environment [ none ↦ s | some detail ↦ handler detail s ]

module _ (environment_id : String) (server : Server) where
  -- A call that changes something.
  abbrev send : Call → Action PageState (Unit {0})
  send call s = (server.call call, record s { calls = s.calls ++ (call ∷ []) })

  unfoldable pub load_environment : PageState → PageState
  load_environment s = set_health_history (server.health_history environment_id) (
      set_activity (server.activity environment_id)
        (set_environment (server.environment environment_id) s))

  -- The `try` block of handleSave.
  unfoldable pub save_body : EnvironmentMutationPayload → Bool → Action PageState (Unit {0})
  unfolding load_environment without_empty_secrets
  save_body payload sync_after_save = do
    send (update_environment environment_id (whole (without_empty_secrets payload)))
    (if sync_after_save
        then send (sync_environment environment_id)
          >> say "Environment settings saved and a sync was queued."
        else say "Environment settings saved.")
    change load_environment

  -- handleSave; what it throws again is the error that it shows.
  unfoldable pub handle_save : EnvironmentMutationPayload → Bool → PageState → PageState
  unfolding save_body
  handle_save payload sync_after_save s =
      attempt (save_body payload sync_after_save) fail (λ t. record t { busy = false }) (begin s)

  unfoldable pub handle_sync : PageState → PageState
  unfolding load_environment ◌⊕◌
  handle_sync = with_environment λ detail s.
      attempt
        (do
          send (sync_environment environment_id)
          say ("Queued a sync for " ⊕ (detail.name ⊕ "."))
          change load_environment)
        fail (λ t. record t { syncing = false })
        (record s { syncing = true; error = none; message = none })

  unfoldable pub handle_set_managed : Bool → PageState → PageState
  unfolding load_environment ◌⊕◌
  handle_set_managed is_managed = with_environment λ detail s.
      attempt
        (do
          send (update_environment environment_id (managed is_managed))
          say (
              if is_managed
              then detail.name ⊕ " is active again."
              else detail.name ⊕ " is deactivated. Collection is paused.")
          change load_environment)
        fail (λ t. record t { busy = false }) (record (begin s) { confirm_action = none })

  -- The page is left after a success, and stays busy until then.
  unfoldable pub handle_deregister : PageState → PageState
  handle_deregister = with_environment λ _ s.
      after_catch (λ text t. record t { error = some text; busy = false })
        ((send (delete_environment environment_id)
            >> change (λ t. record t { location = "/environments" }))
          (record s { confirm_action = none; busy = true; error = none }))

  unfoldable pub handle_resource_action : Resource → ResourceAction → PageState → PageState
  unfolding load_environment action_success_message ◌⊕◌
  handle_resource_action resource action s =
      attempt
        (do
          send (
              execute_action record {
                environment_id = environment_id;
                action = action.action;
                target_id = resource.external_id;
                target_name = some resource.name;
                payload = action.payload;
                path_override = none;
              })
          say (action_success_message action resource)
          change load_environment)
        fail (λ t. record t { actioning_id = none })
        (record s {
          actioning_id = some (resource.id ⊕ (":" ⊕ action_text action.action));
          error = none;
          message = none;
        })
