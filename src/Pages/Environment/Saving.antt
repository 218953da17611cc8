-- ===== src/Pages/Environment/Saving.antt =====
-- What saving the form on an environment's page sends.
use ansible_aam.Prelude.{
  String, ◌≡◌, refl, sym, ap, ◌∙◌, inl, inr, Bool, true, false, ◌&&◌, none, List, [], ◌∷◌, ◌++◌,
  if◌then◌else◌, Bool-cases,
}
use ansible_aam.Prelude.Dict.{Dict}
use ansible_aam.Prelude.Text.{or_text, trim}
use ansible_aam.Prelude.Result.{is_ok, Result, ok, err, Result-cases}
use ansible_aam.Value.{Value}
use ansible_aam.Types.{EnvironmentMutationPayload, EnvironmentDetail, ActivityEvent, HealthSample}
use ansible_aam.Forms.Environment.{Mode, FormState}
use ansible_aam.Forms.Environment.Submit.{present, payload_of, handle_submit, is_orchestrator}
use ansible_aam.Forms.Environment.Submit.Accepts.{handle_submit-eq-ok_iff}
use ansible_aam.Pages.Environment.{
  whole, update_environment, sync_environment, Server, PageState, without_empty_secrets,
  kept_secret, load_environment, save_body, handle_save, set_environment, set_activity,
  set_health_history,
}

kept_secret-present : (s : String) → kept_secret (present s) ≡ present s
kept_secret-present String.[] = refl
kept_secret-present (String.◌∷◌ c s) = refl

kept_secret-if :
    (b : Bool) (s : String)
    → kept_secret (if b then present s else none) ≡ (if b then present s else none)
kept_secret-if true s = kept_secret-present s
kept_secret-if false s = refl

-- The form never sends an empty secret, so deleting these changes nothing.
without_empty_secrets-payload_of :
    (form : FormState) (labels extra_capabilities service_paths : Dict Value)
    → without_empty_secrets (payload_of form labels extra_capabilities service_paths)
      ≡ payload_of form labels extra_capabilities service_paths
unfolding without_empty_secrets
without_empty_secrets-payload_of form labels extra_capabilities service_paths = λ i.
    record (payload_of form labels extra_capabilities service_paths) {
      client_secret = kept_secret-present (trim form.client_secret) i;
      access_token = kept_secret-present (trim form.access_token) i;
      orchestrator_client_secret =
          kept_secret-if (is_orchestrator form)
            (or_text (trim form.orchestrator_client_secret) (trim form.client_secret)) i;
      orchestrator_access_token =
          kept_secret-if (is_orchestrator form)
            (or_text (trim form.orchestrator_access_token) (trim form.access_token)) i;
    }

without_empty_secrets-handle_submit :
    (json_parse : String → Result Value) (mode : Mode) (form : FormState)
    (payload : EnvironmentMutationPayload)
    → handle_submit json_parse mode form ≡ ok payload
    → without_empty_secrets payload ≡ payload
without_empty_secrets-handle_submit json_parse mode form payload h =
    let (labels, extra, paths, _, e) = (handle_submit-eq-ok_iff json_parse mode form payload).0 h in
    ap without_empty_secrets (sym e) ∙ without_empty_secrets-payload_of form labels extra paths ∙ e

set_environment-calls :
    (r : Result EnvironmentDetail) (s : PageState) → (set_environment r s).calls ≡ s.calls
set_environment-calls (ok detail) s = refl
set_environment-calls (err message) s = refl

set_activity-calls :
    (r : Result (List ActivityEvent)) (s : PageState) → (set_activity r s).calls ≡ s.calls
set_activity-calls (ok items) s = refl
set_activity-calls (err message) s = refl

set_health_history-calls :
    (r : Result (List HealthSample)) (s : PageState) → (set_health_history r s).calls ≡ s.calls
set_health_history-calls (ok samples) s = refl
set_health_history-calls (err message) s = refl

load_environment-calls :
    (environment_id : String) (server : Server) (s : PageState)
    → (load_environment environment_id server s).calls ≡ s.calls
unfolding load_environment
load_environment-calls environment_id server s =
    set_health_history-calls (server.health_history environment_id) (
      set_activity (server.activity environment_id)
        (set_environment (server.environment environment_id) s))
    ∙ set_activity-calls (server.activity environment_id)
        (set_environment (server.environment environment_id) s)
    ∙ set_environment-calls (server.environment environment_id) s

-- Saving sends the payload that the form made, unchanged, as one update; a sync follows if it was
-- asked for and the update succeeded; and loading the page again changes nothing on the server.
pub handle_save-calls :
    (environment_id : String) (server : Server) (json_parse : String → Result Value) (mode : Mode)
    (form : FormState) (payload : EnvironmentMutationPayload) (sync_after_save : Bool)
    (s : PageState)
    → handle_submit json_parse mode form ≡ ok payload
    → (handle_save environment_id server payload sync_after_save s).calls ≡ (
        if sync_after_save
          && is_ok (server.call (update_environment environment_id (whole payload)))
        then (s.calls ++ (update_environment environment_id (whole payload) ∷ []))
          ++ (sync_environment environment_id ∷ [])
        else s.calls ++ (update_environment environment_id (whole payload) ∷ []))
unfolding handle_save save_body
handle_save-calls environment_id server json_parse mode form payload sync_after_save s h =
    rw (without_empty_secrets-handle_submit json_parse mode form payload h)
      (elim (Result-cases (server.call (update_environment environment_id (whole payload)))) [
        | inl (m, r) ↦ elim (Bool-cases sync_after_save) [
          | inl b ↦ rw (r, b) refl
          | inr b ↦ rw (r, b) refl
        ]
        | inr (u, r) ↦ elim (Bool-cases sync_after_save) [
          | inl b ↦ elim (Result-cases (server.call (sync_environment environment_id))) [
            | inl (m, q) ↦ rw (r, b, q) refl
            | inr (v, q) ↦ rw (r, b, q) (load_environment-calls environment_id server _)
          ]
          | inr b ↦ rw (r, b) (load_environment-calls environment_id server _)
        ]
      ])
