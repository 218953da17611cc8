-- ===== src/Pages/Jobs.antt =====
-- frontend/src/pages/jobs.tsx, lines 48-66 and 111-153: cancelling a job, its link, approvals, and
-- the list that is shown; and frontend/src/api.ts, lines 178-193: the path of the list.
mod Tests
pub mod Page
pub mod Answers
use ansible_aam.Prelude.{
  ℕ, ◌+◌, Char, code, String, Bool, false, not, ◌&&◌, ◌||◌, Option, none, some, List, [], ◌∷◌, ◌==◌,
  eqb, if◌then◌else◌, or_else, select,
}
use ansible_aam.Prelude.Dict.{includes}
use ansible_aam.Prelude.Text.{is_empty}
use ansible_aam.Prelude.Text.Search.{contains, starts_with}
use ansible_aam.Types.{
  ControllerJob, OrchestratorApproval, RemoteActionName, cancel_job, cancel_workflow_job,
  cancel_execution, RemoteActionRequest,
}

-- `job.source ?? "controller"`.
abbrev pub source_of : ControllerJob → String
source_of job = or_else job.source "controller"

module _ (to_lower_case : String → String) where
  unfoldable pub cancel_action : ControllerJob → RemoteActionName
  unfolding contains
  cancel_action job =
      if source_of job == "orchestrator"
      then cancel_execution
      else if contains (to_lower_case (or_else job.job_type "")) "workflow"
      then cancel_workflow_job
      else cancel_job

  unfoldable pub can_cancel : ControllerJob → Bool
  can_cancel job =
      includes ("running" ∷ "pending" ∷ "waiting" ∷ "new" ∷ []) (to_lower_case job.status)
      && (source_of job == "controller" || source_of job == "orchestrator")

  -- The request of cancelJob.
  unfoldable pub cancel_request : ControllerJob → RemoteActionRequest
  unfolding cancel_action
  cancel_request job = record {
    environment_id = job.environment_id;
    action = cancel_action job;
    target_id = job.id;
    target_name = some job.name;
    payload = none;
    path_override = none;
  }

-- A letter of either case, by the code of the small one.
abbrev is_letter : ℕ → Char → Bool
is_letter small c = eqb (code c) small || eqb (code c + 32) small

-- `/^:\/\//` and `/^s?:\/\//i`.
unfoldable pub after_http : String → Bool
unfolding starts_with
after_http String.[] = false
after_http (String.◌∷◌ c s) =
    if is_letter 115 c then starts_with s "://" else starts_with (String.◌∷◌ c s) "://"

-- `/^https?:\/\//i`.
unfoldable pub has_http_scheme : String → Bool
unfolding after_http
has_http_scheme (String.◌∷◌ a (String.◌∷◌ b (String.◌∷◌ c (String.◌∷◌ d s)))) =
    is_letter 104 a && is_letter 116 b && is_letter 116 c && is_letter 112 d && after_http s
has_http_scheme _ = false

unfoldable pub resolve_job_url : ControllerJob → Option String
unfolding has_http_scheme
resolve_job_url job = elim job.url [
  | none ↦ none
  | some url ↦ if not (is_empty url) && has_http_scheme url then some url else none
]

-- The approvals that stay after one is decided.
unfoldable pub remaining_approvals :
    OrchestratorApproval → List OrchestratorApproval → List OrchestratorApproval
remaining_approvals approval current =
    select
      (λ item. not (item.id == approval.id) || not (item.environment_id == approval.environment_id))
      current

unfoldable pub shown_jobs : String → List ControllerJob → List ControllerJob
shown_jobs source_filter jobs =
    select (λ job. source_filter == "all" || source_of job == source_filter) jobs

-- The service whose API takes an action that cancels, as `_ACTION_PATH_PREFIXES` of
-- backend/app/services/connectors.py has their paths.
abbrev pub canceled_by : RemoteActionName → Option String
canceled_by cancel_job = some "controller"
canceled_by cancel_workflow_job = some "controller"
canceled_by cancel_execution = some "orchestrator"
canceled_by _ = none
