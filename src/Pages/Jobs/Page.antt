-- ===== src/Pages/Jobs/Page.antt =====
-- frontend/src/pages/jobs.tsx, lines 69-157: the state of the jobs page, its loading, and its
-- handlers.
use ansible_aam.Prelude.{
  ℕ, String, Bool, true, Option, none, some, List, [], ◌∷◌, ◌==◌, if◌then◌else◌, or_else,
}
use ansible_aam.Prelude.Text.{◌⊕◌, or_text}
use ansible_aam.Prelude.Result.{Result, ok, err}
use ansible_aam.Prelude.Action.{Action, ◌>>=◌, ◌>>◌, change, answer, attempt, after_catch}
use ansible_aam.Value.{str}
use ansible_aam.Types.{
  ControllerJob, EnvironmentSummary, FleetJobsResponse, OrchestratorApproval, RemoteActionRequest,
  decide_approval,
}
use ansible_aam.Pages.Jobs.{source_of, cancel_request, remaining_approvals}

-- The options of `api.jobs`.
pub record JobsQuery : Type 0 where
  pub status : Option String
  pub environment_id : Option String
  pub limit_per_environment : ℕ

pub data Decision : Type 0 where
  approve reject : Decision

abbrev pub decision_text : Decision → String
decision_text approve = "approve"
decision_text reject = "reject"

pub record PageState : Type 0 where
  pub response : Option FleetJobsResponse
  pub environments : List EnvironmentSummary
  pub status_filter : String
  pub environment_filter : String
  pub source_filter : String
  pub loading : Bool
  pub error : Option String
  pub message : Option String
  pub canceling_id : Option String
  pub approvals : List OrchestratorApproval
  pub deciding_id : Option String

-- The page when it is opened, over the parameters of its location.
unfoldable pub opened : Option String → Option String → Option String → PageState
opened status environment source = record {
  response = none;
  environments = [];
  status_filter = or_text (or_else status "") "active";
  environment_filter = or_text (or_else environment "") "all";
  source_filter = or_text (or_else source "") "all";
  loading = true;
  error = none;
  message = none;
  canceling_id = none;
  approvals = [];
  deciding_id = none;
}

-- What `load` asks for.
unfoldable pub query_of : PageState → JobsQuery
query_of s = record {
  status = if s.status_filter == "all" then none else some s.status_filter;
  environment_id = if s.environment_filter == "all" then none else some s.environment_filter;
  limit_per_environment = 30;
}

pub record Server : Type 0 where
  pub jobs : JobsQuery → Result FleetJobsResponse
  pub environments : Result (List EnvironmentSummary)
  pub approvals : Result (List OrchestratorApproval)
  pub execute_action : RemoteActionRequest → Result (Unit {0})

abbrev fail : String → PageState → PageState
fail text s = record s { error = some text }

-- `.then(setApprovals).catch(() => undefined)`.
abbrev set_approvals : Result (List OrchestratorApproval) → PageState → PageState
set_approvals (err message) s = s
set_approvals (ok approvals) s = record s { approvals = approvals }

module _ (server : Server) where
  -- `load` of the page as it was drawn.
  unfoldable pub load : PageState → Action PageState (Unit {0})
  unfolding query_of
  load drawn = do
    response ← answer (server.jobs (query_of drawn))
    change (λ s. record s { response = some response })

  unfoldable pub handle_cancel :
      (to_lower_case : String → String) → ControllerJob → PageState → PageState
  unfolding load cancel_request ◌⊕◌
  handle_cancel to_lower_case job s =
      attempt
        (do
          answer (server.execute_action (cancel_request to_lower_case job))
          change (λ t. record t {
            message =
                some
                  ("Requested cancel for " ⊕ (job.name ⊕ (" on " ⊕ (job.environment_name ⊕ "."))));
          })
          load s)
        fail (λ t. record t { canceling_id = none })
        (record s {
          canceling_id = some (source_of job ⊕ (":" ⊕ (job.environment_id ⊕ (":" ⊕ job.id))));
          error = none;
          message = none;
        })

  unfoldable pub handle_decision : OrchestratorApproval → Decision → PageState → PageState
  unfolding remaining_approvals ◌⊕◌
  handle_decision approval decision s =
      attempt
        (do
          answer (
              server.execute_action (record {
                environment_id = approval.environment_id;
                action = decide_approval;
                target_id = approval.id;
                target_name = some approval.name;
                payload = some (("decision", str (decision_text decision)) ∷ []);
                path_override = none;
              }))
          change (λ t. record t {
            approvals = remaining_approvals approval t.approvals;
            message = some (
                (elim decision [ approve ↦ "Approved" | reject ↦ "Rejected" ])
                ⊕ (" " ⊕ (approval.name ⊕ (" on " ⊕ (approval.environment_name ⊕ ".")))));
          }))
        fail (λ t. record t { deciding_id = none })
        (record s {
          deciding_id =
              some
                (approval.environment_id ⊕ (":" ⊕ (approval.id ⊕ (":" ⊕ decision_text decision))));
          error = none;
          message = none;
        })

  -- One round of the timer.
  unfoldable pub poll : PageState → PageState
  unfolding load
  poll s = set_approvals server.approvals (after_catch fail (load s s))
