-- ===== src/Pages/Activity/Tests.antt =====
-- The theorem on the activity page after a change of the selection.
use ansible_aam.Prelude.{String, ◌≡◌, refl, true, false, Option, none, List, [], ◌∷◌, or_else}
use ansible_aam.Types.{ActivityEvent}
use ansible_aam.Pages.Activity.{
  PageState, Request, Board, asked_environment, abort_all, restart, settle, opened, first_board,
  Step, select_environment, answered, canceled, done, next,
}
use ansible_aam.Pages.Activity.Fresh.{reaches-shown}

abbrev event : String → ActivityEvent
event environment_id = record {
  id = "1";
  kind = "sync";
  environment_id = environment_id;
  environment_name = "East";
  service = "controller";
  operation = "sync";
  target = "";
  status = "success";
  requested_by = "ada";
  summary = "";
  created_at = "";
  started_at = none;
  finished_at = none;
  details = [];
}

-- The API answers with one event of the environment.
abbrev OneEvent : Option String → List ActivityEvent → Type 0
OneEvent environment items = items ≡ event (or_else environment "any") ∷ []

abbrev stale : Request
stale = record { selected = "all"; aborted = true }

abbrev live : Request
live = record { selected = "east"; aborted = false }

abbrev selected_page : PageState
selected_page = record opened { selected_environment_id = "east"; loading = true; error = none }

abbrev shown_page : PageState
shown_page = record selected_page { items = event "east" ∷ []; loading = false }

-- The environment is selected, its request is answered, and the aborted one rejects.
abbrev selected_board : Board
selected_board = record { page = selected_page; requests = live ∷ (stale ∷ []) }

abbrev answered_board : Board
answered_board = record { page = shown_page; requests = stale ∷ [] }

abbrev last_board : Board
last_board = record { page = shown_page; requests = [] }

selects : Step OneEvent first_board selected_board
unfolding first_board restart abort_all
selects =
    select_environment (record opened { loading = true; error = none })
      (record { selected = "all"; aborted = false } ∷ []) "east" refl

answers : Step OneEvent selected_board answered_board
unfolding settle asked_environment
answers = answered selected_page [] (stale ∷ []) live (event "east" ∷ []) refl

cancels : Step OneEvent answered_board last_board
cancels = canceled shown_page [] [] stale refl

reaches-shown_example : OneEvent (asked_environment "east") (event "east" ∷ [])
reaches-shown_example =
    reaches-shown OneEvent last_board
      (next first_board selected_board last_board selects (
        next selected_board answered_board last_board answers
          (next answered_board last_board last_board cancels (done last_board))))
      refl refl
