-- ===== src/Pages/Jobs/Tests.antt =====
-- The theorems on the jobs page at a page with two choices of a filter.
use ansible_aam.Prelude.{
  ◌≡◌, refl, true, false, none, some, List, [], ◌∷◌, ◌==◌, if◌then◌else◌, or_else,
}
use ansible_aam.Prelude.Int.{pos}
use ansible_aam.Prelude.Text.Numbers.{Number, int}
use ansible_aam.Types.{FleetJobsResponse, FleetJobStats}
use ansible_aam.Pages.Jobs.Page.{JobsQuery, PageState, query_of, opened}
use ansible_aam.Pages.Jobs.Answers.{
  Board, Event, choose_status, refresh, cancel, accepted, refused, answered, failed, step, run,
  first_board, are_orderly, run-stale,
}
use ansible_aam.Pages.Jobs.Answers.Current.{run-in_order}

-- An answer that has its query in the number of the failed jobs.
abbrev stats : Number → FleetJobStats
stats count = record {
  environment_count = int (pos 1);
  running = int (pos 0);
  pending = int (pos 0);
  waiting = int (pos 0);
  failed = count;
  successful = int (pos 0);
  canceled = int (pos 0);
  error = int (pos 0);
  total = int (pos 0);
  by_environment = [];
}

abbrev respond : JobsQuery → FleetJobsResponse
respond query = record {
  jobs = [];
  stats = stats (if or_else query.status "" == "failed" then int (pos 5) else int (pos 0));
}

abbrev events : List Event
events =
    choose_status "failed"
    ∷ cancel
    ∷ cancel
    ∷ answered 0
    ∷ accepted 1
    ∷ refused 0 "gone"
    ∷ refresh
    ∷ failed 0 "timeout"
    ∷ answered 0
    ∷ answered 0
    ∷ []

abbrev last : Board
last = run respond (first_board none none none) events

waits_for_none : last.in_flight ≡ []
unfolding run step first_board opened
waits_for_none = refl

ends_in_order : are_orderly respond (first_board none none none) events ≡ true
unfolding are_orderly step first_board opened
ends_in_order = refl

run-in_order_example : last.response ≡ some (respond (query_of last.page))
run-in_order_example = run-in_order respond none none none events ends_in_order waits_for_none refl

abbrev page : PageState
page = opened none none none

page-filter : page.status_filter == "failed" ≡ false
unfolding opened
page-filter = refl

run-stale_example :
    (events : List Event) × ((run respond
        (record { page = page; cancels = []; in_flight = [] })
        events).in_flight
      ≡ [])
    × ((run respond (record { page = page; cancels = []; in_flight = [] }) events).status_filter
        ≡ "running")
    × ((run respond (record { page = page; cancels = []; in_flight = [] }) events).response
        ≡ some (respond (query_of (record page { status_filter = "failed" }))))
run-stale_example = run-stale respond page "failed" "running" page-filter refl
