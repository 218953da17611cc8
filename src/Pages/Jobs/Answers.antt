-- ===== src/Pages/Jobs/Answers.antt =====
-- The calls of `load` of the jobs page, none of which is cancelled, and the order of their ends:
-- frontend/src/pages/jobs.tsx, lines 81-129. A `load` that a canceled job is followed by is that of the
-- page as it was when the button was clicked. (Left out: the end of the loading, the texts that say
-- which job is being or was canceled, and the calls for environments and approvals, which touch
-- neither the filters nor the response.)
pub mod Current
use ansible_aam.Prelude.{
  ℕ, zero, suc, String, ◌≡◌, refl, sym, ap, ◌∙◌, inl, inr, Bool, true, false, not, ◌&&◌, ◌||◌,
  Option, none, some, List, [], ◌∷◌, ◌++◌, arith, ◌==◌, eqb, if◌then◌else◌, Bool-cases,
  Option-cases, All, All-append,
}
use mathlib.Core.Path.{subst}
use ansible_aam.Types.{FleetJobsResponse}
use ansible_aam.Pages.Jobs.Page.{JobsQuery, PageState, query_of, opened}

-- A page; the actions under way that cancel a job, each with what the page's `load` asked for when its
-- button was clicked; and what the calls of `load` under way have asked for, oldest first.
pub record Board : Type 0 where
  pub page : PageState
  pub open page use *
  pub cancels : List JobsQuery
  pub in_flight : List JobsQuery

-- A filter is chosen; the timer or the button `Refresh` loads again; a job is to be canceled; the action
-- at a position is accepted, or refused; or the call at a position is answered, or fails.
pub data Event : Type 0 where
  choose_status choose_environment : String → Event
  refresh cancel : Event
  accepted : ℕ → Event
  refused : ℕ → String → Event
  answered : ℕ → Event
  failed : ℕ → String → Event

abbrev pub at : ℕ → List JobsQuery → Option JobsQuery
at n [] = none
at zero (q ∷ qs) = some q
at (suc n) (q ∷ qs) = at n qs

abbrev pub without : ℕ → List JobsQuery → List JobsQuery
without n [] = []
without zero (q ∷ qs) = qs
without (suc n) (q ∷ qs) = q ∷ without n qs

-- The effect that a new filter runs, up to its calls.
abbrev pub begin : PageState → PageState
begin s = record s { loading = true; error = none }

abbrev pub call : PageState → List JobsQuery → List JobsQuery → Board
call page cancels in_flight = record {
  page = page;
  cancels = cancels;
  in_flight = in_flight ++ (query_of page ∷ []);
}

abbrev pub fail : String → PageState → PageState
fail message s = record s { error = some message }

module _ (respond : JobsQuery → FleetJobsResponse) where
  unfoldable pub step : Board → Event → Board
  unfolding query_of
  step b (choose_status filter) =
      if b.status_filter == filter
      then b
      else call (begin (record b.page { status_filter = filter })) b.cancels b.in_flight
  step b (choose_environment filter) =
      if b.environment_filter == filter
      then b
      else call (begin (record b.page { environment_filter = filter })) b.cancels b.in_flight
  step b refresh = call b.page b.cancels b.in_flight
  step b cancel = record b {
    page = record b.page { error = none; message = none };
    cancels = b.cancels ++ (query_of b.page ∷ []);
  }
  step b (accepted n) = elim (at n b.cancels) [
    | none ↦ b
    | some q ↦ record b { cancels = without n b.cancels; in_flight = b.in_flight ++ (q ∷ []) }
  ]
  step b (refused n message) = elim (at n b.cancels) [
    | none ↦ b
    | some q ↦ record b { page = fail message b.page; cancels = without n b.cancels }
  ]
  step b (answered n) = elim (at n b.in_flight) [
    | none ↦ b
    | some q ↦ record b {
      page = record b.page { response = some (respond q) };
      in_flight = without n b.in_flight;
    }
  ]
  step b (failed n message) = elim (at n b.in_flight) [
    | none ↦ b
    | some q ↦ record b { page = fail message b.page; in_flight = without n b.in_flight }
  ]

  unfoldable pub run : Board → List Event → Board
  unfolding step
  run b [] = b
  run b (e ∷ es) = run (step b e) es

-- The page after its first effect.
unfoldable pub first_board : Option String → Option String → Option String → Board
unfolding opened query_of
first_board status environment source = call (begin (opened status environment source)) [] []

abbrev none_of : List JobsQuery → Bool
none_of [] = true
none_of (q ∷ qs) = false

-- The oldest call is the one that is answered or fails, and no filter is changed while an action that
-- cancels a job is under way.
abbrev pub is_orderly : Board → Event → Bool
is_orderly b (choose_status filter) = b.status_filter == filter || none_of b.cancels
is_orderly b (choose_environment filter) = b.environment_filter == filter || none_of b.cancels
is_orderly b (answered n) = eqb n 0 && not (none_of b.in_flight)
is_orderly b (failed n message) = eqb n 0 && not (none_of b.in_flight)
is_orderly b _ = true

unfoldable pub are_orderly : (JobsQuery → FleetJobsResponse) → Board → List Event → Bool
unfolding step
are_orderly respond b [] = true
are_orderly respond b (e ∷ es) = is_orderly b e && are_orderly respond (step respond b e) es

-- Whether the call that ended last has failed.
abbrev pub has_failed : Bool → List Event → Bool
has_failed b [] = b
has_failed b (answered n ∷ events) = has_failed false events
has_failed b (failed n message ∷ events) = has_failed true events
has_failed b (_ ∷ events) = has_failed b events

-- A call is not cancelled when a filter changes: from any page that waits for no call and no action, there are
-- events after which it waits for none, the filter of the status is `new`, and it shows the answer
-- to the filter `old`.
pub run-stale :
    (respond : JobsQuery → FleetJobsResponse) (page : PageState) (old new : String)
    → page.status_filter == old ≡ false
    → old == new ≡ false
    → (events : List Event) × ((run respond
          (record { page = page; cancels = []; in_flight = [] })
          events).in_flight
        ≡ [])
      × ((run respond (record { page = page; cancels = []; in_flight = [] }) events).status_filter
          ≡ new)
      × ((run respond (record { page = page; cancels = []; in_flight = [] }) events).response
          ≡ some (respond (query_of (record page { status_filter = old }))))
unfolding run step query_of
run-stale respond page old new h k =
    let events : List Event =
      choose_status old ∷ choose_status new ∷ answered 1 ∷ answered 0 ∷ [] in
    (events, rw (h, k) refl, rw (h, k) refl, rw (h, k) refl)
