-- ===== src/Pages/Jobs/Answers/Current.antt =====
-- While the calls of `load` of the jobs page (frontend/src/pages/jobs.tsx) end in order, what is under way
-- asks for what the filters ask for.
use ansible_aam.Prelude.{
  ℕ, zero, suc, String, ◌≡◌, refl, ap, inl, inr, Bool, true, false, not, Option, some, List, [],
  ◌∷◌, ◌++◌, arith, ◌==◌, Bool-cases, Option-cases, All, All-append,
}
use mathlib.Core.Path.{subst}
use ansible_aam.Types.{FleetJobsResponse}
use ansible_aam.Pages.Jobs.Page.{JobsQuery, PageState, query_of, opened}
use ansible_aam.Pages.Jobs.Answers.{
  Board, Event, choose_status, choose_environment, refresh, cancel, accepted, refused, answered,
  failed, at, without, begin, call, step, run, first_board, none_of, is_orderly, are_orderly,
  has_failed,
}

abbrev failed_after : Bool → Event → Bool
failed_after b event = has_failed b (event ∷ [])

-- The last of some calls asks for `q`, or there is none and `P` holds.
abbrev Ends : JobsQuery → Type 0 → List JobsQuery → Type 0
Ends q P [] = P
Ends q P (x ∷ xs) = Ends q (x ≡ q) xs

Ends-append : (q : JobsQuery) (P : Type 0) (xs : List JobsQuery) → Ends q P (xs ++ (q ∷ []))
Ends-append q P [] = refl
Ends-append q P (x ∷ xs) = Ends-append q (x ≡ q) xs

Ends-map :
    {P Q : Type 0} (q : JobsQuery) (xs : List JobsQuery) → (P → Q) → Ends q P xs → Ends q Q xs
Ends-map q [] f h = f h
Ends-map q (x ∷ xs) f h = h

-- What the actions under way will ask for is what the filters ask for, and so is what the last call asks
-- for; where there is no call and the last one did not fail, the response is the answer to it.
record IsCurrent (respond : JobsQuery → FleetJobsResponse) (b : Board) (f : Bool) : Type 0 where
  cancels : All (λ q. q ≡ query_of b.page) b.cancels
  calls :
      Ends (query_of b.page) (f ≡ false → b.response ≡ some (respond (query_of b.page))) b.in_flight

module _ (q : JobsQuery) where
  All-without :
      (n : ℕ) (xs : List JobsQuery) → All (λ x. x ≡ q) xs → All (λ x. x ≡ q) (without n xs)
  All-without n [] h = h
  All-without zero (x ∷ xs) (p, h) = h
  All-without (suc n) (x ∷ xs) (p, h) = (p, All-without n xs h)

  at-All :
      (n : ℕ) (xs : List JobsQuery) (x : JobsQuery) → All (λ x. x ≡ q) xs → at n xs ≡ some x → x ≡ q
  at-All n [] x h e = absurd cc
  at-All zero (y ∷ xs) x (p, h) e = cc
  at-All (suc n) (y ∷ xs) x (p, h) e = at-All n xs x h e

has_failed-cons :
    (f : Bool) (e : Event) (es : List Event)
    → has_failed (failed_after f e) es ≡ has_failed f (e ∷ es)
has_failed-cons f (choose_status filter) es = refl
has_failed-cons f (choose_environment filter) es = refl
has_failed-cons f refresh es = refl
has_failed-cons f cancel es = refl
has_failed-cons f (accepted n) es = refl
has_failed-cons f (refused n message) es = refl
has_failed-cons f (answered n) es = refl
has_failed-cons f (failed n message) es = refl

module _ (respond : JobsQuery → FleetJobsResponse) where
  call-IsCurrent :
      (page : PageState) (cancels in_flight : List JobsQuery) (f : Bool)
      → All (λ q. q ≡ query_of page) cancels
      → IsCurrent respond (call page cancels in_flight) f
  call-IsCurrent page cancels in_flight f h = record {
    cancels = h;
    calls = Ends-append (query_of page) _ in_flight;
  }

  answered-IsCurrent :
      (page : PageState) (cancels in_flight : List JobsQuery) (f : Bool)
      → not (none_of in_flight) ≡ true
      → IsCurrent respond (record { page = page; cancels = cancels; in_flight = in_flight }) f
      → IsCurrent respond
          (step respond
            (record { page = page; cancels = cancels; in_flight = in_flight })
            (answered 0))
          false
  unfolding step query_of
  answered-IsCurrent page cancels [] f o h = absurd cc
  answered-IsCurrent page cancels (q ∷ qs) f o h = record {
    cancels = h.cancels;
    calls = Ends-map (query_of page) qs (λ e d. ap (λ x. some (respond x)) e) h.calls;
  }

  failed-IsCurrent :
      (page : PageState) (cancels in_flight : List JobsQuery) (f : Bool) (message : String)
      → not (none_of in_flight) ≡ true
      → IsCurrent respond (record { page = page; cancels = cancels; in_flight = in_flight }) f
      → IsCurrent respond
          (step respond
            (record { page = page; cancels = cancels; in_flight = in_flight })
            (failed 0 message))
          true
  unfolding step query_of
  failed-IsCurrent page cancels [] f message o h = absurd cc
  failed-IsCurrent page cancels (q ∷ qs) f message o h = record {
    cancels = h.cancels;
    calls = Ends-map (query_of page) qs (λ e d. absurd cc) h.calls;
  }

  -- A new filter where no action is under way.
  chosen-IsCurrent :
      (page : PageState) (cancels in_flight : List JobsQuery) (f : Bool)
      → none_of cancels ≡ true
      → IsCurrent respond (call page cancels in_flight) f
  chosen-IsCurrent page [] in_flight f o = call-IsCurrent page [] in_flight f tt
  chosen-IsCurrent page (q ∷ cancels) in_flight f o = absurd cc

  accepted-IsCurrent :
      (b : Board) (f : Bool) (n : ℕ)
      → IsCurrent respond b f
      → IsCurrent respond (step respond b (accepted n)) f
  unfolding step
  accepted-IsCurrent b f n h = elim (Option-cases (at n b.cancels)) [
    | inl e ↦ rw (step, e) h
    | inr (q, e) ↦
        rw (step, e)
          (record {
            cancels = All-without (query_of b.page) n b.cancels h.cancels;
            calls =
                rw (at-All (query_of b.page) n b.cancels q h.cancels e)
                  (Ends-append (query_of b.page) _ b.in_flight);
          })
  ]

  refused-IsCurrent :
      (b : Board) (f : Bool) (n : ℕ) (message : String)
      → IsCurrent respond b f
      → IsCurrent respond (step respond b (refused n message)) f
  unfolding step query_of
  refused-IsCurrent b f n message h = elim (Option-cases (at n b.cancels)) [
    | inl e ↦ rw (step, e) h
    | inr (q, e) ↦
        rw (step, e)
          (record {
            cancels = All-without (query_of b.page) n b.cancels h.cancels;
            calls = h.calls;
          })
  ]

  step-IsCurrent :
      (b : Board) (f : Bool) (event : Event)
      → is_orderly b event ≡ true
      → IsCurrent respond b f
      → IsCurrent respond (step respond b event) (failed_after f event)
  unfolding step query_of
  step-IsCurrent b f (choose_status filter) o h = elim (Bool-cases (b.status_filter == filter)) [
    | inl e ↦ rw e h
    | inr e ↦ rw e (
        chosen-IsCurrent (begin (record b.page { status_filter = filter })) b.cancels b.in_flight f
          (rw e at o))
  ]
  step-IsCurrent b f (choose_environment filter) o h =
      elim (Bool-cases (b.environment_filter == filter)) [
        | inl e ↦ rw e h
        | inr e ↦ rw e (
            chosen-IsCurrent (begin (record b.page { environment_filter = filter })) b.cancels
              b.in_flight f (rw e at o))
      ]
  step-IsCurrent b f refresh o h = call-IsCurrent b.page b.cancels b.in_flight f h.cancels
  step-IsCurrent b f cancel o h = record {
    cancels = All-append (λ q. q ≡ query_of b.page) b.cancels _ h.cancels (refl, tt);
    calls = h.calls;
  }
  step-IsCurrent b f (accepted n) o h = accepted-IsCurrent b f n h
  step-IsCurrent b f (refused n message) o h = refused-IsCurrent b f n message h
  step-IsCurrent b f (answered zero) o h = answered-IsCurrent b.page b.cancels b.in_flight f o h
  step-IsCurrent b f (answered (suc n)) o h = absurd (ground (arith, o))
  step-IsCurrent b f (failed zero message) o h =
      failed-IsCurrent b.page b.cancels b.in_flight f message o h
  step-IsCurrent b f (failed (suc n) message) o h = absurd (ground (arith, o))

  run-IsCurrent :
      (events : List Event) (b : Board) (f : Bool)
      → are_orderly respond b events ≡ true
      → IsCurrent respond b f
      → IsCurrent respond (run respond b events) (has_failed f events)
  unfolding run are_orderly
  run-IsCurrent [] b f o h = h
  run-IsCurrent (e ∷ es) b f o h =
      subst (λ g. IsCurrent respond (run respond (step respond b e) es) g) (has_failed-cons f e es)
        (run-IsCurrent es (step respond b e) (failed_after f e) (ground (arith, o))
          (step-IsCurrent b f e (ground (arith, o)) h))

-- While the calls of `load` end in the order in which they were made, and no filter is changed while an
-- action that cancels a job waits for its answer, the page that waits for no call shows the answer to
-- what its filters ask for, unless the call that ended last has failed: whatever filters were chosen,
-- however often the page was refreshed, jobs were canceled, or earlier calls and actions failed.
pub run-in_order :
    (respond : JobsQuery → FleetJobsResponse) (status environment source : Option String)
    (events : List Event)
    → are_orderly respond (first_board status environment source) events ≡ true
    → (run respond (first_board status environment source) events).in_flight ≡ []
    → has_failed false events ≡ false
    → (run respond (first_board status environment source) events).response
      ≡ some (respond (query_of (run respond (first_board status environment source) events).page))
unfolding first_board
run-in_order respond status environment source events o e k =
    let h =
      run-IsCurrent respond events (first_board status environment source) false o
        (call-IsCurrent respond (begin (opened status environment source)) [] [] false tt) in
    subst
      (λ qs.
        Ends (query_of (run respond (first_board status environment source) events).page)
          (has_failed false events ≡ false
            → (run respond (first_board status environment source) events).response
              ≡ some (
                  respond
                    (query_of (run respond (first_board status environment source) events).page)))
          qs)
      e h.calls k
