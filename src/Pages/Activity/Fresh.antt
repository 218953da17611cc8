-- ===== src/Pages/Activity/Fresh.antt =====
-- The items of the activity page are those of its selection.
use ansible_aam.Prelude.{
  ◌+◌, String, ◌≡◌, refl, ◌⊎◌, inl, inr, true, false, Option, none, List, [], ◌∷◌, ◌++◌, arith,
  Bool-cases, is_some, All,
}
use ansible_aam.Prelude.Result.{ok, err}
use mathlib.Core.Path.{subst}
use ansible_aam.Types.{ActivityEvent}
use ansible_aam.Pages.Activity.{
  PageState, Request, Board, asked_environment, abort_all, restart, settle, opened, first_board,
  Step, select_environment, reload, answered, rejected, canceled, Reaches, done, next,
}

module _ (Answers : Option String → List ActivityEvent → Type 0) where
  -- A request that was not aborted is for the selection, and the items are for it too unless the page
  -- loads or shows an error.
  record IsFresh (b : Board) : Type 0 where
    requests :
        All
          (λ (r : Request). (r.aborted ≡ true) ⊎ (r.selected ≡ b.selected_environment_id))
          b.requests
    shown :
        (b.loading ≡ true)
        ⊎ ((is_some b.error ≡ true) ⊎ Answers (asked_environment b.selected_environment_id) b.items)

  abbrev Fits : String → Request → Type 0
  Fits selected r = (r.aborted ≡ true) ⊎ (r.selected ≡ selected)

  abort_all-Fits :
      (selected : String) (requests : List Request) → All (Fits selected) (abort_all requests)
  unfolding abort_all
  abort_all-Fits selected [] = tt
  abort_all-Fits selected (r ∷ requests) = (inl refl, abort_all-Fits selected requests)

  All-middle :
      (selected : String) (before after : List Request) (r : Request)
      → All (Fits selected) (before ++ (r ∷ after))
      → Fits selected r × All (Fits selected) (before ++ after)
  All-middle selected [] after r h = h
  All-middle selected (b ∷ before) after r h =
      let (f, rest) = All-middle selected before after r h.1 in (f, (h.0, rest))

  restart-IsFresh : (page : PageState) (requests : List Request) → IsFresh (restart page requests)
  unfolding restart
  restart-IsFresh page requests = record {
    requests = (inr refl, abort_all-Fits page.selected_environment_id requests);
    shown = inl refl;
  }

  answered-IsFresh :
      (page : PageState) (requests : List Request) (r : Request) (items : List ActivityEvent)
      → Answers (asked_environment r.selected) items
      → Fits page.selected_environment_id r
      → IsFresh (record { page = page; requests = requests })
      → IsFresh (record { page = settle r (ok items) page; requests = requests })
  unfolding settle
  answered-IsFresh page requests r items q f h = elim (Bool-cases r.aborted) [
    | inl a ↦ rw a h
    | inr a ↦
        let same : r.selected ≡ page.selected_environment_id = ground arith in
        rw a (record {
          requests = h.requests;
          shown = inr (inr (subst (λ selected. Answers (asked_environment selected) items) same q));
        })
  ]

  rejected-IsFresh :
      (page : PageState) (requests : List Request) (r : Request) (message : String)
      → IsFresh (record { page = page; requests = requests })
      → IsFresh (record { page = settle r (err message) page; requests = requests })
  unfolding settle
  rejected-IsFresh page requests r message h = elim (Bool-cases r.aborted) [
    | inl a ↦ rw a h
    | inr a ↦ rw a (record { requests = h.requests; shown = inr (inl refl) })
  ]

  -- A request that settled is taken off the list.
  settled-IsFresh :
      (page : PageState) (before after : List Request) (r : Request)
      → IsFresh (record { page = page; requests = before ++ (r ∷ after) })
      → Fits page.selected_environment_id r
        × IsFresh (record { page = page; requests = before ++ after })
  settled-IsFresh page before after r h =
      let (f, rest) = All-middle page.selected_environment_id before after r h.requests in
      (f, record { requests = rest; shown = h.shown })

  step-IsFresh : (a b : Board) → Step Answers a b → IsFresh a → IsFresh b
  step-IsFresh _ _ (select_environment page requests id changed) h =
      restart-IsFresh (record page { selected_environment_id = id }) requests
  step-IsFresh _ _ (reload page requests) h =
      restart-IsFresh (record page { reload_token = page.reload_token + 1 }) requests
  step-IsFresh _ _ (answered page before after r items q) h =
      let (f, rest) = settled-IsFresh page before after r h in
      answered-IsFresh page (before ++ after) r items q f rest
  step-IsFresh _ _ (rejected page before after r message) h =
      rejected-IsFresh page (before ++ after) r message (settled-IsFresh page before after r h).1
  step-IsFresh _ _ (canceled page before after r q) h = (settled-IsFresh page before after r h).1

  Reaches-IsFresh : (a b : Board) → Reaches Answers a b → IsFresh a → IsFresh b
  Reaches-IsFresh _ _ (done b) h = h
  Reaches-IsFresh _ _ (next a b c step rest) h = Reaches-IsFresh b c rest (step-IsFresh a b step h)

-- Whatever the user selects or reloads while requests are under way, and in whatever order they
-- settle, a page that neither loads nor shows an error has items that the API answered for the
-- environment that is selected.
pub reaches-shown :
    (Answers : Option String → List ActivityEvent → Type 0) (b : Board)
    → Reaches Answers first_board b
    → b.loading ≡ false
    → b.error ≡ none
    → Answers (asked_environment b.selected_environment_id) b.items
unfolding first_board
reaches-shown Answers b r loaded e =
    elim (Reaches-IsFresh Answers first_board b r (restart-IsFresh Answers opened [])).shown [
      | inl h ↦ absurd (ground arith)
      | inr (inl h) ↦ absurd (ground arith)
      | inr (inr h) ↦ h
    ]
