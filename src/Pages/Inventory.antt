-- ===== src/Pages/Inventory.antt =====
-- frontend/src/pages/search.tsx, lines 16-42: the state of the page for a search, and a search; and
-- frontend/src/api.ts, line 167: its path.
use ansible_aam.Prelude.{
  ◌≤◌, String, ◌≡◌, refl, ◌⊎◌, is_some, inl, inr, Bool, true, false, Option, none, some, List, [],
  ◌∷◌, ◌++◌, arith, ltb, if◌then◌else◌, Bool-cases, All, All-append,
}
use ansible_aam.Prelude.Text.{◌⊕◌, trim, trim_idem}
use ansible_aam.Prelude.Result.{Result, ok, err, Result-cases}
use ansible_aam.Prelude.Action.{change, ◌>>=◌, attempt}
use ansible_aam.Prelude.Text.Search.{text_length}
use ansible_aam.Prelude.Text.Uri.{encode_uri_component}
use ansible_aam.Types.{SearchResult}

-- `queries` are the texts that the API was asked for.
pub record PageState : Type 0 where
  pub query : String
  pub results : List SearchResult
  pub searched : Bool
  pub searching : Bool
  pub error : Option String
  pub queries : List String

unfoldable pub search_path : String → String
unfolding encode_uri_component ◌⊕◌
search_path q = "/search?q=" ⊕ encode_uri_component q

-- `api.search`, over the answer for a path.
abbrev pub fetch_results :
    (String → Result (List SearchResult))
    → String
    → PageState
    → Result (List SearchResult) × PageState
fetch_results server q s = (server (search_path q), record s { queries = s.queries ++ (q ∷ []) })

unfoldable pub on_submit : (String → Result (List SearchResult)) → PageState → PageState
unfolding trim search_path
on_submit server s =
    if ltb (text_length (trim s.query)) 2
    then record s {
      error = some "Enter at least two characters to search.";
      searched = true;
      results = [];
    }
    else attempt
        (do value ← fetch_results server (trim s.query); change (λ t. record t { results = value }))
        (λ text t. record t { error = some text }) (λ t. record t { searching = false })
        (record s { error = none; searched = true; searching = true })

-- A text that a search sends: without white space at its ends and of two characters at least.
pub record IsQuery (q : String) : Type 0 where
  pub is_trimmed : trim q ≡ q
  pub is_long : 2 ≤ text_length q

abbrev pub is_short : PageState → Bool
is_short s = ltb (text_length (trim s.query)) 2

-- What a search that is sent leaves of the results.
abbrev pub found : Result (List SearchResult) → List SearchResult → List SearchResult
found (ok value) old = value
found (err message) old = old

-- On a page that has no search under way and has sent no other texts: every text that a search sends is
-- trimmed and has at least two characters. A search that is too short
-- sends none, shows no results and has an error; any other sends its text once, and shows the results
-- that the API gave, or the old ones if it failed. No search stays under way.
pub on_submit-IsQuery :
    (server : String → Result (List SearchResult)) (s : PageState)
    → All IsQuery s.queries
    → s.searching ≡ false
    → All IsQuery (on_submit server s).queries
      × ((on_submit server s).searched ≡ true)
      × ((on_submit server s).searching ≡ false)
      × (((is_short s ≡ true)
            × ((on_submit server s).queries ≡ s.queries)
            × ((on_submit server s).results ≡ [])
            × (is_some (on_submit server s).error ≡ true))
          ⊎ ((is_short s ≡ false)
              × ((on_submit server s).queries ≡ s.queries ++ (trim s.query ∷ []))
              × ((on_submit server s).results
                  ≡ found (server (search_path (trim s.query))) s.results)))
unfolding on_submit
on_submit-IsQuery server s h idle = elim (Bool-cases (ltb (text_length (trim s.query)) 2)) [
  | inl e ↦ rw e (h, refl, idle, inl (refl, refl, refl, refl))
  | inr e ↦
      let sent : All IsQuery (s.queries ++ (trim s.query ∷ [])) =
        All-append IsQuery s.queries (trim s.query ∷ []) h
          (record { is_trimmed = trim_idem s.query; is_long = ground (arith, e) }, tt) in
      elim (Result-cases (server (search_path (trim s.query)))) [
        | inl (m, r) ↦ rw (e, r) (sent, refl, refl, inr (refl, refl, refl))
        | inr (v, r) ↦ rw (e, r) (sent, refl, refl, inr (refl, refl, refl))
      ]
]
