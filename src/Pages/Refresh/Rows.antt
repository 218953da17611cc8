-- ===== src/Pages/Refresh/Rows.antt =====
-- What saving a refresh interval sends, and which rows it changes.
use ansible_aam.Prelude.{
  ℕ, ◌≤◌, String, ◌≡◌, refl, sym, ap, ◌∙◌, ◌↔◌, inl, inr, Bool, true, false, some, [], ◌∷◌, arith,
  ◌==◌, if◌then◌else◌, Bool-cases,
}
use ansible_aam.Prelude.Int.{pos}
use ansible_aam.Prelude.Dict.{Dict, lookup, insert, lookup-insert}
use ansible_aam.Prelude.Text.Numbers.{Number, int, parse_int, show_nat, parse_int-show_nat}
use ansible_aam.Prelude.Result.{Result, ok, err}
use ansible_aam.Types.{EnvironmentSummary}
use ansible_aam.Pages.Refresh.{RefreshState, draft_of, is_out_of_range, after_answer, save_refresh}

in_range : (n : ℕ) → (is_out_of_range (int (pos n)) ≡ false) ↔ ((1 ≤ n) × (n ≤ 1440))
in_range n = ground arith

draft_of-typed :
    (environment : EnvironmentSummary) (state : RefreshState) (s : String)
    → lookup environment.id state.drafts ≡ some s
    → draft_of environment state ≡ s
unfolding draft_of
draft_of-typed environment state s h = rw h

nonempty : {A : Type 0} (b : Bool) (x : A) → ((if b then [] else x ∷ []) ≡ x ∷ []) ↔ (b ≡ false)
nonempty true x = (λ h. cc, λ h. cc)
nonempty false x = (λ h. refl, λ h. refl)

-- The same row in both.
abbrev pub SameRow : String → RefreshState → RefreshState → Type 0
SameRow id s t =
    (lookup id s.drafts ≡ lookup id t.drafts)
    × (lookup id s.row_error ≡ lookup id t.row_error)
    × (lookup id s.row_notice ≡ lookup id t.row_notice)

other :
    {V : Type 0} (k j : String) (v : V) (d : Dict V)
    → (k == j) ≡ false
    → lookup j (insert k v d) ≡ lookup j d
other k j v d h = lookup-insert k j v d ∙ rw h

after_answer-SameRow :
    (environment : EnvironmentSummary) (answer : Result EnvironmentSummary) (state : RefreshState)
    (id : String)
    → (environment.id == id) ≡ false
    → SameRow id (after_answer environment answer state) state
unfolding after_answer
after_answer-SameRow e (ok updated) state id h = (other _ id _ _ h, refl, other _ id _ _ h)
after_answer-SameRow e (err message) state id h = (refl, other _ id _ _ h, refl)

module _ (update_environment : String → Number → Result EnvironmentSummary) where
  calls-of :
      (environment : EnvironmentSummary) (state : RefreshState)
      → (save_refresh update_environment environment state).1 ≡ (
          if is_out_of_range (parse_int (draft_of environment state))
          then []
          else parse_int (draft_of environment state) ∷ [])
  unfolding save_refresh
  calls-of environment state =
      elim (Bool-cases (is_out_of_range (parse_int (draft_of environment state)))) [
        | inl e ↦ rw e
        | inr e ↦ rw e
      ]

  -- A whole number that is typed in a row is sent to the API just if it is from 1 to 1440.
  pub save_refresh-calls_iff :
      (environment : EnvironmentSummary) (state : RefreshState) (n : ℕ)
      → lookup environment.id state.drafts ≡ some (show_nat n)
      → ((save_refresh update_environment environment state).1 ≡ int (pos n) ∷ [])
        ↔ ((1 ≤ n) × (n ≤ 1440))
  save_refresh-calls_iff environment state n h =
      let minutes : parse_int (draft_of environment state) ≡ int (pos n) =
        ap parse_int (draft_of-typed environment state _ h) ∙ parse_int-show_nat n in
      let calls : (save_refresh update_environment environment state).1
          ≡ (if is_out_of_range (int (pos n)) then [] else int (pos n) ∷ []) =
        calls-of environment state ∙ ap (λ m. if is_out_of_range m then [] else m ∷ []) minutes in
      let (f, g) = nonempty (is_out_of_range (int (pos n))) (int (pos n)) in
      let (p, q) = in_range n in (λ e. p (f (sym calls ∙ e)), λ r. calls ∙ g (q r))

  -- Whatever is typed in a row and whatever the API answers: the draft, the error and the notice of
  -- every other row stay.
  pub save_refresh-SameRow :
      (environment : EnvironmentSummary) (state : RefreshState) (id : String)
      → (environment.id == id) ≡ false
      → SameRow id (save_refresh update_environment environment state).0 state
  unfolding save_refresh
  save_refresh-SameRow environment state id h =
      elim (Bool-cases (is_out_of_range (parse_int (draft_of environment state)))) [
        | inl e ↦ rw e (refl, other _ id _ _ h, other _ id _ _ h)
        | inr e ↦
            let (d, r, n) =
              after_answer-SameRow environment
                (update_environment environment.id (parse_int (draft_of environment state)))
                (record state {
                  saving_id = some environment.id;
                  row_error = insert environment.id "" state.row_error;
                  row_notice = insert environment.id "" state.row_notice;
                })
                id h in
            rw e (d, r ∙ other _ id _ _ h, n ∙ other _ id _ _ h)
      ]
