-- ===== src/Pages/Profile.antt =====
-- frontend/src/pages/account.tsx, lines 25-31 and 97-122: the change of the password.
use ansible_aam.Prelude.{
  String, ◌≡◌, ◌≢◌, refl, ◌⊎◌, inl, inr, Bool, true, false, not, Option, none, some, List, [], ◌∷◌,
  ◌++◌, arith, ◌==◌, eq_iff, if◌then◌else◌, Bool-cases, or_else,
}
use ansible_aam.Prelude.Text.{is_empty}
use ansible_aam.Prelude.Result.{Result, ok, err, Result-cases}
use ansible_aam.Prelude.Action.{change, ◌>>◌, attempt}
use ansible_aam.Types.{CurrentUser}

-- `updates` are the passwords that the API was asked to set, each with the user's id.
pub record PageState : Type 0 where
  pub next_password : String
  pub confirm_password : String
  pub message : String
  pub error : String
  pub busy : Bool
  pub updates : List (String × String)

-- A user's id, where it is not empty.
abbrev pub user_id : Option CurrentUser → Option String
user_id none = none
user_id (some user) = if is_empty (or_else user.id "") then none else user.id

abbrev send_password :
    (String → String → Result (Unit {0}))
    → String
    → String
    → PageState
    → Result (Unit {0}) × PageState
send_password server id password s =
    (server id password, record s { updates = s.updates ++ ((id, password) ∷ []) })

-- `server` answers to an id and a password.
unfoldable pub submit_password :
    (String → String → Result (Unit {0})) → Option String → PageState → PageState
submit_password server none s = record s { error = "This session cannot change a password." }
submit_password server (some id) s =
    if not (s.next_password == s.confirm_password)
    then record s { error = "The passwords do not match."; message = "" }
    else attempt
        (do
          send_password server id s.next_password
          change (λ t. record t {
            next_password = "";
            confirm_password = "";
            message = "Password updated.";
          }))
        (λ text t. record t { error = text }) (λ t. record t { busy = false })
        (record s { busy = true; error = ""; message = "" })

-- What the page says of an answer, and its error.
abbrev pub notice : Result (Unit {0}) → String
notice (ok done) = "Password updated."
notice (err message) = ""

abbrev pub complaint : Result (Unit {0}) → String
complaint (ok done) = ""
complaint (err message) = message

-- The change for a user with an id.
submit_password-some :
    (server : String → String → Result (Unit {0})) (id : String) (s : PageState)
    → s.busy ≡ false
    → ((submit_password server (some id) s).busy ≡ false)
      × (((s.next_password ≢ s.confirm_password)
            × ((submit_password server (some id) s).updates ≡ s.updates)
            × ((submit_password server (some id) s).message ≡ "")
            × ((submit_password server (some id) s).error ≡ "The passwords do not match."))
          ⊎ ((s.next_password ≡ s.confirm_password)
              × ((submit_password server (some id) s).updates
                  ≡ s.updates ++ ((id, s.next_password) ∷ []))
              × ((submit_password server (some id) s).message ≡ notice (server id s.next_password))
              × ((submit_password server (some id) s).error
                  ≡ complaint (server id s.next_password))))
unfolding submit_password
submit_password-some server id s b = elim (Bool-cases (s.next_password == s.confirm_password)) [
  | inl e ↦
      let same : s.next_password ≡ s.confirm_password =
        (eq_iff s.next_password s.confirm_password).0 e in
      elim (Result-cases (server id s.next_password)) [
        | inl (text, r) ↦ rw (e, r) (refl, inr (same, refl, refl, refl))
        | inr (u, r) ↦ rw (e, r) (refl, inr (same, refl, refl, refl))
      ]
  | inr e ↦
      let differ : s.next_password ≢ s.confirm_password =
        λ h. ground (arith, h, e, eq_iff s.next_password s.confirm_password) in
      rw e (b, inl (differ, refl, refl, refl))
]

-- On a page with no request under way: for a user with an id, a password is sent exactly when it was typed twice the same, and whatever the
-- page said before: it then says that the password was updated if and only if the API accepted this one,
-- and has the error of the API if not; two different passwords leave it with an error and nothing said.
-- Without an id nothing but the error changes. No request stays under way.
pub submit_password_lem :
    (server : String → String → Result (Unit {0})) (user : Option String) (s : PageState)
    → s.busy ≡ false
    → ((submit_password server user s).busy ≡ false)
      × (((user ≡ none)
            × (submit_password server user s
                ≡ record s { error = "This session cannot change a password." }))
          ⊎ ((id : String) × (user ≡ some id)
              × (((s.next_password ≢ s.confirm_password)
                    × ((submit_password server user s).updates ≡ s.updates)
                    × ((submit_password server user s).message ≡ "")
                    × ((submit_password server user s).error ≡ "The passwords do not match."))
                  ⊎ ((s.next_password ≡ s.confirm_password)
                      × ((submit_password server user s).updates
                          ≡ s.updates ++ ((id, s.next_password) ∷ []))
                      × ((submit_password server user s).message
                          ≡ notice (server id s.next_password))
                      × ((submit_password server user s).error
                          ≡ complaint (server id s.next_password))))))
unfolding submit_password
submit_password_lem server none s b = (b, inl (refl, refl))
submit_password_lem server (some id) s b =
    let h = submit_password-some server id s b in (h.0, inr (id, refl, h.1))
