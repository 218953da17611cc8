-- ===== src/Pages/Session.antt =====
-- frontend/src/auth.tsx: the session and the gate before the pages, and frontend/src/pages/login.tsx,
-- lines 21-90: the options of the sign-in page, its handlers, and where it leads.
mod Tests
use ansible_aam.Prelude.{
  ℕ, zero, suc, ◌+◌, ◌-◌, ◌*◌, ◌≤◌, ◌<◌, Char, code, String, ◌≡◌, refl, sym, ap, ◌∙◌, ◌≢◌, ◌↔◌, ◌⊎◌,
  inl, inr, Bool, true, false, not, ◌&&◌, ◌||◌, Option, none, some, List, [], ◌∷◌, ◌++◌, map, arith,
  ◌==◌, eq_iff, eq_refl, ltb, leb, eqb, if◌then◌else◌, Bool-cases, Option-cases, or_else, is_some,
  length, select, some_of, every, find, take, drop, somes, length-append, select-append,
  length-select-le, length-somes-le, All, All-append, flat_map, length-map,
}
use ansible_aam.Prelude.Int.{ℤ, pos, negsuc, ◌+ℤ◌, ltb_ℤ, leb_ℤ, eqb_ℤ}
use ansible_aam.Prelude.Dict.{
  Dict, includes, keys, lookup, insert, remove, lookup-insert, lookup-remove,
}
use ansible_aam.Prelude.Text.{
  ◌⊕◌, is_empty, or_text, trim, is_blank, String-cases, trim_idem, trim-nil, is_empty-eq,
}
use ansible_aam.Prelude.Text.Numbers.{
  Number, nan, infinity, neg_infinity, int, is_finite, truthy_number, add, less, same_number,
  parse_int, show_nat, show, parse_int-show_nat,
}
use ansible_aam.Prelude.Result.{Result, ok, err, Result-cases}
use ansible_aam.Prelude.Action.{Action, ◌>>=◌, ◌>>◌, change, answer, attempt, after_catch}
use ansible_aam.Types.{CurrentUser, AuthProvider}

-- AuthProvider.
pub record Session : Type 0 where
  pub user : Option CurrentUser
  pub ready : Bool

-- `location.pathname` and `location.search`, and `from` of `location.state`.
pub record Location : Type 0 where
  pub path : String
  pub search : String
  pub from : Option String

-- The state of the sign-in page.
pub record LoginState : Type 0 where
  pub providers : List AuthProvider
  pub local_enabled : Bool
  pub username : String
  pub password : String
  pub directory_provider : String
  pub directory_user : String
  pub directory_password : String
  pub busy : Bool
  pub error : String

-- The session, the location and the sign-in page.
pub record App : Type 0 where
  pub session : Session
  pub open session use *
  pub location : Location
  pub login : LoginState

-- What RequireAuth and the sign-in page show: the page, or a redirection.
pub data Shown : Type 0 where
  page : Shown
  navigate : Location → Shown

unfoldable pub require_auth : Option CurrentUser → Location → Shown
require_auth (some user) location = page
require_auth none location =
    navigate (record { path = "/login"; search = ""; from = some location.path })

-- Where the sign-in page leads a user who is signed in.
unfoldable pub login_redirect : Option String → String
login_redirect from =
    if not (is_empty (or_else from "")) && not (or_else from "" == "/login")
    then or_else from ""
    else "/"

unfoldable pub show_login : Option CurrentUser → Location → Shown
unfolding login_redirect
show_login (some user) location =
    navigate (record { path = login_redirect location.from; search = ""; from = none })
show_login none location = page

-- The redirections that follow a change; the page of the sign-in is at `/login`, and all other pages
-- are behind the gate. (The router takes "/login/" and other cases of the letters for "/login" too: the paths
-- here are as the links write them.)
unfoldable pub shown_at : Option CurrentUser → Location → Shown
unfolding require_auth show_login
shown_at user location =
    if location.path == "/login" then show_login user location else require_auth user location

abbrev pub go_to : Shown → Location → Location
go_to page location = location
go_to (navigate location) _ = location

abbrev is_directory : AuthProvider → Bool
is_directory item = item.provider_type == "ldap" || item.provider_type == "ad"

-- The effect of the sign-in page.
unfoldable pub set_providers : Result (Bool × List AuthProvider) → LoginState → LoginState
set_providers (err message) s = record s { error = "The sign-in options could not be loaded." }
set_providers (ok (local_login_enabled, providers)) s = record s {
  providers = providers;
  local_enabled = local_login_enabled;
  directory_provider = elim (find is_directory providers) [
    | none ↦ s.directory_provider
    | some directory ↦ directory.id
  ];
}

unfoldable pub oidc_providers : List AuthProvider → List AuthProvider
oidc_providers = select (λ (item : AuthProvider). item.provider_type == "oidc")

unfoldable pub directory_providers : List AuthProvider → List AuthProvider
directory_providers = select is_directory

-- The answers of the API: `me` is `null` without a session.
pub record Server : Type 0 where
  pub me : Result (Option CurrentUser)
  pub login : String → String → Result (Unit {0})
  pub external_login : String → String → String → Result (Unit {0})
  pub logout : Result (Unit {0})

abbrev set_user : Option CurrentUser → App → App
set_user user s = record s { session = record s.session { user = user } }

abbrev set_login : LoginState → App → App
set_login login s = record s { login = login }

module _ (server : Server) where
  unfoldable pub refresh : Action App (Unit {0})
  refresh = do next ← answer server.me; change (set_user next)

  -- The first effect of AuthProvider.
  unfoldable pub start_session : App → App
  unfolding refresh
  start_session s =
      attempt refresh (λ _. set_user none)
        (λ t. record t { session = record t.session { ready = true } }) s

  unfoldable pub logout : Action App (Unit {0})
  logout = do answer server.logout; change (set_user none)

  -- The part that the two handlers share.
  unfoldable pub submit : Result (Unit {0}) → App → App
  unfolding refresh
  submit signed_in s =
      attempt (answer signed_in >> refresh)
        (λ text t. set_login (record t.login { error = text }) t)
        (λ t. set_login (record t.login { busy = false }) t)
        (set_login (record s.login { busy = true; error = "" }) s)

  unfoldable pub submit_local : App → App
  unfolding submit
  submit_local s = submit (server.login s.login.username s.login.password) s

  unfoldable pub submit_directory : App → App
  unfolding submit
  submit_directory s =
      submit
        (server.external_login s.login.directory_provider s.login.directory_user
          s.login.directory_password)
        s

-- The location after the redirections.
unfoldable pub settle : App → App
unfolding shown_at
settle s = record s { location = go_to (shown_at s.session.user s.location) s.location }

-- The session guards the pages: without a user, what a location shows is the page of the sign-in, or a
-- redirection to it.
pub shown_at-guarded :
    (location : Location)
    → ((shown_at none location ≡ page) × (location.path ≡ "/login"))
      ⊎ ((location.path ≢ "/login")
          × (shown_at none location
              ≡ navigate (record { path = "/login"; search = ""; from = some location.path })))
unfolding shown_at require_auth show_login
shown_at-guarded location = elim (Bool-cases (location.path == "/login")) [
  | inl e ↦ rw e (inl (refl, ground (arith, eq_iff location.path "/login")))
  | inr e ↦ rw e (inr (ground (arith, eq_iff location.path "/login"), refl))
]

-- Signing in on the way to a page.
login_redirect-path :
    (path : String)
    → is_empty path ≡ false
    → path == "/login" ≡ false
    → login_redirect (some path) ≡ path
unfolding login_redirect
login_redirect-path path e p = rw (e, p) refl

-- A user who opens a page without a session and then signs in, with an account of the hub or through a
-- directory, is led back to the path of the page, where the gate shows the page. The search part of
-- the location is lost.
pub submit-returns :
    (server : Server) (s : App) (path query : String) (from : Option String) (user : CurrentUser)
    → is_empty path ≡ false
    → path == "/login" ≡ false
    → s.user ≡ none
    → s.location ≡ record { path = path; search = query; from = from }
    → server.me ≡ ok (some user)
    → ((settle (submit server (ok tt) (settle s))).location
        ≡ record { path = path; search = ""; from = none })
      × (shown_at
            (settle (submit server (ok tt) (settle s))).user
            (record { path = path; search = ""; from = none })
          ≡ page)
unfolding settle shown_at require_auth show_login submit refresh
submit-returns server s path query from user e p u l me = (
  rw (u, l, p, me)
      (ap (λ j. record { path = j; search = ""; from = none }) (login_redirect-path path e p)),
  rw (u, l, p, me) refl,
)
