-- ===== src/Pages/Session/Tests.antt =====
-- The theorems on the session, the charts and the small pages at concrete states.
use ansible_aam.Prelude.{◌≡◌, refl, true, false, none, some, []}
use ansible_aam.Prelude.Result.{ok, err}
use ansible_aam.Types.{CurrentUser}
use ansible_aam.Pages.Session.{
  Server, App, Location, page, shown_at, settle, submit, submit-returns,
}

abbrev ada : CurrentUser
ada = record {
  id = some "u1";
  username = "ada";
  email = none;
  roles = [];
  groups = [];
  system_roles = none;
  environment_roles = none;
  visible_environment_ids = none;
  is_builtin = none;
  auth_source = none;
}

abbrev server : Server
server = record {
  me = ok (some ada);
  login = λ _ _. ok tt;
  external_login = λ _ _ _. err "no directory";
  logout = ok tt;
}

abbrev jobs : Location
jobs = record { path = "/jobs"; search = "?status=failed"; from = none }

abbrev app : App
app = record {
  session = record { user = none; ready = true };
  location = jobs;
  login = record {
    providers = [];
    local_enabled = true;
    username = "ada";
    password = "secret";
    directory_provider = "";
    directory_user = "";
    directory_password = "";
    busy = false;
    error = "";
  };
}

submit-returns_example :
    ((settle (submit server (ok tt) (settle app))).location
      ≡ record { path = "/jobs"; search = ""; from = none })
    × (shown_at
          (settle (submit server (ok tt) (settle app))).user
          (record { path = "/jobs"; search = ""; from = none })
        ≡ page)
submit-returns_example =
    submit-returns server app "/jobs" "?status=failed" none ada refl refl refl refl refl
