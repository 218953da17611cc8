-- ===== src/Pages/Access/Tests.antt =====
-- The theorems on the access page at a small directory.
use ansible_aam.Prelude.{
  String, ◌≡◌, refl, ◌⊎◌, true, false, none, some, List, [], ◌∷◌, ◌==◌, if◌then◌else◌,
}
use ansible_aam.Prelude.Dict.{Dict}
use ansible_aam.Prelude.Result.{is_ok, Result, ok, err}
use ansible_aam.Value.{Value, str}
use ansible_aam.Types.{AccessDirectory, DirectoryProvider}
use ansible_aam.Pages.Access.{
  PageState, Server, first_assign, assignment_of, empty_provider, edit_provider, save_provider,
  role_options, scope_options, principal_options,
}
use ansible_aam.Pages.Access.Assigning.{
  Choice, scope, role, principal_type, principal, run, choose, IsOffered, run-IsOffered,
  all_offered,
}
use ansible_aam.Pages.Access.Providers.{error_text, same_update, edit-save_provider}

abbrev directory : AccessDirectory
directory = record {
  users =
      record {
        id = "u1";
        username = "ada";
        email = none;
        is_builtin = false;
        is_active = true;
        source = "local";
        groups = [];
      }
      ∷ [];
  groups = record { id = "g1"; name = "admins"; description = ""; is_builtin = true } ∷ [];
  assignments = [];
  providers = [];
  system_roles = "admin" ∷ "user" ∷ "authenticated" ∷ [];
  environment_roles = "environment-admin" ∷ "environment-user" ∷ [];
}

abbrev choices : List Choice
choices = principal_type "group" ∷ principal "g1" ∷ scope "system" ∷ role "admin" ∷ []

choices-offered : all_offered directory ("e1" ∷ []) true first_assign choices ≡ true
unfolding choose role_options scope_options principal_options
choices-offered = refl

run-IsOffered_example :
    IsOffered directory ("e1" ∷ []) true (run first_assign choices)
    × (((run first_assign choices).scope ≡ "environment")
        ⊎ ((assignment_of (run first_assign choices)).environment_id ≡ ""))
run-IsOffered_example =
    run-IsOffered directory ("e1" ∷ []) true choices (record { environment = refl; system = refl })
      choices-offered

abbrev item : DirectoryProvider
item = record {
  provider = record { id = "i1"; name = "SSO"; provider_type = "oidc"; enabled = true };
  allow_all_authenticated = false;
  config = ("issuer_url", str "https://sso") ∷ [];
  has_secret = true;
}

abbrev json_parse : String → Result (Dict Value)
json_parse s =
    if s == "{issuer}" then ok (("issuer_url", str "https://sso") ∷ []) else err "Unexpected token"

abbrev stringify : Dict Value → String
stringify d = elim d [ [] ↦ "{}" | e ∷ es ↦ "{issuer}" ]

abbrev server : Server
server = record {
  reloaded = ok (directory, []);
  create_access_user = λ _. ok tt;
  create_assignment = λ _. ok tt;
  create_identity_provider = λ _. err "exists";
  update_identity_provider = λ _ _. ok tt;
}

abbrev page : PageState
page = record {
  directory = some directory;
  environments = [];
  error = "";
  notice = "";
  username = "";
  email = "";
  password = "";
  assign = first_assign;
  provider = empty_provider;
}

edit-save_provider_example :
    ((save_provider server json_parse
        (record page { provider = edit_provider stringify item })).error
      ≡ (if is_ok (same_update server item)
          then error_text server.reloaded
          else error_text (same_update server item)))
    × ((save_provider server json_parse
          (record page { provider = edit_provider stringify item })).provider
        ≡ (if is_ok (same_update server item)
            then empty_provider
            else edit_provider stringify item))
edit-save_provider_example = edit-save_provider server json_parse stringify item page refl refl
