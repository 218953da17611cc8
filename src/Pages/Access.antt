-- ===== src/Pages/Access.antt =====
-- frontend/src/pages/access.tsx: the roles' texts, the forms of the page and their handlers. What
-- `JSON.parse`, `JSON.stringify` and `Promise.all` gave are arguments.
mod Tests
pub mod Assigning
pub mod Providers
use ansible_aam.Prelude.{
  ℕ, zero, suc, ◌+◌, ◌-◌, ◌*◌, ◌≤◌, ◌<◌, Char, code, String, ◌≡◌, refl, sym, ap, ◌∙◌, ◌≢◌, ◌↔◌, ◌⊎◌,
  inl, inr, Bool, true, false, not, ◌&&◌, ◌||◌, Option, none, some, List, [], ◌∷◌, ◌++◌, map, arith,
  ◌==◌, eq_iff, eq_refl, ltb, leb, eqb, if◌then◌else◌, Bool-cases, Option-cases, or_else, is_some,
  length, select, some_of, every, find, take, drop, somes, length-append, select-append,
  length-select-le, length-somes-le, All, All-append, flat_map, length-map,
}
use ansible_aam.Prelude.Int.{ℤ, pos, negsuc, ◌+ℤ◌, ltb_ℤ, leb_ℤ, eqb_ℤ}
use ansible_aam.Prelude.Dict.{
  Dict, includes, keys, lookup, insert, remove, lookup-insert, lookup-remove,
}
use ansible_aam.Prelude.Text.{
  ◌⊕◌, is_empty, or_text, trim, is_blank, String-cases, trim_idem, trim-nil, is_empty-eq,
}
use ansible_aam.Prelude.Text.Numbers.{
  Number, nan, infinity, neg_infinity, int, is_finite, truthy_number, add, less, same_number,
  parse_int, show_nat, show, parse_int-show_nat,
}
use ansible_aam.Prelude.Result.{Result, ok, err, Result-cases}
use ansible_aam.Prelude.Action.{Action, ◌>>=◌, ◌>>◌, change, answer, after_catch}
use ansible_aam.Value.{Value}
use ansible_aam.Types.{
  AccessDirectory, AccessUser, AccessGroup, DirectoryProvider, EnvironmentSummary, CurrentUser,
  IdentityProviderWrite,
}

pub record RoleCopy : Type 0 where
  pub label : String
  pub help : String

abbrev copy : String → String → RoleCopy
copy label help = record { label = label; help = help }

abbrev pub role_copy : Dict RoleCopy
role_copy =
    (
      "admin",
      copy "System administrator" "Full control of this hub, every estate, access, and governance.",
    )
    ∷ (
      "auditor",
      copy "System auditor" "Can read every estate. Cannot change registrations, jobs, or access.",
    )
    ∷ (
      "user",
      copy "System user"
          "Can register estates and work on estates where they also have an environment role.",
    )
    ∷ (
      "authenticated",
      copy "Signed-in account"
          "Baseline for anyone who can sign in. This does not grant administration.",
    )
    ∷ (
      "environment-admin",
      copy "Environment administrator" "Manage one estate and decide who else can use that estate.",
    )
    ∷ (
      "environment-user",
      copy "Environment operator" "Sync and run jobs on one estate. Cannot change who has access.",
    )
    ∷ (
      "environment-auditor",
      copy "Environment auditor" "Read one estate. Cannot change it or run jobs.",
    )
    ∷ []

unfoldable pub role_label : String → String
unfolding lookup
role_label role = elim (lookup role role_copy) [ none ↦ role | some entry ↦ entry.label ]

-- The form that assigns a role.
pub record AssignForm : Type 0 where
  pub role : String
  pub scope : String
  pub environment_id : String
  pub principal_type : String
  pub principal_id : String

-- The form for an identity provider.
pub record ProviderForm : Type 0 where
  pub id : String
  pub name : String
  pub provider_type : String
  pub enabled : Bool
  pub allow_all_authenticated : Bool
  pub config_text : String
  pub secret : String

abbrev pub empty_provider : ProviderForm
empty_provider = record {
  id = "";
  name = "";
  provider_type = "oidc";
  enabled = false;
  allow_all_authenticated = false;
  config_text = "{\n  \"issuer_url\": \"\",\n  \"client_id\": \"\",\n  \"group_mappings\": []\n}";
  secret = "";
}

pub record UserCreate : Type 0 where
  pub username : String
  pub email : Option String
  pub password : String
  pub groups : List String

pub record PageState : Type 0 where
  pub directory : Option AccessDirectory
  pub environments : List EnvironmentSummary
  pub error : String
  pub notice : String
  pub username : String
  pub email : String
  pub password : String
  pub assign : AssignForm
  pub provider : ProviderForm

abbrev pub first_assign : AssignForm
first_assign = record {
  role = "environment-user";
  scope = "environment";
  environment_id = "";
  principal_type = "user";
  principal_id = "";
}

-- `actor?.system_roles?.includes("admin") ?? false`.
unfoldable pub is_system_admin : Option CurrentUser → Bool
is_system_admin none = false
is_system_admin (some actor) = includes (or_else actor.system_roles []) "admin"

-- The options of the form for a role.
unfoldable pub scope_options : Bool → List String
scope_options is_admin = if is_admin then "environment" ∷ "system" ∷ [] else "environment" ∷ []

unfoldable pub role_options : AccessDirectory → String → List String
role_options directory scope =
    if scope == "environment"
    then directory.environment_roles
    else select (λ item. not (item == "authenticated")) directory.system_roles

unfoldable pub principal_options : AccessDirectory → String → List String
principal_options directory principal_type =
    if principal_type == "group"
    then map (λ (group : AccessGroup). group.id) directory.groups
    else map (λ (user : AccessUser). user.id) directory.users

unfoldable pub choose_scope : String → AssignForm → AssignForm
choose_scope value form = record form {
  scope = value;
  role = if value == "environment" then "environment-user" else "user";
}

unfoldable pub choose_principal_type : String → AssignForm → AssignForm
choose_principal_type value form = record form { principal_type = value; principal_id = "" }

-- The body that assignRole sends.
unfoldable pub assignment_of : AssignForm → AssignForm
assignment_of form = record form {
  environment_id = if form.scope == "environment" then form.environment_id else "";
}

-- `setProvider` of the button that edits a provider.
unfoldable pub edit_provider : (Dict Value → String) → DirectoryProvider → ProviderForm
edit_provider stringify item = record {
  id = item.id;
  name = item.name;
  provider_type = item.provider_type;
  enabled = item.enabled;
  allow_all_authenticated = item.allow_all_authenticated;
  config_text = stringify item.config;
  secret = "";
}

unfoldable pub provider_body : ProviderForm → Dict Value → IdentityProviderWrite
provider_body provider config = record {
  name = provider.name;
  provider_type = provider.provider_type;
  enabled = provider.enabled;
  allow_all_authenticated = provider.allow_all_authenticated;
  config = config;
  secret = if is_empty provider.secret then none else some provider.secret;
}

pub record Server : Type 0 where
  pub reloaded : Result (AccessDirectory × List EnvironmentSummary)
  pub create_access_user : UserCreate → Result (Unit {0})
  pub create_assignment : AssignForm → Result (Unit {0})
  pub create_identity_provider : IdentityProviderWrite → Result (Unit {0})
  pub update_identity_provider : String → IdentityProviderWrite → Result (Unit {0})

abbrev fail : String → PageState → PageState
fail text s = record s { error = text }

abbrev pub clear : PageState → PageState
clear s = record s { error = ""; notice = "" }

module _ (server : Server) where
  unfoldable pub reload : Action PageState (Unit {0})
  reload = do
    (directory, environments) ← answer server.reloaded
    change (λ s. record s { directory = some directory; environments = environments })

  unfoldable pub create_user : PageState → PageState
  unfolding reload
  create_user s = after_catch fail (
      (do
        answer (
            server.create_access_user (record {
              username = s.username;
              email = if is_empty s.email then none else some s.email;
              password = s.password;
              groups = "users" ∷ [];
            }))
        change (λ t. record t {
          username = "";
          email = "";
          password = "";
          notice = "Local user created.";
        })
        reload)
        (clear s))

  unfoldable pub assign_role : PageState → PageState
  unfolding reload assignment_of
  assign_role s = after_catch fail (
      (do
        answer (server.create_assignment (assignment_of s.assign))
        change (λ t. record t { notice = "Role assigned." })
        reload)
        (clear s))

  -- `updateIdentityProvider` if the provider has an id, and `createIdentityProvider` if not.
  unfoldable pub send_provider : ProviderForm → Dict Value → Result (Unit {0})
  unfolding provider_body
  send_provider provider config =
      if is_empty provider.id
      then server.create_identity_provider (provider_body provider config)
      else server.update_identity_provider provider.id (provider_body provider config)

  -- What follows `JSON.parse`.
  abbrev pub save_parsed : Result (Dict Value) → PageState → PageState
  save_parsed (err message) s = record (clear s) { error = "Provider configuration must be JSON." }
  save_parsed (ok config) s = after_catch fail (
      (do
        answer (send_provider s.provider config)
        change (λ t. record t { provider = empty_provider; notice = "Identity provider saved." })
        reload)
        (clear s))

  -- `json_parse` is `JSON.parse`.
  unfoldable pub save_provider : (String → Result (Dict Value)) → PageState → PageState
  unfolding reload send_provider
  save_provider json_parse s = save_parsed (json_parse s.provider.config_text) s
