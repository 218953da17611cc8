-- ===== src/Pages/Access/Assigning.antt =====
-- The form of the access page that assigns a role.
use ansible_aam.Prelude.{
  String, ◌≡◌, refl, ap, ◌∙◌, ◌⊎◌, inl, inr, Bool, true, false, ◌&&◌, List, [], ◌∷◌, arith, ◌==◌,
  eq_iff, Bool-cases, select,
}
use ansible_aam.Prelude.Dict.{includes}
use ansible_aam.Types.{AccessDirectory}
use ansible_aam.Pages.Access.{
  AssignForm, first_assign, scope_options, role_options, principal_options, choose_scope,
  choose_principal_type, assignment_of,
}

pub data Choice : Type 0 where
  scope role environment principal_type principal : String → Choice

unfoldable pub choose : AssignForm → Choice → AssignForm
unfolding choose_scope choose_principal_type
choose form (scope value) = choose_scope value form
choose form (role value) = record form { role = value }
choose form (environment value) = record form { environment_id = value }
choose form (principal_type value) = choose_principal_type value form
choose form (principal value) = record form { principal_id = value }

unfoldable pub run : AssignForm → List Choice → AssignForm
unfolding choose
run form [] = form
run form (c ∷ cs) = run (choose form c) cs

-- The two roles that the form sets by itself are among those of the directory.
pub record HasDefaultRoles (directory : AccessDirectory) : Type 0 where
  pub environment : includes directory.environment_roles "environment-user" ≡ true
  pub system : includes directory.system_roles "user" ≡ true

module _ (directory : AccessDirectory) (environment_ids : List String) (is_admin : Bool) where
  -- The options that the form's fields offer.
  abbrev pub is_offered : AssignForm → Choice → Bool
  is_offered form (scope value) = includes (scope_options is_admin) value
  is_offered form (role value) = includes (role_options directory form.scope) value
  is_offered form (environment value) = includes ("" ∷ environment_ids) value
  is_offered form (principal_type value) = includes ("user" ∷ "group" ∷ []) value
  is_offered form (principal value) =
      includes ("" ∷ principal_options directory form.principal_type) value

  abbrev pub all_offered : AssignForm → List Choice → Bool
  all_offered form [] = true
  all_offered form (c ∷ cs) = is_offered form c && all_offered (choose form c) cs

  -- Each field has a value that the form offers for it.
  pub record IsOffered (form : AssignForm) : Type 0 where
    pub scope : includes (scope_options is_admin) form.scope ≡ true
    pub role : includes (role_options directory form.scope) form.role ≡ true
    pub environment : includes ("" ∷ environment_ids) form.environment_id ≡ true
    pub principal :
        includes ("" ∷ principal_options directory form.principal_type) form.principal_id ≡ true
    pub hub : form.scope == "environment" ≡ false → is_admin ≡ true

  includes-select :
      (p : String → Bool) (xs : List String) (x : String)
      → includes (select p xs) x ≡ includes xs x && p x
  includes-select p [] x = refl
  includes-select p (y ∷ xs) x = ground (arith, eq_iff y x, ap p, includes-select p xs x)

  choose-IsOffered :
      (form : AssignForm) (c : Choice)
      → HasDefaultRoles directory
      → is_offered form c ≡ true
      → IsOffered form
      → IsOffered (choose form c)
  unfolding choose choose_scope choose_principal_type role_options principal_options scope_options
  choose-IsOffered form (scope value) d o h = elim (Bool-cases (value == "environment")) [
    | inl e ↦ rw e (record {
      scope = o;
      role = rw e d.environment;
      environment = h.environment;
      principal = h.principal;
      hub = λ c. absurd (ground (arith, c, e));
    })
    | inr e ↦ rw e (record {
      scope = o;
      role = rw e (includes-select _ directory.system_roles "user" ∙ ground (arith, d.system));
      environment = h.environment;
      principal = h.principal;
      hub = λ c. ground (arith, o, e, eq_iff "environment" value, eq_iff value "environment");
    })
  ]
  choose-IsOffered form (role value) d o h = ground (arith, o, h)
  choose-IsOffered form (environment value) d o h = ground (arith, o, h)
  choose-IsOffered form (principal_type value) d o h = ground (arith, o, h)
  choose-IsOffered form (principal value) d o h = ground (arith, o, h)

  choices-IsOffered :
      (form : AssignForm) (choices : List Choice)
      → HasDefaultRoles directory
      → all_offered form choices ≡ true
      → IsOffered form
      → IsOffered (run form choices)
  unfolding run
  choices-IsOffered form [] d o h = h
  choices-IsOffered form (c ∷ cs) d o h =
      choices-IsOffered (choose form c) cs d (ground (arith, o))
        (choose-IsOffered form c d (ground (arith, o)) h)

  first_assign-IsOffered : HasDefaultRoles directory → IsOffered first_assign
  unfolding scope_options role_options
  first_assign-IsOffered d = record {
    scope = ground arith;
    role = d.environment;
    environment = refl;
    principal = refl;
    hub = λ c. absurd (ground (arith, c));
  }

-- When the directory has the two roles that the form sets by itself, every assignment that a user
-- can make of the offered options is one that the form offers as it then stands: the role is one of
-- its scope, the person or the group is one of the chosen kind or none, and a role of the whole hub is
-- for an administrator alone; and only an assignment for one estate is sent with the id of an estate.
pub run-IsOffered :
    (directory : AccessDirectory) (environment_ids : List String) (is_admin : Bool)
    (choices : List Choice)
    → HasDefaultRoles directory
    → all_offered directory environment_ids is_admin first_assign choices ≡ true
    → IsOffered directory environment_ids is_admin (run first_assign choices)
      × (((run first_assign choices).scope ≡ "environment")
          ⊎ ((assignment_of (run first_assign choices)).environment_id ≡ ""))
unfolding assignment_of
run-IsOffered directory environment_ids is_admin choices d o = (
  choices-IsOffered directory environment_ids is_admin first_assign choices d o
      (first_assign-IsOffered directory environment_ids is_admin d),
  elim (Bool-cases ((run first_assign choices).scope == "environment")) [
    | inl e ↦ inl (ground (arith, eq_iff (run first_assign choices).scope "environment", e))
    | inr e ↦ inr (rw e refl)
  ],
)
