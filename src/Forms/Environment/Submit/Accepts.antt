-- ===== src/Forms/Environment/Submit/Accepts.antt =====
-- When handleSubmit of the environment form sends a request, and what the request then holds.
use ansible_aam.Prelude.{
  String, ◌≡◌, refl, ap, ◌∙◌, ◌↔◌, ◌⊎◌, inl, inr, Bool, true, false, not, ◌&&◌, ◌||◌, none,
  if◌then◌else◌, is_some,
}
use ansible_aam.Prelude.Dict.{Dict}
use ansible_aam.Prelude.Text.{is_empty, trim, is_blank}
use ansible_aam.Prelude.Result.{Result, ok, err, ◌>>=◌, ◌>>◌, throw_if}
use ansible_aam.Value.{Value}
use ansible_aam.Types.{
  EnvironmentMutationPayload, EnvironmentAuthMode, oauth2, service_account, header_passthrough,
}
use ansible_aam.Forms.Environment.{
  Mode, create, edit, FormState, parse_object_field, validate_credential_state,
}
use ansible_aam.Forms.Environment.Submit.{filled, is_orchestrator, payload_of, handle_submit}

-- The URL that the product of the form needs.
abbrev pub required_url : FormState → String
required_url form = if is_orchestrator form then form.orchestrator_url else form.gateway_url

-- A new environment has a token, or for OAuth2 a client and its secret; a proxy's header needs none.
abbrev pub HasCredentials : Mode → EnvironmentAuthMode → String → String → String → Type 0
HasCredentials edit _ _ _ _ = Unit
HasCredentials create header_passthrough _ _ _ = Unit
HasCredentials create service_account _ _ access_token = is_blank access_token ≡ false
HasCredentials create oauth2 client_id client_secret access_token =
    (is_blank access_token ≡ false)
    ⊎ ((is_blank client_id ≡ false) × (is_blank client_secret ≡ false))

-- The form can be sent, with the three objects that its JSON fields hold.
pub record IsComplete (json_parse : String → Result Value) (mode : Mode) (form : FormState)
    (labels extra_capabilities service_paths : Dict Value) : Type 0 where
  pub credentials :
      HasCredentials mode form.auth_mode form.client_id form.client_secret form.access_token
  pub labels_parse : parse_object_field json_parse form.labels "Labels" ≡ ok labels
  pub extra_parse :
      parse_object_field json_parse form.extra_capabilities "Additional capabilities"
      ≡ ok extra_capabilities
  pub paths_parse :
      parse_object_field json_parse form.service_paths "Service path overrides" ≡ ok service_paths
  pub name_filled : is_blank form.name ≡ false
  pub slug_filled : is_blank form.slug ≡ false
  pub url_filled : is_blank (required_url form) ≡ false

oauth2_test :
    (i s t : Bool)
    → ((t && not (not i && not s)) ≡ false) ↔ ((t ≡ false) ⊎ ((i ≡ false) × (s ≡ false)))
oauth2_test true true true = (λ h. cc, λ h. elim h [ inl e ↦ cc | inr (a, b) ↦ cc ])
oauth2_test true false true = (λ h. cc, λ h. elim h [ inl e ↦ cc | inr (a, b) ↦ cc ])
oauth2_test false true true = (λ h. cc, λ h. elim h [ inl e ↦ cc | inr (a, b) ↦ cc ])
oauth2_test false false true = (λ h. inr (refl, refl), λ h. refl)
oauth2_test i s false = (λ h. inl refl, λ h. refl)

throw_if-ok_iff :
    (test : Bool) (message : String) → (throw_if test message ≡ ok tt) ↔ (test ≡ false)
throw_if-ok_iff true message = (λ h. cc, λ h. cc)
throw_if-ok_iff false message = (λ h. refl, λ h. refl)

validate-ok_iff :
    (mode : Mode) (auth : EnvironmentAuthMode) (client_id client_secret access_token : String)
    → (validate_credential_state mode auth client_id client_secret access_token ≡ ok tt)
      ↔ HasCredentials mode auth client_id client_secret access_token
unfolding validate_credential_state
validate-ok_iff edit auth i s t = (λ h. tt, λ h. refl)
validate-ok_iff create header_passthrough i s t = (λ h. tt, λ h. refl)
validate-ok_iff create service_account i s t = throw_if-ok_iff _ _
validate-ok_iff create oauth2 i s t =
    let (f, g) = throw_if-ok_iff (is_blank t && not (not (is_blank i) && not (is_blank s))) _ in
    let (f', g') = oauth2_test (is_blank i) (is_blank s) (is_blank t) in
    (λ h. f' (f h), λ h. g (g' h))

is_some-filled : (s : String) → is_some (filled s) ≡ not (is_empty s)
is_some-filled String.[] = refl
is_some-filled (String.◌∷◌ c s) = refl

-- The two tests of the URLs, by the URL that the product needs.
url_tests :
    (o : Bool) (orchestrator_url gateway_url : String)
    → ((o && not (is_some (if o then filled orchestrator_url else none)) ≡ false)
        × (not o && not (is_some (if o then none else filled gateway_url)) ≡ false))
      ↔ (is_empty (if o then orchestrator_url else gateway_url) ≡ false)
url_tests true String.[] g = (λ (a, b). cc, λ h. cc)
url_tests true (String.◌∷◌ c s) g = (λ h. refl, λ h. (refl, refl))
url_tests false o String.[] = (λ (a, b). cc, λ h. cc)
url_tests false o (String.◌∷◌ c s) = (λ h. refl, λ h. (refl, refl))

url_tests_trimmed :
    (o : Bool) (orchestrator_url gateway_url : String)
    → ((o && not (is_some (if o then filled (trim orchestrator_url) else none)) ≡ false)
        × (not o && not (is_some (if o then none else filled (trim gateway_url))) ≡ false))
      ↔ (is_blank (if o then orchestrator_url else gateway_url) ≡ false)
url_tests_trimmed true u g = url_tests true (trim u) (trim g)
url_tests_trimmed false u g = url_tests false (trim u) (trim g)

or-false : (a b : Bool) → ((a || b) ≡ false) ↔ ((a ≡ false) × (b ≡ false))
or-false true b = (λ h. cc, λ (p, q). cc)
or-false false b = (λ h. (refl, h), λ (p, q). q)

-- Four computations and three tests in a row, by what each returned.
gates :
    {D : Type 0} {P : Type 0} (m : Result (Unit {0})) (m₁ m₂ m₃ : Result D) (t₁ t₂ t₃ : Bool)
    (s₁ s₂ s₃ : String) (f : D → D → D → P) (p : P)
    → ((m
          >> (m₁ >>= λ a. m₂ >>= λ b.
              m₃ >>= λ c. throw_if t₁ s₁ >> (throw_if t₂ s₂ >> (throw_if t₃ s₃ >> ok (f a b c)))))
        ≡ ok p)
      ↔ ((a : D) × (b : D) × (c : D) × ((m ≡ ok tt) × (m₁ ≡ ok a) × (m₂ ≡ ok b) × (m₃ ≡ ok c))
          × ((t₁ ≡ false) × (t₂ ≡ false) × (t₃ ≡ false))
          × (f a b c ≡ p))
gates (err e) m₁ m₂ m₃ t₁ t₂ t₃ s₁ s₂ s₃ f p = (λ h. cc, λ (a, b, c, (h, h₁, h₂, h₃), _, _). cc)
gates (ok x) (err e) m₂ m₃ t₁ t₂ t₃ s₁ s₂ s₃ f p = (λ h. cc, λ (a, b, c, (h, h₁, h₂, h₃), _, _). cc)
gates (ok x) (ok a') (err e) m₃ t₁ t₂ t₃ s₁ s₂ s₃ f p =
    (λ h. cc, λ (a, b, c, (h, h₁, h₂, h₃), _, _). cc)
gates (ok x) (ok a') (ok b') (err e) t₁ t₂ t₃ s₁ s₂ s₃ f p =
    (λ h. cc, λ (a, b, c, (h, h₁, h₂, h₃), _, _). cc)
gates (ok x) (ok a') (ok b') (ok c') true t₂ t₃ s₁ s₂ s₃ f p =
    (λ h. cc, λ (a, b, c, _, (h, h₁, h₂), _). cc)
gates (ok x) (ok a') (ok b') (ok c') false true t₃ s₁ s₂ s₃ f p =
    (λ h. cc, λ (a, b, c, _, (h, h₁, h₂), _). cc)
gates (ok x) (ok a') (ok b') (ok c') false false true s₁ s₂ s₃ f p =
    (λ h. cc, λ (a, b, c, _, (h, h₁, h₂), _). cc)
gates (ok x) (ok a') (ok b') (ok c') false false false s₁ s₂ s₃ f p = (
  λ h. (a', b', c', (refl, refl, refl, refl), (refl, refl, refl), cc),
  λ (a, b, c, (h, h₁, h₂, h₃), _, e).
      let ea : a' ≡ a = cc in
      let eb : b' ≡ b = cc in let ec : c' ≡ c = cc in ap ok ((λ i. f (ea i) (eb i) (ec i)) ∙ e),
)

-- handleSubmit sends a request just if the credentials are there, the three JSON fields hold objects
-- or are blank, and the name, the slug and the URL of the product are not blank; the request is then
-- that of the form and the three objects.
pub handle_submit-eq-ok_iff :
    (json_parse : String → Result Value) (mode : Mode) (form : FormState)
    (payload : EnvironmentMutationPayload)
    → (handle_submit json_parse mode form ≡ ok payload) ↔ (
        (labels : Dict Value) × (extra_capabilities : Dict Value) × (service_paths : Dict Value)
        × IsComplete json_parse mode form labels extra_capabilities service_paths
        × (payload_of form labels extra_capabilities service_paths ≡ payload))
unfolding handle_submit
handle_submit-eq-ok_iff json_parse mode form payload =
    let (open_gates, close_gates) =
      gates
        (validate_credential_state mode form.auth_mode form.client_id form.client_secret
          form.access_token)
        (parse_object_field json_parse form.labels "Labels")
        (parse_object_field json_parse form.extra_capabilities "Additional capabilities")
        (parse_object_field json_parse form.service_paths "Service path overrides")
        (is_blank form.name || is_blank form.slug)
        (is_orchestrator form
          && not (
              is_some (if is_orchestrator form then filled (trim form.orchestrator_url) else none)))
        (not (is_orchestrator form)
          && not (is_some (if is_orchestrator form then none else filled (trim form.gateway_url))))
        "Name and slug are required." "Name, slug, and Orchestrator URL are required."
        "Name, slug, and gateway URL are required." (payload_of form) payload in
    let (valid, valid') =
      validate-ok_iff mode form.auth_mode form.client_id form.client_secret form.access_token in
    let (named, named') = or-false (is_blank form.name) (is_blank form.slug) in
    let (url, url') =
      url_tests_trimmed (is_orchestrator form) form.orchestrator_url form.gateway_url in
    (
      λ h.
          let (labels, extra, paths, (h, h₁, h₂, h₃), (t₁, t₂, t₃), e) = open_gates h in
          let (name, slug) = named t₁ in
          (
            labels,
            extra,
            paths,
            record {
              credentials = valid h;
              labels_parse = h₁;
              extra_parse = h₂;
              paths_parse = h₃;
              name_filled = name;
              slug_filled = slug;
              url_filled = url (t₂, t₃);
            },
            e,
          ),
      λ (labels, extra, paths, c, e).
          let (t₂, t₃) = url' c.url_filled in
          close_gates (
            labels,
            extra,
            paths,
            (valid' c.credentials, c.labels_parse, c.extra_parse, c.paths_parse),
            (named' (c.name_filled, c.slug_filled), t₂, t₃),
            e,
          ),
    )
