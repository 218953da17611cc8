-- ===== src/Forms/Environment/Submit/Kept.antt =====
-- What an environment that the form saved holds, and what its form sends of each field.
use ansible_aam.Prelude.{
  ℕ, suc, String, ◌≡◌, refl, sym, ap, ◌∙◌, ◌⊎◌, inl, inr, Bool, true, false, not, Option, none,
  some, List, [], ◌∷◌, arith, ◌==◌, eq_refl, if◌then◌else◌, Bool-cases, or_else, is_some, All,
}
use ansible_aam.Prelude.Int.{pos}
use ansible_aam.Prelude.Dict.{Dict, insert, remove}
use ansible_aam.Prelude.Text.{is_empty, trim, is_blank, trim_idem, trim-nil}
use ansible_aam.Prelude.Text.Numbers.{
  Number, nan, int, truthy_number, parse_int, show, parse_int-show_nat,
}
use ansible_aam.Prelude.Text.Split.{IsItem}
use ansible_aam.Value.{undefined, get, get-insert, Value, str}
use ansible_aam.Capabilities.{
  as_string, CapabilityProfile, read_profile, save_capabilities, build_capabilities, store_strings,
  string_fields, store_booleans, boolean_fields, store_count,
}
use ansible_aam.Forms.Environment.Submit.{add_text, filled, number_or_null, or_number}
use ansible_aam.Types.{EnvironmentDetail, EnvironmentMutationPayload}
use ansible_aam.Forms.Environment.{is_orchestrator_text, count_text}

-- A text without white space at its ends.
abbrev pub IsTrimmed : String → Type 0
IsTrimmed s = trim s ≡ s

-- `null`, or a text with no white space at its ends that is not empty.
abbrev pub IsUrl : Option String → Type 0
IsUrl none = Unit
IsUrl (some s) = IsTrimmed s × (is_empty s ≡ false)

-- No count, or a count above 0.
abbrev pub IsCount : Option Number → Type 0
IsCount none = Unit
IsCount (some n) = (k : ℕ) × (n ≡ int (pos (suc k)))

-- No value, or a text with no white space at its ends that is not empty.
abbrev pub IsPlace : Value → Type 0
IsPlace v = (v ≡ undefined) ⊎ ((s : String) × (v ≡ str s) × IsTrimmed s × (is_empty s ≡ false))

-- The four places that the form shows of an infrastructure.
abbrev pub places : Dict Value → List Value
places d =
    get "region" d
    ∷ get "cluster_or_project" d
    ∷ get "account_or_subscription" d
    ∷ get "host_or_namespace" d
    ∷ []

-- An environment of the Ansible Automation Platform as the form itself saves it.
pub record IsStored (detail : EnvironmentDetail) : Type 0 where
  pub kind : is_orchestrator_text detail.kind ≡ false
  pub name : IsTrimmed detail.name × (is_empty detail.name ≡ false)
  pub slug : IsTrimmed detail.slug × (is_empty detail.slug ≡ false)
  pub description : IsTrimmed detail.description
  pub owner : IsTrimmed detail.owner
  pub tags : All IsItem detail.tags
  pub groupings : All IsItem detail.groupings
  pub platform_url : IsUrl detail.platform_url
  pub gateway_url : IsUrl detail.gateway_url × (is_some detail.gateway_url ≡ true)
  pub controller_url : IsUrl detail.controller_url
  pub eda_url : IsUrl detail.eda_url
  pub hub_url : IsUrl detail.hub_url
  pub client_id : IsUrl detail.client_id
  pub interval : (k : ℕ) × (detail.sync_interval_minutes ≡ int (pos (suc k)))
  pub count : IsCount (read_profile detail.capabilities).receptor_node_count
  pub infrastructure : All IsPlace (places detail.infrastructure)
  pub expected : (read_profile detail.capabilities).orchestrator_expected ≡ false

-- The request holds what the environment holds, and no secret.
pub record Keeps (detail : EnvironmentDetail) (payload : EnvironmentMutationPayload) : Type 0 where
  pub name : payload.name ≡ detail.name
  pub slug : payload.slug ≡ detail.slug
  pub description : payload.description ≡ detail.description
  pub owner : payload.owner ≡ detail.owner
  pub tags : payload.tags ≡ detail.tags
  pub groupings : payload.groupings ≡ detail.groupings
  pub labels : payload.labels ≡ detail.labels
  pub kind : payload.kind ≡ some "aap"
  pub deployment_type : payload.deployment_type ≡ detail.deployment_type
  pub infrastructure : places payload.infrastructure ≡ places detail.infrastructure
  pub platform_url : payload.platform_url ≡ detail.platform_url
  pub gateway_url : payload.gateway_url ≡ detail.gateway_url
  pub controller_url : payload.controller_url ≡ detail.controller_url
  pub eda_url : payload.eda_url ≡ detail.eda_url
  pub hub_url : payload.hub_url ≡ detail.hub_url
  pub orchestrator_url : payload.orchestrator_url ≡ none
  pub auth_mode : payload.auth_mode ≡ detail.auth_mode
  pub client_id : payload.client_id ≡ detail.client_id
  pub client_secret : payload.client_secret ≡ none
  pub access_token : payload.access_token ≡ none
  pub verify_ssl : payload.verify_ssl ≡ detail.verify_ssl
  pub interval : payload.sync_interval_minutes ≡ detail.sync_interval_minutes
  pub capabilities : payload.capabilities ≡ save_capabilities detail.capabilities
  pub service_paths : payload.service_paths ≡ detail.service_paths

pub filled-IsUrl : (url : Option String) → IsUrl url → filled (trim (or_else url "")) ≡ url
filled-IsUrl none h = ap filled trim-nil
filled-IsUrl (some s) (t, e) = rw (t, e)

pub filled_url :
    (url : Option String) → IsUrl url → is_some url ≡ true → is_blank (or_else url "") ≡ false
filled_url none h e = cc
filled_url (some s) (t, f) e = ap is_empty t ∙ f

pub same_branches : {A : Type 0} (b : Bool) (x : A) → (if b then x else x) ≡ x
same_branches true x = refl
same_branches false x = refl

pub get-add_text :
    (j k v : String) (d : Dict Value)
    → get k (add_text j v d)
      ≡ (if j == k then (if is_blank v then get k d else str (trim v)) else get k d)
unfolding add_text
get-add_text j k v d = elim (Bool-cases (is_blank v)) [
  | inl e ↦ rw e (sym (same_branches (j == k) (get k d)))
  | inr e ↦ rw e (get-insert j k (str (trim v)) d)
]

-- What a field of the form stores.
abbrev pub shown : String → Value
shown v = if is_blank v then undefined else str (trim v)

pub get-add_text_hit :
    (k v : String) (d : Dict Value) → get k d ≡ undefined → get k (add_text k v d) ≡ shown v
get-add_text_hit k v d h =
    get-add_text k k v d ∙ rw (eq_refl k) (ap (λ u. if is_blank v then u else str (trim v)) h)

pub get-nil : (k : String) → get k [] ≡ undefined
unfolding get
get-nil k = refl

pub places-add_text :
    (r c a h : String)
    → places (
        add_text "host_or_namespace" h (
          add_text "account_or_subscription" a
            (add_text "cluster_or_project" c (add_text "region" r []))))
      ≡ shown r ∷ shown c ∷ shown a ∷ shown h ∷ []
places-add_text r c a h =
    let one : Dict Value = add_text "region" r [] in
    let two : Dict Value = add_text "cluster_or_project" c one in
    let three : Dict Value = add_text "account_or_subscription" a two in
    λ i.
      (get-add_text "host_or_namespace" "region" h three
          ∙ get-add_text "account_or_subscription" "region" a two
          ∙ get-add_text "cluster_or_project" "region" c one
          ∙ get-add_text_hit "region" r [] (get-nil "region"))
        i
      ∷ (get-add_text "host_or_namespace" "cluster_or_project" h three
            ∙ get-add_text "account_or_subscription" "cluster_or_project" a two
            ∙ get-add_text_hit "cluster_or_project" c one
                (get-add_text "region" "cluster_or_project" r [] ∙ get-nil "cluster_or_project"))
          i
      ∷ (get-add_text "host_or_namespace" "account_or_subscription" h three
            ∙ get-add_text_hit "account_or_subscription" a two (
                get-add_text "cluster_or_project" "account_or_subscription" c one
                ∙ get-add_text "region" "account_or_subscription" r []
                ∙ get-nil "account_or_subscription"))
          i
      ∷ get-add_text_hit "host_or_namespace" h three
          (get-add_text "account_or_subscription" "host_or_namespace" a two
            ∙ get-add_text "cluster_or_project" "host_or_namespace" c one
            ∙ get-add_text "region" "host_or_namespace" r []
            ∙ get-nil "host_or_namespace")
          i
      ∷ []

pub place-kept :
    (v : Value)
    → IsPlace v
    → (if is_blank (as_string v) then undefined else str (trim (as_string v))) ≡ v
place-kept v (inl e) = rw (e, trim-nil)
place-kept v (inr (s, e, t, f)) = rw (e, t, f)

pub shown-places :
    (r c a h : Value)
    → All IsPlace (r ∷ c ∷ a ∷ h ∷ [])
    → shown (as_string r) ∷ shown (as_string c) ∷ shown (as_string a) ∷ shown (as_string h) ∷ []
      ≡ r ∷ c ∷ a ∷ h ∷ []
shown-places r c a h (pr, (pc, (pa, (ph, _)))) =
    λ i. place-kept r pr i ∷ place-kept c pc i ∷ place-kept a pa i ∷ place-kept h ph i ∷ []

pub truthy_suc : (k : ℕ) → truthy_number (int (pos (suc k))) ≡ true
truthy_suc k = ground arith

pub interval-show :
    (k : ℕ) → or_number (parse_int (show (int (pos (suc k))))) (int (pos 5)) ≡ int (pos (suc k))
unfolding show
interval-show k = rw (parse_int-show_nat (suc k), truthy_suc k)

pub interval-kept :
    (n : Number)
    → (k : ℕ) × (n ≡ int (pos (suc k)))
    → or_number (parse_int (show n)) (int (pos 5)) ≡ n
interval-kept n (k, e) = rw e (interval-show k)

pub parse_int-nil : parse_int "" ≡ nan
unfolding parse_int
parse_int-nil = refl

pub count-IsCount :
    (count : Option Number) → IsCount count → number_or_null (parse_int (count_text count)) ≡ count
unfolding count_text show
count-IsCount none h = rw parse_int-nil
count-IsCount (some n) (k, e) = rw (e, truthy_suc k, parse_int-show_nat (suc k), truthy_suc k)

-- The strings of a profile, trimmed.
abbrev pub trimmed : Dict String → Dict String
trimmed [] = []
trimmed ((key, value) ∷ fields) = (key, trim value) ∷ trimmed fields

pub store_strings-trimmed :
    (fields : Dict String) (merged : Dict Value)
    → store_strings (trimmed fields) merged ≡ store_strings fields merged
unfolding store_strings
store_strings-trimmed [] merged = refl
store_strings-trimmed ((key, value) ∷ fields) merged =
    ap
      (λ t.
        store_strings (trimmed fields)
          (if not (is_empty t) then insert key (str t) merged else remove key merged))
      (trim_idem value)
    ∙ store_strings-trimmed fields
        (if not (is_blank value) then insert key (str (trim value)) merged else remove key merged)

-- The profile that the form sends, of a profile that it read.
abbrev pub resent : CapabilityProfile → Bool → CapabilityProfile
resent p expected = record p {
  operator_namespace = trim p.operator_namespace;
  cluster_namespace = trim p.cluster_namespace;
  terraform_workspace = trim p.terraform_workspace;
  backstage_entity_ref = trim p.backstage_entity_ref;
  mcp_endpoint = trim p.mcp_endpoint;
  receptor_node_count = number_or_null (parse_int (count_text p.receptor_node_count));
  orchestrator_expected = expected;
}

pub build_capabilities-resent :
    (p : CapabilityProfile) (extra : Dict Value) (expected : Bool)
    → IsCount p.receptor_node_count
    → p.orchestrator_expected ≡ expected
    → build_capabilities (resent p expected) extra ≡ build_capabilities p extra
unfolding build_capabilities
build_capabilities-resent p extra expected count flag =
    let start = insert "management_mode" p.management_mode extra in
    let stored = store_strings (string_fields p) start in
    let flags : Bool → Dict Bool = λ b. boolean_fields (record p { orchestrator_expected = b }) in
    let sent = number_or_null (parse_int (count_text p.receptor_node_count)) in
    ap (λ m. store_count sent (store_booleans (flags expected) m))
      (store_strings-trimmed (string_fields p) start)
    ∙ ap (λ n. store_count n (store_booleans (flags expected) stored))
        (count-IsCount p.receptor_node_count count)
    ∙ ap (λ b. store_count p.receptor_node_count (store_booleans (flags b) stored)) (sym flag)
