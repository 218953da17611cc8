-- ===== src/Forms/Tests.antt =====
-- The theorems on the two forms at concrete fields.
use ansible_aam.Prelude.{
  ℕ, ◌<◌, ◌≡◌, refl, ◌↔◌, true, none, some, [], ◌∷◌, arith, ◌==◌, if◌then◌else◌, All, inl, inr,
  false, ◌&&◌, ◌++◌, String, List, ◌⊎◌,
}
use ansible_aam.Prelude.Int.{pos}
use ansible_aam.Prelude.Dict.{Dict}
use ansible_aam.Prelude.Text.{trim}
use ansible_aam.Prelude.Text.Numbers.{int}
use ansible_aam.Prelude.Result.{is_ok, Result, ok, err}
use ansible_aam.Prelude.Text.Split.{split, split_csv, IsItem, split_csv-IsItem}
use ansible_aam.Value.{Value, bool, num, obj, from_entries, get, str}
use ansible_aam.Types.{
  EnvironmentSummary, EnvironmentDetail, EnvironmentMutationPayload, oauth2, podman,
  PolicyPushResult,
}
use ansible_aam.Capabilities.{
  read_profile, parse_capability_profile, collect_extras, known_capability_keys,
}
use ansible_aam.Forms.Environment.{create, edit, FormState, build_initial_state}
use ansible_aam.Forms.Environment.Slug.{
  slugify, dashed, undash_start, undash_end, is_slug_char, IsSlug, slugify-IsSlug,
}
use ansible_aam.Forms.Environment.Registration.{
  Registration, start, type_name, continue_registration, Reaches, here, and_then, typed_name,
  continued,
}
use ansible_aam.Forms.Environment.Registration.Sound.{IsSound, Reaches-IsSound}
use ansible_aam.Forms.Environment.Submit.{payload_of, handle_submit}
use ansible_aam.Forms.Environment.Submit.Accepts.{IsComplete, handle_submit-eq-ok_iff}
use ansible_aam.Forms.Environment.Submit.Kept.{IsStored, Keeps}
use ansible_aam.Forms.Environment.Submit.Roundtrip.{IsPrinted, handle_submit-build_initial_state}
use ansible_aam.Pages.Environment.{
  Server, PageState, update_environment, sync_environment, whole, handle_save,
}
use ansible_aam.Pages.Environment.Saving.{handle_save-calls}
use ansible_aam.Pages.Environments.Page
use ansible_aam.Pages.Environments.Page.{
  handle_create, IsSynced, FailsWith, registered, handle_create_lem,
}
use ansible_aam.Forms.Policy.{RuleFields, named_resource_present, build_rule}
use ansible_aam.Forms.Policy.Rules.{IsRule, build_rule-IsRule}

-- A lower-casing, and a JSON parser and printer, that know one text each.
abbrev to_lower : String → String
to_lower s = if s == "AAP  Prod (East)" then "aap  prod (east)" else s

abbrev object_text : Dict Value → String
object_text [] = "{}"
object_text (_ ∷ _) = "{\"zone\":1}"

abbrev zone : Dict Value
zone = ("zone", num (int (pos 1))) ∷ []

abbrev parse_json : String → Result Value
parse_json s =
    if s == "{}"
    then ok (obj (from_entries []))
    else if s == "{\"zone\":1}"
    then ok (obj (from_entries zone))
    else err "Unexpected token"

slug_value : slugify to_lower "AAP  Prod (East)" ≡ "aap-prod-east"
unfolding slugify dashed undash_start undash_end is_slug_char trim
slug_value = refl

slugify-IsSlug_example : IsSlug (slugify to_lower "AAP  Prod (East)")
slugify-IsSlug_example = slugify-IsSlug to_lower "AAP  Prod (East)"

abbrev east : EnvironmentDetail
east = record {
  environment = record {
    id = "e1";
    name = "East";
    slug = "east";
    description = "first site";
    owner = "ops";
    tags = "prod" ∷ "eu west" ∷ [];
    groupings = [];
    kind = some "aap";
    deployment_type = podman;
    infrastructure = ("region", str "eu") ∷ [];
    status = "healthy";
    is_managed = some true;
    sync_interval_minutes = int (pos 15);
    platform_version = none;
    last_synced_at = none;
    last_sync_error = none;
    summary = [];
  };
  labels = zone;
  platform_url = none;
  gateway_url = some "https://gw";
  controller_url = some "https://c";
  eda_url = none;
  hub_url = none;
  orchestrator_url = none;
  auth_mode = oauth2;
  client_id = some "aam";
  orchestrator_client_id = none;
  verify_ssl = true;
  capabilities =
      ("runner_enabled", bool true)
      ∷ ("receptor_node_count", num (int (pos 4)))
      ∷ ("zone", num (int (pos 1)))
      ∷ [];
  service_paths = [];
  snapshots = [];
  resources = [];
}

east_values : Unit {0}
unfolding read_profile collect_extras known_capability_keys trim get parse_capability_profile
east_values = tt

tag_items : All IsItem ("prod" ∷ "eu west" ∷ [])
unfolding split_csv split trim
tag_items = split_csv-IsItem "prod,eu west"

east-IsStored : IsStored east
unfolding east_values
east-IsStored = record {
  kind = refl;
  name = (refl, refl);
  slug = (refl, refl);
  description = refl;
  owner = refl;
  tags = tag_items;
  groupings = tt;
  platform_url = tt;
  gateway_url = ((refl, refl), refl);
  controller_url = (refl, refl);
  eda_url = tt;
  hub_url = tt;
  client_id = (refl, refl);
  infrastructure = (inr ("eu", refl, refl, refl), (inl refl, (inl refl, (inl refl, tt))));
  interval = (14, refl);
  count = (3, refl);
  expected = refl;
}

zone-IsPrinted : IsPrinted parse_json object_text zone
unfolding trim
zone-IsPrinted = record { printed = refl; parsed = refl }

nil-IsPrinted : IsPrinted parse_json object_text []
unfolding trim
nil-IsPrinted = record { printed = refl; parsed = refl }

extras-IsPrinted : IsPrinted parse_json object_text (collect_extras [] east.capabilities)
unfolding east_values
extras-IsPrinted = zone-IsPrinted

handle_submit-build_initial_state_example :
    (payload : EnvironmentMutationPayload) × (handle_submit parse_json edit
        (build_initial_state object_text (some east))
      ≡ ok payload)
    × Keeps east payload
handle_submit-build_initial_state_example =
    handle_submit-build_initial_state parse_json object_text east east-IsStored zone-IsPrinted
      extras-IsPrinted nil-IsPrinted

-- What the form sends for the environment as it is.
abbrev same_again :
    (payload : EnvironmentMutationPayload) × (handle_submit parse_json edit
        (build_initial_state object_text (some east))
      ≡ ok payload)
    × Keeps east payload
same_again =
    handle_submit-build_initial_state parse_json object_text east east-IsStored zone-IsPrinted
      extras-IsPrinted nil-IsPrinted

abbrev server : Server
server = record {
  call = λ _. ok tt;
  environment = λ _. ok east;
  activity = λ _. err "down";
  health_history = λ _. ok [];
}

abbrev page : PageState
page = record {
  environment = some east;
  activity = [];
  health_history = [];
  busy = false;
  syncing = false;
  actioning_id = none;
  error = none;
  message = none;
  confirm_action = none;
  location = "/environments/e1";
  calls = [];
}

handle_save-calls_example : (handle_save "e1" server same_again.0 true page).calls ≡ (
    if true && is_ok (server.call (update_environment "e1" (whole same_again.0)))
    then (page.calls ++ (update_environment "e1" (whole same_again.0) ∷ []))
      ++ (sync_environment "e1" ∷ [])
    else page.calls ++ (update_environment "e1" (whole same_again.0) ∷ []))
handle_save-calls_example =
    handle_save-calls "e1" server parse_json edit (build_initial_state object_text (some east))
      same_again.0 true page same_again.1

-- The list of the environments with its dialogue open, and an API that cannot queue a sync.
abbrev create_page : Page.PageState
create_page = record {
  environments = [];
  loading = false;
  busy = false;
  is_create_modal_open = true;
  error = none;
  message = none;
  syncing_id = none;
  group_filter = "all";
  kind_filter = "all";
}

abbrev unsynced : Page.Server
unsynced = record {
  environments = ok [];
  create_environment = λ _. ok east.environment;
  sync_environment = λ _. err "no worker";
}

abbrev created : Page.PageState
created = handle_create unsynced same_again.0 true create_page

handle_create_lem_example :
    ((message : String) × FailsWith unsynced same_again.0 true message
      × (created.error ≡ some message)
      × (created.is_create_modal_open ≡ true)
      × (created.environments ≡ create_page.environments)
      × (created.busy ≡ false))
    ⊎ ((environment : EnvironmentSummary) × (items : List EnvironmentSummary)
        × (unsynced.create_environment same_again.0 ≡ ok environment)
        × IsSynced unsynced true environment
        × (unsynced.environments ≡ ok items)
        × (created ≡ record create_page {
          environments = items;
          busy = false;
          is_create_modal_open = false;
          error = none;
          message = some (registered environment.name true);
        }))
handle_create_lem_example = handle_create_lem unsynced same_again.0 true create_page refl

abbrev east_form : FormState
east_form = build_initial_state object_text (some east)

handle_submit-eq-ok_iff_example :
    (handle_submit parse_json create (record east_form { access_token = " t " })
      ≡ ok (payload_of (record east_form { access_token = " t " }) zone zone []))
    ↔ ((labels : Dict Value) × (extra_capabilities : Dict Value) × (service_paths : Dict Value)
        × IsComplete parse_json create
            (record east_form { access_token = " t " })
            labels
            extra_capabilities
            service_paths
        × (payload_of
              (record east_form { access_token = " t " })
              labels
              extra_capabilities
              service_paths
            ≡ payload_of (record east_form { access_token = " t " }) zone zone []))
handle_submit-eq-ok_iff_example =
    handle_submit-eq-ok_iff parse_json create (record east_form { access_token = " t " })
      (payload_of (record east_form { access_token = " t " }) zone zone [])

-- A name is typed, and the page goes on to the second step.
abbrev first : Registration
first = start object_text

abbrev named : Registration
named = type_name to_lower "AAP  Prod (East)" first

first-step : first.step ≡ 0
unfolding start
first-step = refl

named-step : named.step < 3
unfolding type_name start
named-step = omega arith

second-run : Reaches to_lower first (continue_registration named)
second-run =
    and_then first named (continue_registration named)
      (and_then first first named (here first) (typed_name "AAP  Prod (East)" first first-step))
      (continued named named-step)

Reaches-IsSound_example : IsSound (continue_registration named)
Reaches-IsSound_example = Reaches-IsSound object_text (continue_registration named) second-run

abbrev fields : RuleFields
fields = record {
  threshold = "5";
  prefix = "2.7";
  service = "controller";
  setting_key = "";
  setting_value = "false";
  resource_type = "execution_environment";
  resource_name = " ee ";
  resource_image = "img";
  remediate = true;
}

build_rule-IsRule_example :
    IsRule named_resource_present true (build_rule parse_json named_resource_present fields)
build_rule-IsRule_example = build_rule-IsRule parse_json named_resource_present fields

abbrev nought : ℕ
nought = 0

abbrev pushed : PolicyPushResult
pushed = record {
  policy_id = "p";
  evaluated = int (pos 2);
  compliant = int (pos 2);
  noncompliant = int (pos 0);
  unknown = int (pos 0);
  skipped = int (pos 0);
  environments = int (pos 2);
  checks = none;
}
