-- ===== src/Forms/Environment/Submit/Roundtrip.antt =====
-- An environment that is opened in the form of the environment page and sent without a change.
use ansible_aam.Prelude.{String, ◌≡◌, refl, ap, ◌∙◌, false, some, []}
use ansible_aam.Prelude.Dict.{Dict}
use ansible_aam.Prelude.Text.{is_empty, trim, is_blank, trim-nil}
use ansible_aam.Prelude.Result.{Result, ok}
use ansible_aam.Prelude.Text.Split.{split_csv-join}
use ansible_aam.Value.{get, Value, obj, from_entries, entries-from_entries}
use ansible_aam.Capabilities.{
  as_string, read_profile, parse_capability_profile, save_capabilities, collect_extras,
}
use ansible_aam.Forms.Environment.Submit.{infrastructure_of, payload_of, handle_submit, present}
use ansible_aam.Types.{EnvironmentDetail, EnvironmentMutationPayload}
use ansible_aam.Forms.Environment.{edit, parse_object_field, build_initial_state}
use ansible_aam.Forms.Environment.Submit.Accepts.{IsComplete, handle_submit-eq-ok_iff}
use ansible_aam.Forms.Environment.Submit.Kept.{
  IsStored, Keeps, build_capabilities-resent, filled-IsUrl, filled_url, interval-kept, places,
  places-add_text, shown-places,
}

-- `JSON.parse` reads what `JSON.stringify` printed of an object.
pub record IsPrinted (json_parse : String → Result Value) (to_pretty_json : Dict Value → String)
    (d : Dict Value) : Type 0 where
  pub printed : is_blank (to_pretty_json d) ≡ false
  pub parsed : json_parse (trim (to_pretty_json d)) ≡ ok (obj (from_entries d))

module _ (json_parse : String → Result Value) (to_pretty_json : Dict Value → String) where
  parse_printed :
      (d : Dict Value) (label : String)
      → IsPrinted json_parse to_pretty_json d
      → parse_object_field json_parse (to_pretty_json d) label ≡ ok d
  unfolding parse_object_field
  parse_printed d label h = rw (h.printed, h.parsed) (ap ok (entries-from_entries d))

  abbrev sent : EnvironmentDetail → EnvironmentMutationPayload
  sent detail =
      payload_of (build_initial_state to_pretty_json (some detail)) detail.labels
        (collect_extras [] detail.capabilities) detail.service_paths

  capabilities-kept :
      (detail : EnvironmentDetail)
      → IsStored detail
      → (sent detail).capabilities ≡ save_capabilities detail.capabilities
  unfolding build_initial_state save_capabilities parse_capability_profile
  capabilities-kept detail s = rw s.kind (
      build_capabilities-resent (read_profile detail.capabilities)
        (collect_extras [] detail.capabilities) false s.count s.expected)

  infrastructure-kept :
      (detail : EnvironmentDetail)
      → IsStored detail
      → places (sent detail).infrastructure ≡ places detail.infrastructure
  unfolding build_initial_state infrastructure_of
  infrastructure-kept detail s =
      let place = λ (key : String). get key detail.infrastructure in
      let r = place "region" in
      let c = place "cluster_or_project" in
      let a = place "account_or_subscription" in
      let h = place "host_or_namespace" in
      places-add_text (as_string r) (as_string c) (as_string a) (as_string h)
      ∙ shown-places r c a h s.infrastructure

  complete :
      (detail : EnvironmentDetail)
      → IsStored detail
      → IsPrinted json_parse to_pretty_json detail.labels
      → IsPrinted json_parse to_pretty_json (collect_extras [] detail.capabilities)
      → IsPrinted json_parse to_pretty_json detail.service_paths
      → IsComplete json_parse edit
          (build_initial_state to_pretty_json (some detail))
          detail.labels
          (collect_extras [] detail.capabilities)
          detail.service_paths
  unfolding build_initial_state parse_capability_profile
  complete detail s labels extra paths = record {
    credentials = tt;
    labels_parse = parse_printed detail.labels "Labels" labels;
    extra_parse = parse_printed _ "Additional capabilities" extra;
    paths_parse = parse_printed detail.service_paths "Service path overrides" paths;
    name_filled = ap is_empty s.name.0 ∙ s.name.1;
    slug_filled = ap is_empty s.slug.0 ∙ s.slug.1;
    url_filled = rw s.kind (filled_url detail.gateway_url s.gateway_url.0 s.gateway_url.1);
  }

  sent-Keeps : (detail : EnvironmentDetail) → IsStored detail → Keeps detail (sent detail)
  unfolding build_initial_state
  sent-Keeps detail s = record {
    name = s.name.0;
    slug = s.slug.0;
    description = s.description;
    owner = s.owner;
    tags = split_csv-join detail.tags s.tags;
    groupings = split_csv-join detail.groupings s.groupings;
    labels = refl;
    kind = rw s.kind;
    deployment_type = refl;
    infrastructure = infrastructure-kept detail s;
    platform_url = rw s.kind (filled-IsUrl _ s.platform_url);
    gateway_url = rw s.kind (filled-IsUrl _ s.gateway_url.0);
    controller_url = rw s.kind (filled-IsUrl _ s.controller_url);
    eda_url = rw s.kind (filled-IsUrl _ s.eda_url);
    hub_url = rw s.kind (filled-IsUrl _ s.hub_url);
    orchestrator_url = rw s.kind;
    auth_mode = refl;
    client_id = rw s.kind (filled-IsUrl _ s.client_id);
    client_secret = ap present trim-nil;
    access_token = ap present trim-nil;
    verify_ssl = refl;
    interval = interval-kept _ s.interval;
    capabilities = capabilities-kept _ s;
    service_paths = refl;
  }

  -- Sending the form of a stored environment of the Ansible Automation Platform without a change
  -- sends every field of `Keeps` as it is stored: of the infrastructure the four places that the form
  -- shows, the capabilities as `save_capabilities` leaves them, and no secret. The environment is one
  -- that the form itself may have saved (`IsStored`), and the JSON parser reads the three printed
  -- objects back.
  pub handle_submit-build_initial_state :
      (detail : EnvironmentDetail)
      → IsStored detail
      → IsPrinted json_parse to_pretty_json detail.labels
      → IsPrinted json_parse to_pretty_json (collect_extras [] detail.capabilities)
      → IsPrinted json_parse to_pretty_json detail.service_paths
      → (payload : EnvironmentMutationPayload) × (handle_submit json_parse edit
            (build_initial_state to_pretty_json (some detail))
          ≡ ok payload)
        × Keeps detail payload
  handle_submit-build_initial_state detail s labels extra paths =
      let form = build_initial_state to_pretty_json (some detail) in
      let (_, close) = handle_submit-eq-ok_iff json_parse edit form (sent detail) in
      (
        sent detail,
        close (_, _, _, complete detail s labels extra paths, refl),
        sent-Keeps detail s,
      )
