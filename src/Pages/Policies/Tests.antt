-- ===== src/Pages/Policies/Tests.antt =====
-- The theorem on the policies page at a push that the API refuses.
use ansible_aam.Prelude.{String, ◌≡◌, refl, ◌≢◌, ◌↔◌, true, false, none, some, [], ◌∷◌}
use ansible_aam.Prelude.Result.{err}
use ansible_aam.Types.{Policy}
use ansible_aam.Pages.Policies.{PageState, Server, is_unavailable}
use ansible_aam.Pages.Policies.Handlers.{push, handle, SameView, IsIdle, handle-refused}

abbrev policy : Policy
policy = record {
  id = "p1";
  name = "TLS";
  description = "";
  severity = "high";
  enabled = true;
  scope = [];
  rule = [];
}

abbrev page : PageState
page = record {
  policies = policy ∷ [];
  results = [];
  loading = false;
  error = none;
  message = some "Created TLS.";
  updating_id = none;
  pushing_id = none;
  remediating_id = none;
  can_manage = true;
  is_create_open = false;
  creating = false;
  baseline = none;
  evaluation = none;
}

abbrev down_text : String
down_text = "down"

abbrev down : Server
down = record {
  update_policy = λ _ _. err "down";
  push_policy = λ _. err "down";
  remediate_policy = λ _. err "down";
  create_policy = λ _. err "down";
  reloaded = err "down";
}

handle-refused_example :
    SameView (handle down (push policy) page) page
    × ((handle down (push policy) page).error ≡ some "down")
    × IsIdle (handle down (push policy) page)
    × (is_unavailable (handle down (push policy) page) ≡ true
        ↔ ((page.policies ≡ []) × (down_text ≢ "")))
handle-refused_example =
    handle-refused down (push policy) "down" page
      (record { updating = refl; pushing = refl; remediating = refl; creating = refl }) refl
