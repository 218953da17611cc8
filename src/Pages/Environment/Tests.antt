-- ===== src/Pages/Environment/Tests.antt =====
-- The theorem on the environment's page at a failing action and a sync.
use ansible_aam.Prelude.{refl, inl, true, false, none, List, [], ◌∷◌}
use ansible_aam.Prelude.Result.{ok, err}
use ansible_aam.Types.{Resource}
use ansible_aam.Pages.Resources.{activation_action}
use ansible_aam.Pages.Environment.{Server, PageState}
use ansible_aam.Pages.Environment.Idle.{Event, sync, run_action, run, IsIdle, run-IsIdle}

abbrev page : PageState
page = record {
  environment = none;
  activity = [];
  health_history = [];
  busy = false;
  syncing = false;
  actioning_id = none;
  error = none;
  message = none;
  confirm_action = none;
  location = "/environments/e1";
  calls = [];
}

-- An API that is down.
abbrev down : Server
down = record {
  call = λ _. err "down";
  environment = λ _. err "down";
  activity = λ _. ok [];
  health_history = λ _. err "down";
}

abbrev activation : Resource
activation = record {
  id = "1";
  service = "eda";
  resource_type = "activation";
  external_id = "7";
  name = "Restart";
  status = "enabled";
  namespace = none;
  url = none;
  metadata_json = [];
  last_seen_at = "";
}

abbrev events : List (Server × Event)
events = (down, run_action activation (activation_action true)) ∷ (down, sync) ∷ []

run-IsIdle_example : IsIdle (run "e1" page events)
run-IsIdle_example =
    run-IsIdle "e1" events page (record { syncing = refl; actioning = refl; busy = inl refl })
