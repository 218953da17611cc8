-- ===== src/Pages/Alerts.antt =====
-- frontend/src/components/layout.tsx, lines 34-71 and 152-166: the alerts of the frame, their loading
-- and their dismissal. `now` is `new Date().toISOString()`.
use ansible_aam.Prelude.{
  String, ◌≡◌, refl, ◌⊎◌, inl, inr, Bool, false, not, some, List, [], ◌∷◌, map, arith, ◌==◌, eq_iff,
  if◌then◌else◌, length, select, length-map,
}
use ansible_aam.Prelude.Text.{is_empty}
use ansible_aam.Prelude.Result.{Result, ok, err}
use ansible_aam.Types.{FleetAlert}
use ansible_aam.Pages.Shell.{open_alerts}

pub record AlertState : Type 0 where
  pub alerts : List FleetAlert
  pub alert_error : String
  pub is_cancelled : Bool

-- The callbacks of a round of the timer; the cleanup of the effect sets `cancelled`.
unfoldable pub load_alerts : Result (List FleetAlert) → AlertState → AlertState
load_alerts (ok items) s =
    if s.is_cancelled then s else record s { alerts = items; alert_error = "" }
load_alerts (err message) s = if s.is_cancelled then s else record s { alert_error = message }

unfoldable pub acknowledge : String → String → List FleetAlert → List FleetAlert
acknowledge now id current =
    map
      (λ (item : FleetAlert).
        if item.id == id then record item { acknowledged_at = some now } else item)
      current

-- The button `Dismiss`, with the answer of the API.
unfoldable pub dismiss : String → Result (Unit {0}) → FleetAlert → AlertState → AlertState
unfolding acknowledge
dismiss now (ok done) alert s = record s {
  alerts = acknowledge now alert.id s.alerts;
  alert_error = "";
}
dismiss now (err message) alert s = record s { alert_error = message }

open-acknowledge :
    (now id : String) (alerts : List FleetAlert)
    → is_empty now ≡ false
    → open_alerts (acknowledge now id alerts)
      ≡ select (λ (item : FleetAlert). not (item.id == id)) (open_alerts alerts)
unfolding acknowledge open_alerts
open-acknowledge now id [] h = refl
open-acknowledge now id (a ∷ alerts) h =
    ground (arith, eq_iff a.id id, open-acknowledge now id alerts h)

-- Dismissing an alert takes it, and no other, off the open alerts if the API accepts; if the API
-- refuses, the alerts are as before and the error is shown. No alert is lost either way.
pub dismiss_lem :
    (now : String) (answer : Result (Unit {0})) (alert : FleetAlert) (s : AlertState)
    → is_empty now ≡ false
    → (length (dismiss now answer alert s).alerts ≡ length s.alerts)
      × (((open_alerts (dismiss now answer alert s).alerts
              ≡ select (λ (item : FleetAlert). not (item.id == alert.id)) (open_alerts s.alerts))
            × (answer ≡ ok tt))
          ⊎ (((dismiss now answer alert s).alerts ≡ s.alerts)
              × (answer ≡ err (dismiss now answer alert s).alert_error)))
unfolding dismiss acknowledge
dismiss_lem now (ok done) alert s h =
    (length-map _ s.alerts, inl (open-acknowledge now alert.id s.alerts h, refl))
dismiss_lem now (err message) alert s h = (refl, inr (refl, refl))
