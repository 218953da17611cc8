-- ===== src/Pages/Shell.antt =====
-- frontend/src/components/layout.tsx, lines 73-78: the path that is marked and the alerts of the
-- drawer; frontend/src/components/status-pill.tsx: the colour of a status; and
-- frontend/src/color-mode.ts: the colour mode and where it is kept.
use ansible_aam.Prelude.{
  ◌+◌, String, ◌≡◌, refl, ap, ◌∙◌, inl, inr, Bool, true, false, not, ◌&&◌, ◌||◌, Option, none, some,
  List, [], ◌∷◌, arith, ◌==◌, if◌then◌else◌, Option-cases, or_else, length, select, some_of,
}
use ansible_aam.Prelude.Dict.{Dict, includes, lookup, insert, lookup-insert}
use ansible_aam.Prelude.Text.{◌⊕◌, is_empty}
use ansible_aam.Prelude.Text.Search.{starts_with}
use ansible_aam.Types.{FleetAlert}
use ansible_aam.Utils.{humanize}

unfoldable pub is_active_path : String → List String → Bool
unfolding starts_with ◌⊕◌
is_active_path pathname matches =
    some_of
      (λ path.
        if path == "/"
        then pathname == "/"
        else pathname == path || starts_with pathname (path ⊕ "/"))
      matches

-- A text that may be `null` in a condition.
abbrev pub is_filled : Option String → Bool
is_filled none = false
is_filled (some s) = not (is_empty s)

unfoldable pub open_alerts : List FleetAlert → List FleetAlert
open_alerts alerts =
    select (λ a. not (is_filled a.acknowledged_at) && not (is_filled a.resolved_at)) alerts

unfoldable pub closed_alerts : List FleetAlert → List FleetAlert
closed_alerts alerts = select (λ a. is_filled a.acknowledged_at || is_filled a.resolved_at) alerts

-- Every alert is either open or closed: the two lists hold as many as there are, and no open alert
-- is acknowledged or resolved.
pub alerts-split :
    (alerts : List FleetAlert)
    → (length (open_alerts alerts) + length (closed_alerts alerts) ≡ length alerts)
      × (closed_alerts (open_alerts alerts) ≡ [])
      × (open_alerts (closed_alerts alerts) ≡ [])
unfolding open_alerts closed_alerts
alerts-split [] = (refl, refl, refl)
alerts-split (a ∷ alerts) = let (s, o, c) = alerts-split alerts in ground (arith, s, o, c)

pub data PillColor : Type 0 where
  green orange red blue : PillColor

module _ (to_lower_case : String → String) where
  abbrev normalized : Option String → String
  normalized status = to_lower_case (or_else status "unknown")

  -- The colour of the label of StatusPill.
  unfoldable pub pill_color : Option String → PillColor
  pill_color status =
      let s = normalized status in
      if includes
        ("healthy" ∷ "success" ∷ "successful" ∷ "completed" ∷ "enabled" ∷ "compliant" ∷ "ok"
          ∷ "ready" ∷ [])
        s
      then green
      else if includes ("queued" ∷ "running" ∷ "pending" ∷ "waiting" ∷ "new" ∷ "in_progress" ∷ []) s
      then orange
      else if includes ("warning" ∷ "degraded" ∷ []) s
      then orange
      else if includes
          ("critical" ∷ "failed" ∷ "error" ∷ "disabled" ∷ "noncompliant" ∷ "non_compliant"
            ∷ "canceled" ∷ "cancelled" ∷ [])
          s
      then red
      else blue

  unfoldable pub pill_text : Option String → String
  unfolding humanize
  pill_text status = humanize (some (normalized status))

pub data ColorMode : Type 0 where
  light dark : ColorMode

abbrev pub mode_text : ColorMode → String
mode_text light = "light"
mode_text dark = "dark"

-- The document and the store of the browser. `none` is a store that refuses access; the preference
-- is that of the operating system.
pub record Browser : Type 0 where
  pub has_dark_class : Bool
  pub color_scheme : String
  pub storage : Option (Dict String)
  pub prefers_dark : Bool

abbrev pub dark_if : Bool → ColorMode
dark_if true = dark
dark_if false = light

abbrev pub is_dark : ColorMode → Bool
is_dark light = false
is_dark dark = true

unfoldable pub read_color_mode : Browser → ColorMode
read_color_mode browser = dark_if browser.has_dark_class

-- writeColorMode; the Boolean says that `setItem` did not throw.
unfoldable pub write_color_mode : ColorMode → Browser → Browser × Bool
unfolding insert
write_color_mode mode browser =
    let shown = record browser { has_dark_class = is_dark mode; color_scheme = mode_text mode } in
    elim browser.storage [
      | none ↦ (shown, false)
      | some store ↦
          (record shown { storage = some (insert "aam-color-mode" (mode_text mode) store) }, true)
    ]

abbrev stored_mode : Option String → Bool → ColorMode
stored_mode none prefers_dark = dark_if prefers_dark
stored_mode (some text) prefers_dark =
    if text == "dark" then dark else if text == "light" then light else dark_if prefers_dark

abbrev stored_text : Option (Dict String) → Option String
stored_text none = none
stored_text (some store) = lookup "aam-color-mode" store

unfoldable pub resolve_initial_color_mode : Browser → ColorMode
unfolding lookup
resolve_initial_color_mode browser = stored_mode (stored_text browser.storage) browser.prefers_dark

initial_of_text : (mode : ColorMode) (b : Bool) → stored_mode (some (mode_text mode)) b ≡ mode
initial_of_text light b = refl
initial_of_text dark b = refl

dark_if-is_dark : (mode : ColorMode) → dark_if (is_dark mode) ≡ mode
dark_if-is_dark light = refl
dark_if-is_dark dark = refl

-- A mode that is written is the mode that the page reads at once, and where the browser keeps its
-- store, the mode of the next visit, whatever the operating system prefers.
pub write_color_mode-read :
    (mode : ColorMode) (browser : Browser)
    → (read_color_mode (write_color_mode mode browser).0 ≡ mode)
      × ((write_color_mode mode browser).1 ≡ true
          → resolve_initial_color_mode (write_color_mode mode browser).0 ≡ mode)
unfolding read_color_mode write_color_mode resolve_initial_color_mode
write_color_mode-read mode browser = elim (Option-cases browser.storage) [
  | inl e ↦ rw e (dark_if-is_dark mode, λ h. cc)
  | inr (store, e) ↦ rw e (
    dark_if-is_dark mode,
    λ h.
        ap (λ t. stored_mode t browser.prefers_dark)
          (lookup-insert "aam-color-mode" "aam-color-mode" (mode_text mode) store)
        ∙ initial_of_text mode browser.prefers_dark,
  )
]
