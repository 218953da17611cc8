-- ===== src/Pages/Preferences.antt =====
-- frontend/src/pages/settings.tsx, lines 88-133: the form of the hub's preferences. (`onSaved`, which makes
-- the list of the intervals load again, is left out.)
use ansible_aam.Prelude.{
  String, ◌≡◌, refl, ◌⊎◌, inl, inr, Bool, true, false, Option, none, some, [], if◌then◌else◌,
  or_else,
}
use ansible_aam.Prelude.Dict.{includes}
use ansible_aam.Prelude.Result.{Result, ok, err, Result-cases}
use ansible_aam.Prelude.Action.{answer, change, ◌>>=◌, attempt}
use ansible_aam.Types.{HubPreferences, CurrentUser}

pub record FormState : Type 0 where
  pub prefs : Option HubPreferences
  pub apply_to_all : Bool
  pub error : String
  pub notice : String
  pub busy : Bool

-- `user?.system_roles?.includes("admin") ?? false`.
unfoldable pub can_edit : Option CurrentUser → Bool
can_edit none = false
can_edit (some user) = includes (or_else user.system_roles []) "admin"

-- The result of the first effect.
unfoldable pub set_preferences : Result HubPreferences → FormState → FormState
set_preferences (ok prefs) s = record s { prefs = some prefs }
set_preferences (err message) s = record s { error = message }

-- `update`, with the change of one field.
unfoldable pub update : (HubPreferences → HubPreferences) → FormState → FormState
update change_field s = elim s.prefs [
  | none ↦ s
  | some prefs ↦ record s { prefs = some (change_field prefs) }
]

-- What `save` does with preferences that were loaded; `server` answers to these and to
-- `apply_sync_interval_to_all`.
abbrev pub save_loaded :
    (HubPreferences → Bool → Result HubPreferences) → Option HubPreferences → FormState → FormState
save_loaded server none s = s
save_loaded server (some prefs) s =
    attempt
      (do
        saved ← answer (server prefs s.apply_to_all)
        change (λ t. record t {
          prefs = some saved;
          notice =
              if s.apply_to_all
              then "Saved. Every registered estate now uses this collection interval."
              else "Application settings saved.";
          apply_to_all = false;
        }))
      (λ text t. record t { error = text }) (λ t. record t { busy = false })
      (record s { busy = true; error = ""; notice = "" })

unfoldable pub save : (HubPreferences → Bool → Result HubPreferences) → FormState → FormState
save server s = save_loaded server s.prefs s

-- Saving that fails keeps the preferences as they were typed and the choice to apply the interval to
-- all; saving that succeeds shows what the hub stored and takes the choice back, so that saving again
-- does not apply the interval again.
pub save_lem :
    (server : HubPreferences → Bool → Result HubPreferences) (prefs : HubPreferences)
    (s : FormState)
    → s.prefs ≡ some prefs
    → ((message : String) × (server prefs s.apply_to_all ≡ err message)
        × (save server s ≡ record s { error = message; notice = ""; busy = false }))
      ⊎ ((saved : HubPreferences) × (server prefs s.apply_to_all ≡ ok saved)
          × ((save server s).prefs ≡ some saved)
          × ((save server s).apply_to_all ≡ false)
          × ((save server s).error ≡ "")
          × ((save server s).busy ≡ false))
unfolding save
save_lem server prefs s e = elim (Result-cases (server prefs s.apply_to_all)) [
  | inl (m, r) ↦ rw (e, r) (inl (m, refl, refl))
  | inr (saved, r) ↦ rw (e, r) (inr (saved, refl, refl, refl, refl, refl))
]
