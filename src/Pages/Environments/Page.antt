-- ===== src/Pages/Environments/Page.antt =====
-- frontend/src/pages/environments.tsx, lines 69-127: the state of the list of the environments and
-- its handlers.
use ansible_aam.Prelude.{
  String, ◌≡◌, refl, ◌⊎◌, inl, inr, Bool, true, false, Option, none, some, List, if◌then◌else◌,
}
use ansible_aam.Prelude.Text.{◌⊕◌}
use ansible_aam.Prelude.Result.{Result, ok, err, Result-cases}
use ansible_aam.Prelude.Action.{Action, ◌>>=◌, ◌>>◌, change, answer, attempt}
use ansible_aam.Types.{EnvironmentSummary, EnvironmentMutationPayload}

pub record PageState : Type 0 where
  pub environments : List EnvironmentSummary
  pub loading : Bool
  pub busy : Bool
  pub is_create_modal_open : Bool
  pub error : Option String
  pub message : Option String
  pub syncing_id : Option String
  pub group_filter : String
  pub kind_filter : String

pub record Server : Type 0 where
  pub environments : Result (List EnvironmentSummary)
  pub create_environment : EnvironmentMutationPayload → Result EnvironmentSummary
  pub sync_environment : String → Result (Unit {0})

abbrev pub fail : String → PageState → PageState
fail text s = record s { error = some text }

abbrev pub say : String → Action PageState (Unit {0})
say text = change (λ s. record s { message = some text })

module _ (server : Server) where
  unfoldable pub load_environments : Action PageState (Unit {0})
  load_environments = do
    items ← answer server.environments
    change (λ s. record s { environments = items })

  -- The first effect.
  unfoldable pub load_page : PageState → PageState
  unfolding load_environments
  load_page = attempt load_environments fail (λ s. record s { loading = false })

  -- What it throws again is the error that it shows.
  unfoldable pub handle_create : EnvironmentMutationPayload → Bool → PageState → PageState
  unfolding load_environments ◌⊕◌
  handle_create payload sync_after_save s =
      attempt
        (do
          environment ← answer (server.create_environment payload)
          (if sync_after_save
              then answer (server.sync_environment environment.id)
                >> say ("Registered " ⊕ (environment.name ⊕ " and queued an initial sync."))
              else say ("Registered " ⊕ (environment.name ⊕ ".")))
          load_environments
          change (λ t. record t { is_create_modal_open = false }))
        fail (λ t. record t { busy = false })
        (record s { busy = true; error = none; message = none })

  unfoldable pub queue_sync : EnvironmentSummary → PageState → PageState
  unfolding load_environments ◌⊕◌
  queue_sync environment s =
      attempt
        (do
          answer (server.sync_environment environment.id)
          say ("Queued a sync for " ⊕ (environment.name ⊕ "."))
          load_environments)
        fail (λ t. record t { syncing_id = none })
        (record s { syncing_id = some environment.id; error = none; message = none })

-- The initial sync was queued, if it was asked for.
abbrev pub IsSynced : Server → Bool → EnvironmentSummary → Type 0
IsSynced server sync_after_save environment =
    (sync_after_save ≡ false) ⊎ (server.sync_environment environment.id ≡ ok tt)

-- The message of the first of the three requests that fails.
pub data FailsWith (server : Server) (payload : EnvironmentMutationPayload) (sync_after_save : Bool)
    (message : String) : Type 0 where
  at_create :
      server.create_environment payload ≡ err message
      → FailsWith server payload sync_after_save message
  at_sync :
      (environment : EnvironmentSummary)
      → server.create_environment payload ≡ ok environment
      → sync_after_save ≡ true
      → server.sync_environment environment.id ≡ err message
      → FailsWith server payload sync_after_save message
  at_list :
      (environment : EnvironmentSummary)
      → server.create_environment payload ≡ ok environment
      → IsSynced server sync_after_save environment
      → server.environments ≡ err message
      → FailsWith server payload sync_after_save message

abbrev pub registered : String → Bool → String
registered name true = "Registered " ⊕ (name ⊕ " and queued an initial sync.")
registered name false = "Registered " ⊕ (name ⊕ ".")

-- The open dialogue for a new environment is closed only when the environment was registered, its sync queued
-- if it was asked for, and the list read again: then the page has the list as it was read, no error and
-- the message for what was done. Else the dialogue stays open, so that the form is not lost, over the
-- old list, with the error of the first of these requests that failed. The page is not busy after either.
pub handle_create_lem :
    (server : Server) (payload : EnvironmentMutationPayload) (sync_after_save : Bool)
    (s : PageState)
    → s.is_create_modal_open ≡ true
    → ((message : String) × FailsWith server payload sync_after_save message
        × ((handle_create server payload sync_after_save s).error ≡ some message)
        × ((handle_create server payload sync_after_save s).is_create_modal_open ≡ true)
        × ((handle_create server payload sync_after_save s).environments ≡ s.environments)
        × ((handle_create server payload sync_after_save s).busy ≡ false))
      ⊎ ((environment : EnvironmentSummary) × (items : List EnvironmentSummary)
          × (server.create_environment payload ≡ ok environment)
          × IsSynced server sync_after_save environment
          × (server.environments ≡ ok items)
          × (handle_create server payload sync_after_save s ≡ record s {
            environments = items;
            busy = false;
            is_create_modal_open = false;
            error = none;
            message = some (registered environment.name sync_after_save);
          }))
unfolding handle_create load_environments
handle_create_lem server payload true s o =
    elim (Result-cases (server.create_environment payload)) [
      | inl (m, r) ↦ inl (m, at_create r, rw r refl, rw r o, rw r refl, refl)
      | inr (environment, r) ↦ elim (Result-cases (server.sync_environment environment.id)) [
        | inl (m, q) ↦
            inl (m, at_sync environment r refl q, rw (r, q) refl, rw (r, q) o, rw (r, q) refl, refl)
        | inr (u, q) ↦ elim (Result-cases server.environments) [
          | inl (m, l) ↦ inl (
            m,
            at_list environment r (inr q) l,
            rw (r, q, l) refl,
            rw (r, q, l) o,
            rw (r, q, l) refl,
            refl,
          )
          | inr (items, l) ↦ inr (environment, items, r, inr q, l, rw (r, q, l) refl)
        ]
      ]
    ]
handle_create_lem server payload false s o =
    elim (Result-cases (server.create_environment payload)) [
      | inl (m, r) ↦ inl (m, at_create r, rw r refl, rw r o, rw r refl, refl)
      | inr (environment, r) ↦ elim (Result-cases server.environments) [
        | inl (m, l) ↦ inl (
          m,
          at_list environment r (inl refl) l,
          rw (r, l) refl,
          rw (r, l) o,
          rw (r, l) refl,
          refl,
        )
        | inr (items, l) ↦ inr (environment, items, r, inl refl, l, rw (r, l) refl)
      ]
    ]
