-- ===== src/Pages/Access/Providers.antt =====
-- The identity providers of the access page.
use ansible_aam.Prelude.{String, ◌≡◌, refl, inl, inr, false, none, if◌then◌else◌}
use ansible_aam.Prelude.Dict.{Dict}
use ansible_aam.Prelude.Text.{is_empty}
use ansible_aam.Prelude.Result.{is_ok, Result, ok, err, Result-cases}
use ansible_aam.Value.{Value}
use ansible_aam.Types.{DirectoryProvider}
use ansible_aam.Pages.Access.{
  PageState, Server, edit_provider, provider_body, send_provider, save_provider, empty_provider,
  reload,
}

-- The text of an error.
abbrev pub error_text {ℓ} : {T : Type ℓ} → Result T → String
error_text (ok value) = ""
error_text (err message) = message

-- What the API answers to an update of a provider with the fields that it has, and no secret.
abbrev pub same_update : Server → DirectoryProvider → Result (Unit {0})
same_update server item = server.update_identity_provider item.id (record {
  name = item.name;
  provider_type = item.provider_type;
  enabled = item.enabled;
  allow_all_authenticated = item.allow_all_authenticated;
  config = item.config;
  secret = none;
})

-- A provider that is opened for editing is saved, where it is not changed, by an update with its own
-- fields and no secret, whose answer alone decides: if the API refuses it, its error is shown and the
-- form is kept; if it accepts, the form is emptied, and an error is shown only if the lists cannot be
-- read again. `JSON.parse` is assumed to read back what `JSON.stringify` wrote of the configuration.
pub edit-save_provider :
    (server : Server) (json_parse : String → Result (Dict Value)) (stringify : Dict Value → String)
    (item : DirectoryProvider) (s : PageState)
    → json_parse (stringify item.config) ≡ ok item.config
    → is_empty item.id ≡ false
    → ((save_provider server json_parse
          (record s { provider = edit_provider stringify item })).error
        ≡ (if is_ok (same_update server item)
            then error_text server.reloaded
            else error_text (same_update server item)))
      × ((save_provider server json_parse
            (record s { provider = edit_provider stringify item })).provider
          ≡ (if is_ok (same_update server item)
              then empty_provider
              else edit_provider stringify item))
unfolding save_provider reload send_provider edit_provider provider_body
edit-save_provider server json_parse stringify item s h e =
    elim (Result-cases (same_update server item)) [
      | inl (m, r) ↦ (rw (h, e, r) refl, rw (h, e, r) refl)
      | inr (u, r) ↦ elim (Result-cases server.reloaded) [
        | inl (m, q) ↦ (rw (h, e, r, q) refl, rw (h, e, r, q) refl)
        | inr (lists, q) ↦ (rw (h, e, r, q) refl, rw (h, e, r, q) refl)
      ]
    ]
