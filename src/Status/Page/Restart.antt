-- ===== src/Status/Page/Restart.antt =====
-- What the page shows after a restart of the server.
use pigate.Prelude.{
  ℕ, ◌≡◌, refl, ap, sym, ◌∙◌, String, Bool, true, none, some, List, [], ◌∷◌, ok, Option, pair_cases,
  Result-cases, inl, inr, string_eq,
}
use pigate.Database.Sql.{call}
use pigate.Messenger.Client.{Client}
use pigate.Database.Table.{find}
use pigate.Status.Commands.{normalize_command}
use pigate.Status.State.{
  StatusState, new_status_state, set_gate_status, set_credential_status, set_command,
}
use pigate.Status.Store.{StatusStore, load_latest}
use pigate.Status.Server.{
  App, ServerEvent, gate_reports, credential_reports, command_comes, on_gate_status,
  on_credential_status, handle_command, send_command, serve,
}
use pigate.Status.Server.Mirror.{Mirrors, serve-Mirrors, calm_store}
use pigate.Status.Server.Reload.{reloaded, empty_tables, fresh-Mirrors, load_latest-Mirrors}
use pigate.Status.Page.{snapshot, init_schema, health, handle_status, start_up}

module _ (client : Client) (is_connected : client.State → Bool) where
  started-Mirrors :
      (location : String) (mqtt : client.State)
      → let a = start_up client is_connected location (calm_store empty_tables) mqtt in
        Mirrors a.state a.store
  unfolding start_up init_schema load_latest call find new_status_state
  started-Mirrors location mqtt = fresh-Mirrors location

  started-location :
      (location : String) (mqtt : client.State)
      → (start_up client is_connected location (calm_store empty_tables) mqtt).state.location_id
        ≡ location
  unfolding start_up init_schema load_latest call find new_status_state
  started-location location mqtt = refl

  shows_again :
      (s : StatusState) (store : StatusStore) (mqtt : client.State) (now : ℕ)
      → Mirrors s store
      → (handle_status client is_connected now
          (start_up client is_connected s.location_id store mqtt)).0
        ≡ snapshot (is_connected mqtt) (record { connected = true; error = none }) now (reloaded s)
  unfolding handle_status start_up init_schema health call load_latest
  shows_again s store mqtt now m =
      let again : (load_latest (new_status_state s.location_id) store).0 ≡ (ok tt, reloaded s) =
        load_latest-Mirrors s store m in
      rw m.calm (
        ap (λ r. snapshot (is_connected mqtt) (record { connected = true; error = none }) now r.1)
          (rw m.calm at again))

  handle_command-location_id :
      (body : Option String) (now : ℕ) (a : App client)
      → (handle_command client body now a).1.state.location_id ≡ a.state.location_id
  unfolding handle_command set_command
  handle_command-location_id none now a = refl
  handle_command-location_id (some raw) now a = elim (pair_cases (normalize_command raw)) [
    | inl (e, bad) ↦ rw bad refl
    | inr (command, payload, good) ↦
        elim (Result-cases (send_command client a.state.location_id command a.mqtt).0) [
          | inr (e, failed) ↦ rw (good, failed) refl
          | inl (unit, fine) ↦ rw (good, fine) refl
        ]
  ]

  serve-location_id :
      (es : List (ServerEvent client)) (a : App client)
      → (serve client es a).state.location_id ≡ a.state.location_id
  unfolding serve on_gate_status on_credential_status set_gate_status set_credential_status
  serve-location_id [] a = refl
  serve-location_id (gate_reports topic status now ∷ es) a =
      serve-location_id es (on_gate_status client topic status now a)
  serve-location_id (credential_reports topic status now ∷ es) a =
      serve-location_id es (on_credential_status client topic status now a)
  serve-location_id (command_comes body now ∷ es) a =
      serve-location_id es _ ∙ handle_command-location_id body now a

  pub handle_status-start_up :
      (es : List (ServerEvent client)) (location : String) (before after : client.State) (now : ℕ)
      → let a =
          serve client es
            (start_up client is_connected location (calm_store empty_tables) before) in
        (handle_status client is_connected now
          (start_up client is_connected location a.store after)).0
        ≡ snapshot
            (is_connected after)
            (record { connected = true; error = none })
            now
            (reloaded a.state)
  handle_status-start_up es location before after now =
      let first = start_up client is_connected location (calm_store empty_tables) before in
      let a = serve client es first in
      let same : a.state.location_id ≡ location =
        serve-location_id es first ∙ started-location location before in
      ap
        (λ l.
          (handle_status client is_connected now (start_up client is_connected l a.store after)).0)
        (sym same)
      ∙ shows_again a.state a.store after now
          (serve-Mirrors client es first (started-Mirrors location before))
