-- ===== src/Status/Server.antt =====
-- pigate/cmd/statusserver/main.go, `app`: the callbacks of the broker and the handler of commands.
pub mod Publishing
pub mod Mirror
pub mod Reload
pub mod Independence
use pigate.Prelude.{
  ℕ, String, Option, none, some, List, [], ◌∷◌, Error, text, Result, ok, err, M, string_eq, ◌==◌,
  if◌then◌else◌,
}
use pigate.Messenger.Messages.{topic_pigate_command}
use pigate.Messenger.Client.{Client, command_open, command_lock_open, command_close}
use pigate.Status.State.{StatusState, set_gate_status, set_credential_status, set_command}
use pigate.Status.Store.{StatusStore, record_gate_status, record_credential_status, record_command}
use pigate.Status.Commands.{normalize_command}

-- What is written as the response: the status 400 or 502 with an error, or 200 with the command.
pub data Response : Type 0 where
  bad_request bad_gateway : Error → Response
  accepted : String → Response

module _ (client : Client) where
  pub record App : Type 0 where
    pub state : StatusState
    pub store : StatusStore
    pub mqtt : client.State

  -- The two callbacks of `subscribeToStatus`. An error of the store is logged.
  unfoldable pub on_gate_status : String → String → ℕ → App → App
  on_gate_status topic status now a = record a {
    state = set_gate_status status now a.state;
    store = (record_gate_status a.state.location_id topic status now a.store).1;
  }

  unfoldable pub on_credential_status : String → String → ℕ → App → App
  on_credential_status topic status now a = record a {
    state = set_credential_status status now a.state;
    store = (record_credential_status a.state.location_id topic status now a.store).1;
  }

  -- The switch over the command.
  unfoldable pub send_command : String → String → M client.State (Unit {0})
  send_command location command s =
      if command == "open"
      then command_open client location s
      else if command == "lock_open"
      then command_lock_open client location s
      else if command == "close"
      then command_close client location s
      else (err (text "unsupported command"), s)

  -- After the switch.
  abbrev sent : String → String → ℕ → App → Result (Unit {0}) × client.State → Response × App
  sent command payload now a (err e, mqtt) = (bad_gateway e, record a { mqtt = mqtt })
  sent command payload now a (ok unit, mqtt) = (
    accepted command,
    record {
      state = set_command command now a.state;
      store =
          (record_command a.state.location_id (topic_pigate_command a.state.location_id) payload now
            a.store).1;
      mqtt = mqtt;
    },
  )

  abbrev normalized : Result (String × String) → ℕ → App → Response × App
  normalized (err e) now a = (bad_request e, a)
  normalized (ok (command, payload)) now a =
      sent command payload now a (send_command a.state.location_id command a.mqtt)

  -- `handleCommand`. The argument is the command that the body of the request decodes to, `none`
  -- for a body that does not decode.
  unfoldable pub handle_command : Option String → ℕ → App → Response × App
  handle_command none now a = (bad_request (text "invalid command request"), a)
  handle_command (some command) now a = normalized (normalize_command command) now a

  pub data ServerEvent : Type 0 where
    gate_reports credential_reports : String → String → ℕ → ServerEvent
    command_comes : Option String → ℕ → ServerEvent

  unfoldable pub serve : List ServerEvent → App → App
  serve [] a = a
  serve (gate_reports topic status now ∷ es) a = serve es (on_gate_status topic status now a)
  serve (credential_reports topic status now ∷ es) a =
      serve es (on_credential_status topic status now a)
  serve (command_comes command now ∷ es) a = serve es (handle_command command now a).1
