-- ===== src/Examples/Status.antt =====
-- The status server at concrete reports and commands.
use pigate.Prelude.{
  ◌≡◌, refl, ◌⊎◌, String, Bool, true, not, is_nil, none, some, List, [], ◌∷◌, Error, ok, err,
  string_eq,
}
use pigate.Messenger.Client.{Client, in_time}
use pigate.Status.State.{new_status_state, set_command}
use pigate.Status.Commands.{normalize_command}
use pigate.Status.Server.{
  App, accepted, bad_request, bad_gateway, ServerEvent, gate_reports, credential_reports,
  command_comes, handle_command, serve,
}
use pigate.Status.Server.Publishing.{NoCommand, published, handle_command_lem}
use pigate.Status.Commands.Meaning.{Means}
use pigate.Status.Server.Mirror.{Mirrors, serve-Mirrors, calm_store}
use pigate.Status.Server.Reload.{fresh-Mirrors, empty_tables, reloaded}
use pigate.Status.Page.{snapshot, handle_status, start_up}
use pigate.Status.Page.Restart.{handle_status-start_up}
use pigate.Parser.Text.{trim_space, trim_left, trim_right, is_space}

-- A broker that takes every message: its state is the messages, the last first.
abbrev pub broker : Client
broker = record {
  State = List (String × String);
  send = λ topic retained payload s. (in_time (ok tt), (topic, payload) ∷ s);
}

commands_read : normalize_command " Locked_Open\n" ≡ ok ("lock_open", "hold_open")
unfolding normalize_command trim_space trim_left trim_right is_space
commands_read = refl

abbrev pub server : App broker
server = record { state = new_status_state "north"; store = calm_store empty_tables; mqtt = [] }

abbrev reports : List (ServerEvent broker)
reports =
    gate_reports "north/pigate/status" "opened" 7
    ∷ command_comes (some "hold_open") 8
    ∷ credential_reports "north/credentials/status" "update_available" 9
    ∷ []

handle_command_lem_example :
    let (response, a') = handle_command broker (some "close") 5 server in
    (NoCommand (some "close") × (e : Error) × (response ≡ bad_request e) × (a' ≡ server))
    ⊎ ((raw : String) × (some "close" ≡ some raw)
        × (command : String) × (payload : String) × Means raw command payload
        × (a'.mqtt ≡ (published broker 5 server payload).1)
        × (((e : Error) × ((published broker 5 server payload).0 ≡ err e)
              × (response ≡ bad_gateway e)
              × (a'.state ≡ server.state)
              × (a'.store ≡ server.store))
            ⊎ (((published broker 5 server payload).0 ≡ ok tt)
                × (response ≡ accepted command)
                × (a'.state ≡ set_command command 5 server.state))))
handle_command_lem_example = handle_command_lem broker 5 server (some "close")

server-Mirrors : Mirrors server.state server.store
server-Mirrors = fresh-Mirrors "north"

serve-Mirrors_example : let a = serve broker reports server in Mirrors a.state a.store
serve-Mirrors_example = serve-Mirrors broker reports server server-Mirrors

-- A broker that is reachable once it has got a message.
abbrev reachable : List (String × String) → Bool
reachable messages = not (is_nil messages)

handle_status-start_up_example :
    let first = start_up broker reachable "north" (calm_store empty_tables) [] in
    let a = serve broker reports first in
    (handle_status broker reachable 12 (start_up broker reachable "north" a.store a.mqtt)).0
    ≡ snapshot (reachable a.mqtt) (record { connected = true; error = none }) 12 (reloaded a.state)
handle_status-start_up_example =
    handle_status-start_up broker reachable reports "north" []
      (serve broker reports (start_up broker reachable "north" (calm_store empty_tables) [])).mqtt
      12
