-- ===== src/Examples/Programs.antt =====
-- The programs with a concrete broker, file and keys.
use pigate.Prelude.{
  ℕ, ◌≡◌, refl, ◌⊎◌, Bool, true, false, String, none, some, List, [], ◌∷◌, ◌++◌, pos, ℤ, ◌<>◌,
  Error, ok, err, returns, string_eq, int_eq, eqb, wrapped, All, ◌==◌, if◌then◌else◌,
}
use mathlib.Core.Option.{or_else}
use pigate.Config.{
  Viper, Environment, load_config, CredentialServerConfig, GateControllerConfig, StatusServerConfig,
  credential_server_config, gate_controller_config, status_server_config,
}
use pigate.Config.Secrets.{first_of, ReadsEnvironment, db_of, load_config_lem}
use pigate.Database.Table.{find, upsert, NodupKeys}
use pigate.Database.Table.Laws.{latest}
use pigate.Database.Models.{AccessTime}
use pigate.Database.Credentials.{Tables, code_of, allowed}
use pigate.Database.Credentials.Quiet.{calm}
use pigate.Database.Managers.{sqlite_access_manager}
use pigate.Database.Updater.{handle_update_notification}
use pigate.Database.Updater.Times.{timed}
use pigate.Messenger.Messages.{
  topic_credentials_status, update_available, topic_pigate_status, status_closed,
}
use pigate.Messenger.Client.{publish, late}
use pigate.Gate.Controller.{closed, low}
use pigate.Gate.Access.{validate_credential}
use pigate.Gate.Access.Local.{local_manager, verdict}
use pigate.Gate.Keypad.Reader.{join, new_keypad_reader}
use pigate.Gate.Keypad.Reader.Typing.{Press, name_of, sent_code}
use pigate.Messenger.Subscriptions.{
  Subscriber, topic_of, resubscribe_all, subscribe_topic, subscribe_each, recording,
  no_subscriptions, IsWalk, resubscribe_all_lem,
}
use pigate.Parser.Path.{FilePath, txt, IsPlain}
use pigate.Parser.Watcher.{Op, event, watch}
use pigate.Parser.File.Laws.{from_row}
use pigate.Parser.Find.{Node, file, directory, nil, cons, found, broken, not_found, find_text_file}
use pigate.Parser.Find.Laws.{met, IsPassed, Explains, find_text_file_lem}
use pigate.CredentialServer.{Server, on_change}
use pigate.CredentialServer.EndToEnd.{known, on_change_lem}
use pigate.GateProgram.{
  Program, hear, begin, start_up, ProgramEvent, keys, announces, ticks, credential_status, command,
  wakes, remote_changes, go_on,
}
use pigate.Examples.Database.{hours_valid, near-IsValid}
use pigate.Database.Updater.Validity.{AreValid}
use pigate.Database.Updater.{Sides}
use pigate.GateProgram.Keys.{all_pulses, admitted, hear-all_pulses}
use pigate.GateProgram.Running.{GoesOn, go_on-start_up}
use pigate.GateProgram.StartUp.{hear-start_up}
use pigate.Examples.Data.{noon, keeper, near, remote}
use pigate.Examples.Access.{gate}
use pigate.Examples.Parser.{header, first, more, header_found, remote-IsSound}
use pigate.Examples.Status.{broker}

abbrev slash : ℕ → Bool
slash c = eqb c 47

slash-IsPlain : IsPlain slash
slash-IsPlain = record { dot = refl; t = refl; x = refl }

abbrev created : Op
created = record { create = true; write = false; remove = false; rename = false; chmod = false }

on_change_lem_example :
    let topic = topic_credentials_status "north" in
    let name = (47 ∷ 97 ∷ []) ++ txt in
    ((watch slash (event name created ∷ [])).started ≡ name ∷ (watch slash []).started)
    × (server : Server broker "north") × (on_change broker "north"
          (ok (header ∷ first ∷ more))
          (record { remote = calm remote; mqtt = [] })
        ≡ returns server)
    × (server.mqtt ≡ (publish broker topic true update_available []).1)
    × ((validate_credential local_manager "4711" noon
          (handle_update_notification sqlite_access_manager topic update_available
            (record { near = calm near; remote = server.remote })).near).0
        ≡ returns (
            verdict noon
              (known (λ k. from_row 2 0 1 k (first ∷ more)) remote near "4711")
              (timed remote.access_times near).access_times))
on_change_lem_example =
    on_change_lem broker "north" slash (47 ∷ 97 ∷ []) created [] header first more 2 0 1 remote near
      [] "4711" noon slash-IsPlain refl header_found (refl, (refl, (refl, tt))) remote-IsSound

abbrev nine : Press
nine = record { bits = (true, false, false, true); times = (10, 20, 30, 40) }

abbrev star : Press
star = record { bits = (true, false, true, false); times = (110, 120, 130, 140) }

-- A resident, whose code has five keys.
abbrev residents : Tables AccessTime
residents = record remote { credentials = record keeper { code = "9*9*9" } ∷ [] }

-- The program at its start.
abbrev program : Program broker
program = start_up broker "north" (pos 20) (record { near = calm near; remote = calm residents }) []

hear-start_up_example :
    let names = name_of nine ∷ name_of star ∷ name_of nine ∷ name_of star ∷ name_of nine ∷ [] in
    let credential =
      or_else
        (find code_of (join names) residents.credentials)
        (find code_of (join names) near.credentials) in
    (program.gate.state ≡ closed)
    × (program.gate.pin ≡ some low)
    × (program.mqtt ≡ (publish broker (topic_pigate_status "north") true status_closed []).1)
    × (hear broker (all_pulses (nine ∷ star ∷ nine ∷ star ∷ nine ∷ [])) noon 100 program
        ≡ returns (record program {
          reader = sent_code names new_keypad_reader;
          gate =
              admitted noon 100
                (timed residents.access_times near).access_times
                credential
                program.gate;
        }))
unfolding allowed string_eq find
hear-start_up_example =
    hear-start_up broker "north" (pos 20) [] near residents nine star nine star nine noon 100
      (refl, tt) (refl, tt)

-- A key is broken off, and the reader waits for five more.
abbrev idle : Program broker
idle = record {
  gate = gate;
  reader = record new_keypad_reader { received = "12345" ∷ [] };
  sides = record { near = calm near; remote = calm remote };
  mqtt = [];
}

hear-all_pulses_example :
    let names = name_of star ∷ name_of nine ∷ name_of nine ∷ name_of star ∷ name_of nine ∷ [] in
    hear broker (all_pulses (star ∷ nine ∷ nine ∷ star ∷ nine ∷ [])) noon 100 idle
    ≡ returns (record idle {
      reader = sent_code names idle.reader;
      gate =
          admitted noon 100 near.access_times
            (find code_of (join names) near.credentials)
            idle.gate;
    })
unfolding new_keypad_reader
hear-all_pulses_example =
    hear-all_pulses broker star nine nine star nine noon 100 near idle
      (record { empty = refl; running = refl }) refl refl refl

-- Two text files below a directory, after a file of another kind.
abbrev feed : Node
feed = directory (
    cons (97 ∷ []) file (
      cons (98 ∷ []) (directory (cons ((98 ∷ []) ++ txt) file nil))
        (cons ((99 ∷ []) ++ txt) file nil)))

abbrev with_slash : FilePath → FilePath → FilePath
with_slash path name = path ++ 47 ∷ name

find_text_file_lem_example :
    let mets = met slash with_slash (47 ∷ []) feed in
    let r = find_text_file slash with_slash (47 ∷ []) (ok true) (ok feed) in
    ((p : FilePath) × (r ≡ ok p) × Explains slash with_slash mets (found p))
    ⊎ (((r ≡ err (wrapped "in" not_found)) × All (IsPassed slash with_slash) mets)
        ⊎ ((e : Error) × (r ≡ err (wrapped "error searching for .txt file" e))
            × Explains slash with_slash mets (broken e)))
find_text_file_lem_example = find_text_file_lem slash with_slash (47 ∷ []) feed slash-IsPlain

-- A broker that does not answer in time.
abbrev silent : Subscriber ℕ
silent = record { State = Unit {0}; subscribe = λ topic handler s. (late, s) }

abbrev calls : List (String × ℕ)
calls = ("a", 1) ∷ ("b", 2) ∷ ("a", 3) ∷ []

abbrev walk_order : List (String × ℕ)
walk_order = ("a", 3) ∷ ("b", 2) ∷ []

walk_order-IsWalk :
    IsWalk walk_order
      (subscribe_each (recording silent) calls (no_subscriptions silent tt)).handlers
unfolding find string_eq subscribe_each subscribe_topic upsert
walk_order-IsWalk = record { once = (refl, (refl, tt)); same = λ topic. refl }

resubscribe_all_lem_example :
    let r = subscribe_each (recording silent) calls (no_subscriptions silent tt) in
    let asked =
      (resubscribe_all
        (recording silent)
        walk_order
        (record r { broker = (r.broker.0, []) })).broker.1 in
    NodupKeys topic_of asked
    × ((topic : String) → find topic_of topic asked ≡ latest topic_of topic calls none)
resubscribe_all_lem_example = resubscribe_all_lem silent calls walk_order tt walk_order-IsWalk

-- Calls to both databases fail.
abbrev shaky_sides : Sides sqlite_access_manager
shaky_sides = record {
  near = record { tables = near; faults = false ∷ true ∷ [] };
  remote = record { tables = residents; faults = true ∷ [] };
}

shaky_sides-AreValid : AreValid shaky_sides
shaky_sides-AreValid = record { near_valid = near-IsValid; times_valid = (hours_valid, tt) }

abbrev happenings : List (ProgramEvent broker)
happenings =
    keys (all_pulses (nine ∷ star ∷ nine ∷ star ∷ nine ∷ [])) noon 100
    ∷ announces "north"
    ∷ ticks
    ∷ keys (all_pulses (nine ∷ star ∷ nine ∷ star ∷ nine ∷ [])) noon 200
    ∷ wakes 220 0
    ∷ command 230 "hold_open"
    ∷ remote_changes (calm remote)
    ∷ credential_status "north/credentials/status" "update_available"
    ∷ []

go_on-start_up_example :
    GoesOn broker (go_on broker happenings (begin broker (pos 20) shaky_sides []))
    × GoesOn broker (go_on broker happenings (start_up broker "north" (pos 20) shaky_sides []))
go_on-start_up_example =
    go_on-start_up broker "north" (pos 20) shaky_sides [] happenings shaky_sides-AreValid
      (tt, (tt, (tt, (tt, (tt, (tt, ((hours_valid, tt), (tt, tt))))))))

-- The file has the port and names a secret; the host comes from the environment.
abbrev config_file : String → String
config_file key =
    if key == "DB_PORT" then "5432" else if key == "DB_PASSWORD_ENV" then "SECRET" else ""

abbrev to_int : String → ℤ
to_int s = if s == "5432" then pos 5432 else pos 0

abbrev settings : Viper
settings = record {
  get_string = λ prefix env key. first_of (env (prefix <> "_" <> key)) (config_file key);
  get_int = λ prefix env key. to_int (first_of (env (prefix <> "_" <> key)) (config_file key));
}

settings-ReadsEnvironment : ReadsEnvironment settings
settings-ReadsEnvironment = record {
  file = config_file;
  to_int = to_int;
  strings = λ prefix env key. refl;
  ints = λ prefix env key. refl;
}

abbrev here : Environment
here name = if name == "PIGATE_DB_HOST" then "db.local" else if name == "SECRET" then "x" else ""

abbrev there : Environment
there name = if name == "HOME" then "root" else here name

load_config_lem_example :
    let db = db_of settings settings-ReadsEnvironment here in
    ((component : String)
      → load_config settings here component ≡ load_config settings there component)
    × ((c : CredentialServerConfig) × (credential_server_config settings here ≡ returns c)
        × (credential_server_config settings there ≡ returns c)
        × (c.db ≡ db))
    × ((c : GateControllerConfig) × (gate_controller_config settings here ≡ returns c)
        × (gate_controller_config settings there ≡ returns c)
        × (c.db ≡ db))
    × ((c : StatusServerConfig) × (status_server_config settings here ≡ returns c)
        × (status_server_config settings there ≡ returns c)
        × (c.db ≡ db))
unfolding string_eq settings-ReadsEnvironment
load_config_lem_example =
    load_config_lem settings settings-ReadsEnvironment here there
      (
        refl,
        (
          refl,
          (
            refl,
            (
              refl,
              (
                refl,
                (refl, (refl, (refl, (refl, (refl, (refl, (refl, (refl, (refl, (refl, tt)))))))))),
              ),
            ),
          ),
        ),
      )
      refl refl
