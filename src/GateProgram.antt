-- ===== src/GateProgram.antt =====
-- pigate/cmd/gatecontroller/main.go: the program of the gate, in which the keypad, the controller, the
-- local database and the update from the remote one meet.
pub mod Keys
pub mod StartUp
pub mod Running
use pigate.Prelude.{
  ℕ, suc, zero, String, List, [], ◌∷◌, ℤ, Error, Result, ok, err, Outcome, returns, panics, length,
  Option, none, some, leb, get_elem?, if◌then◌else◌,
}
use pigate.Database.Models.{Time}
use pigate.Database.Postgres.{Remote}
use pigate.Gate.World.{remove_at}
use pigate.Database.Managers.{sqlite_access_manager}
use pigate.Database.Updater.{Sides, sync_credentials, sync_access_times, handle_update_notification}
use pigate.Messenger.Client.{Client, notify_gate_closed}
use pigate.Gate.Controller.{
  GateController, new_gate_controller, init_pin_control, set_status_notifier, command_handler,
  wake_up,
}
use pigate.Gate.Access.{open_gate}
use pigate.Gate.Access.Local.{local_manager}
use pigate.Gate.Keypad.Reader
use pigate.Gate.Keypad.Reader.{Reader, new_keypad_reader}

abbrev pub drop : List String → ℕ → List String
drop xs zero = xs
drop [] (suc n) = []
drop (x ∷ xs) (suc n) = drop xs n

module _ (client : Client) where
  pub record Program : Type 0 where
    pub gate : GateController
    pub reader : Reader
    pub sides : Sides sqlite_access_manager
    pub mqtt : client.State

  abbrev opened_by :
      Outcome GateController × (sqlite_access_manager).State → Program → Outcome Program
  opened_by (panics, near) p = panics
  opened_by (returns gate, near) p =
      returns (record p { gate = gate; sides = record (p.sides) { near = near } })

  -- The callback of the keypad reader: `gateCtrl.Open(code, time.Now())`.
  unfoldable pub on_code : String → Time → ℕ → Program → Outcome Program
  on_code code now instant p =
      opened_by (open_gate local_manager code now instant p.gate p.sides.near) p

  unfoldable pub on_codes : List String → Time → ℕ → Program → Outcome Program
  on_codes [] now instant p = returns p
  on_codes (code ∷ codes) now instant p = elim (on_code code now instant p) [
    | panics ↦ panics
    | returns p' ↦ on_codes codes now instant p'
  ]

  -- Events of the keypad within one second; the callback is called for each code that they send.
  unfoldable pub hear : List Reader.Event → Time → ℕ → Program → Outcome Program
  hear events now instant p =
      let reader = Reader.run events p.reader in
      on_codes (drop reader.received (length p.reader.received)) now instant
        (record p { reader = reader })

  -- A synchronisation, at the start and once a day: both errors are logged.
  unfoldable pub synchronise : Program → Program
  synchronise p = record p {
    sides =
        (sync_access_times sqlite_access_manager
          (sync_credentials sqlite_access_manager p.sides).1).1;
  }

  -- The callbacks of the two subscriptions.
  unfoldable pub on_credential_status : String → String → Program → Program
  on_credential_status topic message p = record p {
    sides = handle_update_notification sqlite_access_manager topic message p.sides;
  }

  unfoldable pub on_command : ℕ → String → Program → Program
  on_command now message p = record p { gate = command_handler now message p.gate }

  abbrev awaken : ℕ → Option ℕ → ℕ → Program → Program
  awaken now none i p = p
  awaken now (some due) i p =
      if leb due now
      then record p { gate = wake_up (record (p.gate) { timers = remove_at i p.gate.timers }) }
      else p

  -- Step 6: from here on the gate tells its changes. That the initial status is not published is
  -- logged.
  unfoldable pub announce : String → Program → Program
  announce location p = record p {
    gate = set_status_notifier p.gate;
    mqtt = (notify_gate_closed client location p.mqtt).1;
  }

  -- What happens to the program: keys, also before step 6; step 6; the ticker of a day, and step 7;
  -- messages of the two subscriptions; the `i`-th of the goroutines that will close the gate wakes up;
  -- and others change the remote database.
  pub data ProgramEvent : Type 0 where
    keys : List Reader.Event → Time → ℕ → ProgramEvent
    announces : String → ProgramEvent
    ticks : ProgramEvent
    credential_status : String → String → ProgramEvent
    command : ℕ → String → ProgramEvent
    wakes : ℕ → ℕ → ProgramEvent
    remote_changes : Remote → ProgramEvent

  unfoldable pub happen : ProgramEvent → Program → Outcome Program
  happen (keys events now instant) p = hear events now instant p
  happen (announces location) p = returns (announce location p)
  happen ticks p = returns (synchronise p)
  happen (credential_status topic message) p = returns (on_credential_status topic message p)
  happen (command now message) p = returns (on_command now message p)
  happen (wakes now i) p = returns (awaken now (get_elem? p.gate.timers i) i p)
  happen (remote_changes db) p = returns (record p { sides = record (p.sides) { remote = db } })

  unfoldable pub go_on : List ProgramEvent → Program → Outcome Program
  go_on [] p = returns p
  go_on (e ∷ es) p = elim (happen e p) [ panics ↦ panics | returns p' ↦ go_on es p' ]

  -- Steps 4 and 5: the gate has no notifier yet, and the keypad reader runs.
  unfoldable pub begin : ℤ → Sides sqlite_access_manager → client.State → Program
  begin gate_open_duration sides mqtt = record {
    gate = init_pin_control (new_gate_controller gate_open_duration);
    reader = new_keypad_reader;
    sides = sides;
    mqtt = mqtt;
  }

  -- Steps 4 to 7, where no key comes before they are done.
  unfoldable pub start_up : String → ℤ → Sides sqlite_access_manager → client.State → Program
  start_up location gate_open_duration sides mqtt =
      synchronise (announce location (begin gate_open_duration sides mqtt))
