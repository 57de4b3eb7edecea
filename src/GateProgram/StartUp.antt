-- ===== src/GateProgram/StartUp.antt =====
-- From the start of the program to the first code.
use pigate.Prelude.{ℕ, ◌≡◌, refl, ap, ◌∙◌, String, true, [], ◌∷◌, ℤ, All, returns, some, string_eq}
use mathlib.Core.Option.{or_else}
use pigate.Database.Models.{Time, AccessTime}
use pigate.Database.Table.{find, NodupKeys}
use pigate.Database.Credentials.{Tables, code_of, allowed}
use pigate.Database.Credentials.Laws.{stored}
use pigate.Database.Credentials.Quiet.{calm}
use pigate.Database.Sqlite.{AccessRow}
use pigate.Database.Updater.{handle_update_notification}
use pigate.Database.Updater.Merge.{find-stored}
use pigate.Database.Updater.Times.{timed, handle_update_notification_quiet}
use pigate.Messenger.Messages.{topic_pigate_status, status_closed}
use pigate.Messenger.Client.{Client, publish, notify_gate_closed}
use pigate.Gate.Controller.{closed, low, new_gate_controller, init_pin_control, set_status_notifier}
use pigate.Gate.Keypad.Reader.{join, new_keypad_reader}
use pigate.Gate.Keypad.Reader.Typing.{Press, name_of, sent_code}
use pigate.GateProgram.{hear, synchronise, begin, announce, start_up}
use pigate.GateProgram.Keys.{all_pulses, admitted, hear-all_pulses}

module _ (client : Client) where
  -- The program starts with no failing call, with no key before it has started, and with a remote database that meets its PRIMARY KEY
  -- and its CHECK. Then the gate is closed, its relay is low, and `closed` was published, retained.
  -- Five keys that are pressed next, with no time-out between them, open it for a while, or for good
  -- where the mode is `lock_open`, if their code is valid by the remote credential of the code, or
  -- else the local one, and by the remote access time of its group, or else the local one.
  pub hear-start_up :
      (location : String) (duration : ℤ) (mqtt : client.State) (near : Tables AccessRow)
      (remote : Tables AccessTime) (a b c d e : Press) (now : Time) (instant : ℕ)
      → NodupKeys code_of remote.credentials
      → All (λ c. allowed c.open_mode ≡ true) remote.credentials
      → let p =
          start_up client location duration
            (record { near = calm near; remote = calm remote })
            mqtt in
        let names = name_of a ∷ name_of b ∷ name_of c ∷ name_of d ∷ name_of e ∷ [] in
        let known =
          or_else
            (find code_of (join names) remote.credentials)
            (find code_of (join names) near.credentials) in
        (p.gate.state ≡ closed)
        × (p.gate.pin ≡ some low)
        × (p.mqtt ≡ (publish client (topic_pigate_status location) true status_closed mqtt).1)
        × (hear client (all_pulses (a ∷ b ∷ c ∷ d ∷ e ∷ [])) now instant p
            ≡ returns (record p {
              reader = sent_code names new_keypad_reader;
              gate =
                  admitted now instant (timed remote.access_times near).access_times known p.gate;
            }))
  unfolding start_up begin announce synchronise handle_update_notification notify_gate_closed
      new_keypad_reader init_pin_control set_status_notifier new_gate_controller
  hear-start_up location duration mqtt near remote a b c d e now instant u fits =
      let names = name_of a ∷ name_of b ∷ name_of c ∷ name_of d ∷ name_of e ∷ [] in
      let p =
        start_up client location duration (record { near = calm near; remote = calm remote })
          mqtt in
      let after = timed remote.access_times (stored remote.credentials near) in
      let synced = handle_update_notification_quiet near remote "" "" fits in
      (
        refl,
        refl,
        refl,
        hear-all_pulses client a b c d e now instant after p
              (record { empty = refl; running = refl }) refl refl (ap (λ s. s.near) synced)
            ∙ ap
                (λ c. returns (record p {
                  reader = sent_code names p.reader;
                  gate = admitted now instant after.access_times c p.gate;
                }))
                (find-stored near remote (join names) u),
      )
