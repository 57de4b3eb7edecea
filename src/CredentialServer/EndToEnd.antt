-- ===== src/CredentialServer/EndToEnd.antt =====
-- From a file that appears in the directory to the gate.
use pigate.Prelude.{
  ℕ, ◌≡◌, refl, ap, ◌∙◌, String, Bool, true, Option, some, string_eq, int_eq, List, ◌∷◌, ◌++◌,
  Result, ok, returns,
}
use mathlib.Core.Option.{or_else}
use pigate.Database.Models.{Time, Credential, AccessTime}
use pigate.Database.Table.{find}
use pigate.Database.Credentials.{Tables, code_of}
use pigate.Database.Credentials.Laws.{stored}
use pigate.Database.Credentials.Quiet.{calm}
use pigate.Database.Sqlite.{AccessRow}
use pigate.Database.Managers.{sqlite_access_manager}
use pigate.Database.Updater.{handle_update_notification}
use pigate.Database.Updater.Merge.{find-stored}
use pigate.Database.Updater.Times.{timed, handle_update_notification_quiet}
use pigate.Messenger.Messages.{topic_credentials_status, update_available}
use pigate.Messenger.Client.{Client, publish, notify_new_credentials}
use pigate.Gate.Access.{validate_credential}
use pigate.Gate.Access.Local.{local_manager, verdict, validate_credential_quiet}
use pigate.Parser.Path.{FilePath, IsPlain, is_text_file_lem, txt}
use pigate.Parser.Watcher.{Op, Received, event, is_change, watch, watch_first}
use pigate.Parser.File.{no_columns, find_columns}
use pigate.Parser.File.Laws.{from_row}
use pigate.Parser.File.Credentials.{IsRectangular}
use pigate.Parser.Sync.Effect.{manual}
use pigate.Parser.Sync.EndToEnd.{IsSound, Handled, handle_file_lem}
use pigate.CredentialServer.{Server, on_change}

-- What a code is worth at the gate after the update: the credential in the file, or else one of the remote
-- database that does not come from the feed, or else the one that the gate had.
abbrev pub known :
    (String → Option Credential) → Tables AccessTime → Tables AccessRow → String → Option Credential
known row remote near code =
    or_else (or_else (row code) (manual (find code_of code remote.credentials)))
      (find code_of code near.credentials)

validate_credential-update :
    (read : Result (List (List String))) (t : Tables AccessTime) (row : String → Option Credential)
    (near : Tables AccessRow) (topic message code : String) (now : Time) (h : Handled read t row)
    → (validate_credential local_manager code now
        (handle_update_notification sqlite_access_manager topic message
          (record { near = calm near; remote = calm h.after })).near).0
      ≡ returns (verdict now (known row t near code) (timed t.access_times near).access_times)
validate_credential-update read t row near topic message code now h =
    rw (handle_update_notification_quiet near h.after topic message h.sound.modes) (
      validate_credential_quiet code now
        (timed h.after.access_times (stored h.after.credentials near))
      ∙ ap (λ c. returns (verdict now c (timed h.after.access_times near).access_times))
          (find-stored near h.after code h.sound.codes
            ∙ ap (λ o. or_else o (find code_of code near.credentials)) (h.finds code))
      ∙ ap (λ ats. returns (verdict now (known row t near code) (timed ats near).access_times))
          h.times)

module _ (client : Client) (location : String) where
  -- A file whose name ends in `.txt` is created in the directory, written or renamed, on a system
  -- where neither the dot nor `t` or `x` separates the elements of a path; its header has the
  -- three columns, and its records are as long as the header. With no failing call to either
  -- database, and a sound remote one: the watcher starts the callback with its name; the callback
  -- handles the file and publishes `update_available`, retained, to the topic of the location;
  -- and when the gate has handled that notification, it judges every code by its first row in the
  -- file, or else by a remote credential that does not come from the feed, or else by the
  -- credential that it had, each with the remote access time of its group, or else the one it
  -- had.
  pub on_change_lem :
      (is_separator : ℕ → Bool) (base : FilePath) (op : Op) (rest : List Received)
      (header first : List String) (rows : List (List String)) (u c l : ℕ) (t : Tables AccessTime)
      (near : Tables AccessRow) (mqtt : client.State) (code : String) (now : Time)
      → IsPlain is_separator
      → is_change op ≡ true
      → find_columns 0 header no_columns
        ≡ record { username = some u; code = some c; locked_out = some l }
      → IsRectangular header (first ∷ rows)
      → IsSound t.credentials
      → let topic = topic_credentials_status location in
        let name = base ++ txt in
        ((watch is_separator (event name op ∷ rest)).started
          ≡ name ∷ (watch is_separator rest).started)
        × (server : Server client location) × (on_change client location
              (ok (header ∷ first ∷ rows))
              (record { remote = calm t; mqtt = mqtt })
            ≡ returns server)
        × (server.mqtt ≡ (publish client topic true update_available mqtt).1)
        × ((validate_credential local_manager code now
              (handle_update_notification sqlite_access_manager topic update_available
                (record { near = calm near; remote = server.remote })).near).0
            ≡ returns (
                verdict now
                  (known (λ k. from_row u c l k (first ∷ rows)) t near code)
                  (timed t.access_times near).access_times))
  unfolding on_change notify_new_credentials
  on_change_lem is_separator base op rest header first rows u c l t near mqtt code now plain change
        found wide s =
      let h = handle_file_lem header first rows u c l t found wide s in
      (
        watch_first is_separator (base ++ txt) op rest
            ((is_text_file_lem is_separator (base ++ txt) plain).1 (base, refl)) change,
        record { remote = calm h.after; mqtt = (notify_new_credentials client location mqtt).1 },
        rw h.result refl,
        refl,
        validate_credential-update _ t _ near _ _ code now h,
      )
