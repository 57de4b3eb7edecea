-- ===== src/Status/Server/Mirror.antt =====
-- The state in memory against the latest row of the location.
use pigate.Prelude.{
  ℕ, ◌≡◌, refl, ap, ◌∙◌, inl, inr, String, Option, none, some, List, [], ◌∷◌, ◌++◌, pair_cases,
  arith, string_eq, ◌==◌, if◌then◌else◌, Result-cases,
}
use pigate.Database.Sql.{call}
use pigate.Database.Table.{find}
use pigate.Messenger.Client.{Client}
use pigate.Status.State.{StatusState, set_gate_status, set_credential_status, set_command}
use pigate.Status.Store.{
  StatusStore, StatusTables, LatestRow, StatusEvent, location_of, default_row, set_columns,
  record_event, event, upsert_gate_status, upsert_credential_status, upsert_command,
  record_gate_status, record_credential_status, record_command,
}
use pigate.Status.Commands.{normalize_command}
use pigate.Status.Server.{
  App, ServerEvent, gate_reports, credential_reports, command_comes, on_gate_status,
  on_credential_status, handle_command, send_command, serve,
}
use pigate.Status.Server.Publishing.{IsCommand, normalize_command-IsCommand}

-- The payload that stands for a command of the page.
abbrev pub stored_command : String → Option String
stored_command command =
    if command == ""
    then none
    else if command == "lock_open"
    then some "hold_open"
    else some command

-- The row that says what the state says.
abbrev pub row_of : StatusState → LatestRow
row_of s = record {
  location_id = s.location_id;
  gate_status = s.gate_status;
  gate_status_at = s.gate_status_at;
  credential_status = s.credential_status;
  credential_status_at = s.credential_status_at;
  last_command = stored_command s.last_command;
  last_command_at = s.last_command_at;
}

abbrev or_default : String → Option LatestRow → LatestRow
or_default location none = default_row location
or_default location (some r) = r

abbrev pub row_at : String → List LatestRow → LatestRow
row_at location rows = or_default location (find location_of location rows)

row_at-set_columns :
    (location : String) (f : LatestRow → LatestRow) (rows : List LatestRow)
    → ((r : LatestRow) → location_of (f r) ≡ location_of r)
    → row_at location (set_columns location f rows) ≡ f (row_at location rows)
unfolding find set_columns
row_at-set_columns location f [] keeps = ground (arith, keeps (default_row location))
row_at-set_columns location f (r ∷ rows) keeps =
    ground (arith, keeps r, row_at-set_columns location f rows keeps)

-- A store whose calls do not fail.
abbrev pub calm_store : StatusTables → StatusStore
calm_store t = some (record { tables = t; faults = [] })

-- The latest row of the location is the state.
pub record Mirrors (state : StatusState) (store : StatusStore) : Type 0 where
  pub tables : StatusTables
  pub calm : store ≡ calm_store tables
  pub row : row_at state.location_id tables.latest ≡ row_of state

-- An event is recorded, and some columns of the row are set.
abbrev recorded : String → StatusEvent → (LatestRow → LatestRow) → StatusTables → StatusTables
recorded location e f t = record {
  events = t.events ++ e ∷ [];
  latest = set_columns location f t.latest;
}

-- A change of the state, and the same change of the row.
recorded-Mirrors :
    (s s' : StatusState) (store store' : StatusStore) (m : Mirrors s store) (e : StatusEvent)
    (f : LatestRow → LatestRow)
    → store' ≡ calm_store (recorded s.location_id e f m.tables)
    → ((r : LatestRow) → location_of (f r) ≡ location_of r)
    → s'.location_id ≡ s.location_id
    → f (row_of s) ≡ row_of s'
    → Mirrors s' store'
recorded-Mirrors s s' store store' m e f calm keeps place same = record {
  tables = recorded s.location_id e f m.tables;
  calm = calm;
  row =
      ap (λ l. row_at l (set_columns s.location_id f m.tables.latest)) place
      ∙ row_at-set_columns s.location_id f m.tables.latest keeps
      ∙ ap f m.row
      ∙ same;
}

stored_command-of_IsCommand :
    (command payload : String) → IsCommand command payload → stored_command command ≡ some payload
unfolding string_eq
stored_command-of_IsCommand command payload (inl (c, p)) = rw (c, p)
stored_command-of_IsCommand command payload (inr (inl (c, p))) = rw (c, p)
stored_command-of_IsCommand command payload (inr (inr (c, p))) = rw (c, p)

module _ (client : Client) where
  on_gate_status-Mirrors :
      (topic status : String) (now : ℕ) (a : App client)
      → Mirrors a.state a.store
      → let a' = on_gate_status client topic status now a in Mirrors a'.state a'.store
  unfolding on_gate_status record_gate_status record_event upsert_gate_status call set_gate_status
  on_gate_status-Mirrors topic status now a m =
      recorded-Mirrors a.state _ a.store _ m
        (event a.state.location_id "gate_status" topic status now)
        (λ r. record r { gate_status = status; gate_status_at = some now }) (rw m.calm refl)
        (λ r. refl) refl refl

  on_credential_status-Mirrors :
      (topic status : String) (now : ℕ) (a : App client)
      → Mirrors a.state a.store
      → let a' = on_credential_status client topic status now a in Mirrors a'.state a'.store
  unfolding on_credential_status record_credential_status record_event upsert_credential_status call
      set_credential_status
  on_credential_status-Mirrors topic status now a m =
      recorded-Mirrors a.state _ a.store _ m
        (event a.state.location_id "credential_status" topic status now)
        (λ r. record r { credential_status = status; credential_status_at = some now })
        (rw m.calm refl) (λ r. refl) refl refl

  accepted-Mirrors :
      (command payload topic : String) (now : ℕ) (a : App client)
      → IsCommand command payload
      → Mirrors a.state a.store
      → Mirrors
          (set_command command now a.state)
          (record_command a.state.location_id topic payload now a.store).1
  unfolding record_command record_event upsert_command call set_command
  accepted-Mirrors command payload topic now a is m =
      recorded-Mirrors a.state _ a.store _ m
        (event a.state.location_id "gate_command" topic payload now)
        (λ r. record r { last_command = some payload; last_command_at = some now }) (rw m.calm refl)
        (λ r. refl) refl (rw (stored_command-of_IsCommand command payload is))

  handle_command-Mirrors :
      (body : Option String) (now : ℕ) (a : App client)
      → Mirrors a.state a.store
      → let a' = (handle_command client body now a).1 in Mirrors a'.state a'.store
  unfolding handle_command
  handle_command-Mirrors none now a m = m
  handle_command-Mirrors (some raw) now a m = elim (pair_cases (normalize_command raw)) [
    | inl (e, bad) ↦ rw bad m
    | inr (command, payload, good) ↦
        elim (Result-cases (send_command client a.state.location_id command a.mqtt).0) [
          | inr (e, failed) ↦ rw (good, failed) m
          | inl (unit, fine) ↦
              rw (good, fine)
                (accepted-Mirrors command payload _ now a
                  (normalize_command-IsCommand raw command payload good) m)
        ]
  ]

  -- From a store whose calls do not fail, and whose latest row of the location says what the state
  -- in memory says: so it does after any reports and commands.
  pub serve-Mirrors :
      (es : List (ServerEvent client)) (a : App client)
      → Mirrors a.state a.store
      → let a' = serve client es a in Mirrors a'.state a'.store
  unfolding serve
  serve-Mirrors [] a m = m
  serve-Mirrors (gate_reports topic status now ∷ es) a m =
      serve-Mirrors es _ (on_gate_status-Mirrors topic status now a m)
  serve-Mirrors (credential_reports topic status now ∷ es) a m =
      serve-Mirrors es _ (on_credential_status-Mirrors topic status now a m)
  serve-Mirrors (command_comes command now ∷ es) a m =
      serve-Mirrors es _ (handle_command-Mirrors command now a m)
