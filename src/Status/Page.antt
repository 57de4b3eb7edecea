-- ===== src/Status/Page.antt =====
-- pigate/cmd/statusserver/main.go: what the page is told, and what the server does before it serves.
pub mod Restart
use pigate.Prelude.{
  ℕ, String, Bool, true, false, Option, none, some, Error, text, Result, ok, err, M, ◌>>◌,
}
use pigate.Database.Sql.{Db, call}
use pigate.Messenger.Client.{Client}
use pigate.Status.State.{StatusState, new_status_state}
use pigate.Status.Store.{StatusStore, StatusTables, load_latest}
use pigate.Status.Server.{App}

-- `dbHealth`. No error is the empty string.
pub record DbHealth : Type 0 where
  pub connected : Bool
  pub error : Option Error

pub record StatusSnapshot : Type 0 where
  pub location_id : String
  pub gate_status : String
  pub gate_status_at : Option ℕ
  pub credential_status : String
  pub credential_status_at : Option ℕ
  pub last_command : String
  pub last_command_at : Option ℕ
  pub mqtt_connected : Bool
  pub db_connected : Bool
  pub db_error : Option Error
  pub server_time : ℕ

unfoldable pub snapshot : Bool → DbHealth → ℕ → StatusState → StatusSnapshot
snapshot mqtt_connected health now s = record {
  location_id = s.location_id;
  gate_status = s.gate_status;
  gate_status_at = s.gate_status_at;
  credential_status = s.credential_status;
  credential_status_at = s.credential_status_at;
  last_command = s.last_command;
  last_command_at = s.last_command_at;
  mqtt_connected = mqtt_connected;
  db_connected = health.connected;
  db_error = health.error;
  server_time = now;
}

-- `newStatusStore`, with what `sql.Open` gives.
unfoldable pub new_status_store : Result (Db StatusTables) → StatusStore
new_status_store (err e) = none
new_status_store (ok db) = some db

abbrev not_configured : Error
not_configured = text "Postgres client is not configured"

-- A statement `IF NOT EXISTS`, or a ping: the tables are there, and stay as they are.
abbrev harmless : M (Db StatusTables) (Unit {0})
harmless = call (λ t. (ok tt, t))

abbrev three_statements : M (Db StatusTables) (Unit {0})
three_statements = do harmless; harmless; harmless

unfoldable pub init_schema : M StatusStore (Unit {0})
init_schema none = (err not_configured, none)
init_schema (some db) = let (r, db') = three_statements db in (r, some db')

abbrev healthy : Result (Unit {0}) → DbHealth
healthy (ok unit) = record { connected = true; error = none }
healthy (err e) = record { connected = false; error = some e }

unfoldable pub health : StatusStore → DbHealth × StatusStore
health none = (record { connected = false; error = some not_configured }, none)
health (some db) = let (r, db') = harmless db in (healthy r, some db')

module _ (client : Client) (is_connected : client.State → Bool) where
  -- The body of the response, which has the status 200.
  unfoldable pub handle_status : ℕ → App client → StatusSnapshot × App client
  handle_status now a =
      let (h, store) = health a.store in
      (snapshot (is_connected a.mqtt) h now a.state, record a { store = store })

  -- `main` up to the subscriptions: both errors of the store are logged, and so is that the broker
  -- cannot be reached.
  unfoldable pub start_up : String → StatusStore → client.State → App client
  start_up location store mqtt =
      let (loaded, store') = load_latest (new_status_state location) (init_schema store).1 in
      record { state = loaded.1; store = store'; mqtt = mqtt }
