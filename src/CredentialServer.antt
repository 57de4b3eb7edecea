-- ===== src/CredentialServer.antt =====
-- pigate/cmd/credentialserver/main.go: the callback that handles a file and announces it, and the
-- start of the program. Each callback runs as a whole here.
pub mod EndToEnd
pub mod Service
pub mod CommandLine
use pigate.Prelude.{String, List, Error, Result, ok, err, Outcome, returns, panics}
use pigate.Database.Postgres.{Remote}
use pigate.Messenger.Client.{Client, notify_new_credentials}
use pigate.Parser.Path.{FilePath}
use pigate.Parser.Sync.{handle_file}

module _ (client : Client) (location : String) where
  -- What the program changes: the remote database, and what was published.
  pub record Server : Type 0 where
    pub remote : Remote
    pub mqtt : client.State

  abbrev announced : Outcome (Result (Unit {0}) × Remote) → Server → Outcome Server
  announced panics server = panics
  announced (returns (err e, remote)) server = returns (record server { remote = remote })
  announced (returns (ok unit, remote)) server =
      returns
        (record { remote = remote; mqtt = (notify_new_credentials client location server.mqtt).1 })

  -- The callback, with what the CSV reader gives for the file. An error is logged.
  unfoldable pub on_change : Result (List (List String)) → Server → Outcome Server
  on_change read server = announced (handle_file read server.remote) server

  -- At the start the file that is found is handled in the same way; that there is none is logged.
  unfoldable pub start_up :
      Result FilePath → (FilePath → Result (List (List String))) → Server → Outcome Server
  start_up (err e) read server = returns server
  start_up (ok path) read server = on_change (read path) server
