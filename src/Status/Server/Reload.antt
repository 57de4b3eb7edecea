-- ===== src/Status/Server/Reload.antt =====
-- What a restart of the status server makes of its state.
use pigate.Prelude.{◌≡◌, refl, ap, inl, inr, String, List, [], Option-cases, ok, string_eq}
use pigate.Database.Sql.{call}
use pigate.Database.Table.{find}
use pigate.Messenger.Client.{Client}
use pigate.Status.State.{StatusState, new_status_state, apply_latest, unless_empty}
use pigate.Status.Store.{
  StatusStore, StatusTables, LatestRow, location_of, default_row, persisted, load_latest, or_empty,
}
use pigate.Status.Server.{ServerEvent, serve}
use pigate.Status.Server.Mirror.{Mirrors, serve-Mirrors, calm_store, row_of, stored_command}

-- What a restarted server shows of a state: the payload of the last command, and the initial
-- status where an empty one was reported.
abbrev pub reloaded : StatusState → StatusState
reloaded s = record s {
  gate_status = unless_empty s.gate_status "unknown";
  credential_status = unless_empty s.credential_status "unknown";
  last_command = or_empty (stored_command s.last_command);
}

shown_again :
    (s : StatusState) (r : LatestRow)
    → r ≡ row_of s
    → apply_latest (persisted r) (new_status_state s.location_id) ≡ reloaded s
unfolding apply_latest new_status_state
shown_again s r same = ap (λ x. apply_latest (persisted x) (new_status_state s.location_id)) same

pub load_latest-Mirrors :
    (s : StatusState) (store : StatusStore)
    → Mirrors s store
    → (load_latest (new_status_state s.location_id) store).0 ≡ (ok tt, reloaded s)
unfolding load_latest call new_status_state apply_latest string_eq
load_latest-Mirrors s store m =
    elim (Option-cases (find location_of s.location_id m.tables.latest)) [
      | inl missing ↦
          rw (m.calm, missing)
            (ap (λ t. (ok tt, t)) (shown_again s (default_row s.location_id) (rw missing at m.row)))
      | inr (r, found) ↦
          rw (m.calm, found) (ap (λ t. (ok tt, t)) (shown_again s r (rw found at m.row)))
    ]

abbrev pub empty_tables : StatusTables
empty_tables = record { events = []; latest = [] }

pub fresh-Mirrors :
    (location : String) → Mirrors (new_status_state location) (calm_store empty_tables)
unfolding find new_status_state string_eq
fresh-Mirrors location = record { tables = empty_tables; calm = refl; row = refl }

-- A server that starts with an empty database, and whose store does not fail: after any reports and
-- commands, a server that is started again loads the same location, statuses and times, save that an
-- empty status is `unknown` again; of the last command it has the payload, which for `lock_open`
-- is `hold_open`.
pub load_latest-serve :
    (client : Client) (es : List (ServerEvent client)) (location : String) (mqtt : client.State)
    → let a = serve client es (record {
      state = new_status_state location;
      store = calm_store empty_tables;
      mqtt = mqtt;
    }) in
      (load_latest (new_status_state a.state.location_id) a.store).0 ≡ (ok tt, reloaded a.state)
load_latest-serve client es location mqtt =
    load_latest-Mirrors _ _ (serve-Mirrors client es _ (fresh-Mirrors location))
