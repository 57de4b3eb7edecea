-- ===== src/Database/Logger.antt =====
-- pigate/pkg/database/sqlite_repository.go, `sqliteAccessLogger`: the log of the gate's requests.
use pigate.Prelude.{
  ℕ, ◌*◌, ◌/◌, ◌≡◌, refl, sym, ap, ◌∙◌, String, List, [], ◌∷◌, ◌++◌, map, append_assoc, append-nil,
  ok, M, pure, ◌>>=◌,
}
use pigate.Database.Models.{GateLog}
use pigate.Database.Sql.{Db, call, for_each, query, scan}

-- A row of `gate_request_log`, less its serial number: the time is a Unix timestamp.
pub record LogRow : Type 0 where
  pub code : String
  pub time : ℕ
  pub status : String

abbrev pub second : ℕ
second = 1000000000

-- `logEntry.Time.Unix()`.
unfoldable pub log_row : GateLog → LogRow
log_row l = record { code = l.code; time = l.time / second; status = l.status }

-- `time.Unix(ts, 0)`.
unfoldable pub gate_log : LogRow → GateLog
gate_log r = record { code = r.code; time = r.time * second; status = r.status }

unfoldable pub put_gate_log : GateLog → M (Db (List LogRow)) (Unit {0})
put_gate_log l = call (λ rows. (ok tt, rows ++ log_row l ∷ []))

-- The rows come in the order of their serial numbers. `rows.Err()` is not asked.
unfoldable pub get_gate_logs : M (Db (List LogRow)) (List GateLog)
get_gate_logs = do rows ← query (λ t. t); pure (map gate_log rows.read)

-- What is left of a log entry: its time is cut to the second.
abbrev pub cut : GateLog → GateLog
cut l = record l { time = l.time / second * second }

put_all_quiet :
    (logs : List GateLog) (rows : List LogRow)
    → for_each put_gate_log logs (record { tables = rows; faults = [] })
      ≡ (ok tt, record { tables = rows ++ map log_row logs; faults = [] })
unfolding for_each put_gate_log call
put_all_quiet [] rows =
    ap (λ l. (ok tt, record { tables = l; faults = [] })) (sym (append-nil rows))
put_all_quiet (l ∷ logs) rows =
    put_all_quiet logs (rows ++ log_row l ∷ [])
    ∙ ap (λ k. (ok tt, record { tables = k; faults = [] }))
        (append_assoc rows (log_row l ∷ []) (map log_row logs))

scan_calm : (rows : List LogRow) → (scan rows []).0.read ≡ rows
unfolding scan
scan_calm [] = refl
scan_calm (r ∷ rows) = refl

get_gate_logs_quiet :
    (rows : List LogRow)
    → (get_gate_logs (record { tables = rows; faults = [] })).0 ≡ ok (map gate_log rows)
unfolding get_gate_logs query call
get_gate_logs_quiet rows = ap (λ l. ok (map gate_log l)) (scan_calm rows)

map-append-cut :
    (rows : List LogRow) (logs : List GateLog)
    → map gate_log (rows ++ map log_row logs) ≡ map gate_log rows ++ map cut logs
unfolding gate_log log_row
map-append-cut [] [] = refl
map-append-cut [] (l ∷ logs) = ap (λ k. cut l ∷ k) (map-append-cut [] logs)
map-append-cut (r ∷ rows) logs = ap (λ k. gate_log r ∷ k) (map-append-cut rows logs)

-- With no failing call, after a list of entries was logged one by one, the log reads as before,
-- followed by these entries in their order, each with its time cut to the second.
pub get_gate_logs-put_gate_log :
    (logs : List GateLog) (rows : List LogRow)
    → (get_gate_logs (for_each put_gate_log logs (record { tables = rows; faults = [] })).1).0
      ≡ ok (map gate_log rows ++ map cut logs)
get_gate_logs-put_gate_log logs rows =
    rw (put_all_quiet logs rows)
      (get_gate_logs_quiet (rows ++ map log_row logs) ∙ ap ok (map-append-cut rows logs))
