-- ===== src/Database/Sql.antt =====
-- The database engines as the program meets them. A database is its tables and a schedule of
-- faults: every call takes the next entry of the schedule, and fails without an effect when that
-- entry is `true` (a lost connection, a full disk, an expired context). No entry left means that
-- no further call fails. A theorem for every schedule covers every way in which calls can fail.
pub mod Laws
use pigate.Prelude.{
  Bool, true, false, List, [], ◌∷◌, service, Result, ok, err, M, and_then, ◌>>=◌, ◌>>◌, pure,
}

pub record Db (T : Type 0) : Type 0 where
  pub tables : T
  pub faults : List Bool

module _ {T A : Type 0} where
  -- A statement that reaches the engine.
  abbrev pub run : (T → Result A × T) → T → List Bool → Result A × Db T
  run f t faults = let (r, t') = f t in (r, record { tables = t'; faults = faults })

  abbrev pub attempt : (T → Result A × T) → T → List Bool → Result A × Db T
  attempt f t [] = run f t []
  attempt f t (false ∷ faults) = run f t faults
  attempt f t (true ∷ faults) = (err service, record { tables = t; faults = faults })

  -- One call of the driver: `Exec`, `QueryRow`, `Query`, `Begin`, `Prepare`, `Commit`, `Ping`.
  unfoldable pub call : (T → Result A × T) → M (Db T) A
  call f db = attempt f db.tables db.faults

-- A call that changes no table.
abbrev pub request : {T : Type 0} → M (Db T) (Unit {0})
request = call (λ t. (ok tt, t))

module _ {T A : Type 0} where
  -- `defer tx.Rollback()`: on an error the tables are those before `Begin`.
  abbrev pub roll_back : T → Result A × Db T → Result A × Db T
  roll_back before (ok a, db) = (ok a, db)
  roll_back before (err e, db) = (err e, record db { tables = before })

  -- `Begin`, the statements through the transaction, `Commit`, and the deferred `Rollback`.
  unfoldable pub in_transaction : M (Db T) A → M (Db T) A
  unfolding call
  in_transaction body = do request; λ db. roll_back db.tables ((do a ← body; request; pure a) db)

-- `for _, x := range xs { if err := f(x); err != nil { return err } }`.
unfoldable pub for_each : {S A : Type 0} → (A → M S (Unit {0})) → List A → M S (Unit {0})
for_each f [] s = (ok tt, s)
for_each f (x ∷ xs) s = let (r, s') = f x s in and_then r s' (λ _. for_each f xs)

-- The rows that a loop over `rows.Next()` has read, and whether it ended by an error, which only
-- `rows.Err()` tells.
pub record Rows (V : Type 0) : Type 0 where
  pub read : List V
  pub broken : Bool

-- Each `rows.Next()` takes an entry of the schedule.
unfoldable pub scan : {V : Type 0} → List V → List Bool → Rows V × List Bool
scan [] faults = (record { read = []; broken = false }, faults)
scan (v ∷ vs) [] = (record { read = v ∷ vs; broken = false }, [])
scan (v ∷ vs) (true ∷ faults) = (record { read = []; broken = true }, faults)
scan (v ∷ vs) (false ∷ faults) =
    let (rows, rest) = scan vs faults in
    (record { read = v ∷ rows.read; broken = rows.broken }, rest)

-- `Query` and the loop over its rows.
unfoldable pub query : {T V : Type 0} → (T → List V) → M (Db T) (Rows V)
unfolding call
query select = do
  request
  λ db.
      let (rows, faults) = scan (select db.tables) db.faults in
      (ok rows, record db { faults = faults })
