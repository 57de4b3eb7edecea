-- ===== src/Database/Sql/Laws.antt =====
-- Transactions and loops of statements, for every schedule of faults.
use pigate.Prelude.{◌≡◌, sym, subst, ◌⊎◌, inl, inr, List, [], ◌∷◌, arith, Error, Result, ok, err, M}
use pigate.Database.Sql.{Db, call, request, in_transaction, for_each}

module _ {T A : Type 0} (body : M (Db T) A) (db : Db T) where
  -- A transaction that returns an error leaves the tables as they were.
  pub in_transaction-eq-err :
      {e : Error}
      → (in_transaction body db).0 ≡ err e
      → (in_transaction body db).1.tables ≡ db.tables
  unfolding in_transaction
  in_transaction-eq-err h = ground arith

  -- A transaction that returns no error has run its body on the tables, and keeps what it did.
  pub in_transaction-eq-ok :
      {a : A}
      → (in_transaction body db).0 ≡ ok a
      → (s : Db T) × (s.tables ≡ db.tables)
        × ((body s).0 ≡ ok a)
        × ((in_transaction body db).1.tables ≡ (body s).1.tables)
  unfolding in_transaction
  in_transaction-eq-ok h = ((request db).1, ground arith, ground arith, ground arith)

-- A statement either fails and changes nothing, or is executed.
pub call_cases :
    {T A : Type 0} (f : T → Result A × T) (db : Db T)
    → (((call f db).0 ≡ err Error.service) × ((call f db).1.tables ≡ db.tables))
      ⊎ (((call f db).0 ≡ (f db.tables).0) × ((call f db).1.tables ≡ (f db.tables).1))
unfolding call
call_cases f db = ground arith

-- With no fault to come a call is its statement.
pub call_quiet :
    {T A : Type 0} (f : T → Result A × T) (db : Db T)
    → db.faults ≡ []
    → call f db ≡ ((f db.tables).0, record { tables = (f db.tables).1; faults = [] })
unfolding call
call_quiet f db h = ground arith

module _ {S A : Type 0} (f : A → M S (Unit {0})) (x : A) (xs : List A) (s : S) where
  pub for_each_step : (f x s).0 ≡ ok tt → for_each f (x ∷ xs) s ≡ for_each f xs (f x s).1
  unfolding for_each
  for_each_step h = rw h

  pub for_each_stop : (e : Error) → (f x s).0 ≡ err e → for_each f (x ∷ xs) s ≡ (err e, (f x s).1)
  unfolding for_each
  for_each_stop e h = rw h

-- What a statement keeps, its call keeps.
pub call_keeps :
    {T A : Type 0} (P : T → Type 0) (f : T → Result A × T) (db : Db T)
    → P db.tables
    → P (f db.tables).1
    → P (call f db).1.tables
call_keeps P f db before after = elim (call_cases f db) [
  | inl (failed, kept) ↦ subst P (sym kept) before
  | inr (done, moved) ↦ subst P (sym moved) after
]
