-- ===== src/Database/Table.antt =====
-- A database table with a primary key: the rows, and what the program's statements do to them.
-- The statements are the SQL texts of sqlite_repository.go and postgresql_repository.go.
pub mod Laws
use pigate.Prelude.{
  ◌≡◌, refl, Option, none, some, List, [], ◌∷◌, ◌++◌, arith, Eq, ◌==◌, contains, if◌then◌else◌,
}

module _ {K V : Type 0} ⦃e : Eq K⦄ (key : V → K) where
  -- `SELECT … WHERE key = ?` with `QueryRow`.
  unfoldable pub find : K → List V → Option V
  find k [] = none
  find k (v ∷ rows) = if key v == k then some v else find k rows

  -- `INSERT … ON CONFLICT(key) DO UPDATE SET` every other column.
  unfoldable pub upsert : V → List V → List V
  upsert v [] = v ∷ []
  upsert v (w ∷ rows) = if key w == key v then v ∷ rows else w ∷ upsert v rows

  -- `DELETE … WHERE key = ?`.
  unfoldable pub delete : K → List V → List V
  delete k [] = []
  delete k (v ∷ rows) = let rest = delete k rows in if key v == k then rest else v ∷ rest

  -- `DELETE … WHERE key = ANY(ks)`.
  unfoldable pub delete_any : List K → List V → List V
  delete_any ks [] = []
  delete_any ks (v ∷ rows) =
      let rest = delete_any ks rows in if contains ks (key v) then rest else v ∷ rest

  -- The upserts of a list in its order.
  unfoldable pub upsert_all : List V → List V → List V
  upsert_all [] rows = rows
  upsert_all (v ∷ vs) rows = upsert_all vs (upsert v rows)

  -- The deletions of a list in its order.
  unfoldable pub delete_all : List K → List V → List V
  delete_all [] rows = rows
  delete_all (k ∷ ks) rows = delete_all ks (delete k rows)

  -- PRIMARY KEY: no key stands in two rows.
  abbrev pub NodupKeys : List V → Type 0
  NodupKeys [] = Unit
  NodupKeys (v ∷ rows) = (find (key v) rows ≡ none) × NodupKeys rows

  pub find-upsert :
      (k : K) (v : V) (rows : List V)
      → find k (upsert v rows) ≡ (if key v == k then some v else find k rows)
  unfolding find upsert
  find-upsert k v [] = refl
  find-upsert k v (w ∷ rows) = ground (arith, find-upsert k v rows)

  pub find-delete :
      (k j : K) (rows : List V) → find k (delete j rows) ≡ (if k == j then none else find k rows)
  unfolding find delete
  find-delete k j [] = ground arith
  find-delete k j (w ∷ rows) = ground (arith, find-delete k j rows)

  pub find-delete_any :
      (k : K) (ks : List K) (rows : List V)
      → find k (delete_any ks rows) ≡ (if contains ks k then none else find k rows)
  unfolding find delete_any
  find-delete_any k ks [] = ground arith
  find-delete_any k ks (w ∷ rows) = ground (arith, find-delete_any k ks rows)

  pub upsert-NodupKeys : (v : V) (rows : List V) → NodupKeys rows → NodupKeys (upsert v rows)
  unfolding find upsert
  upsert-NodupKeys v [] u = (refl, tt)
  upsert-NodupKeys v (w ∷ rows) (fresh, u) =
      ground (arith, upsert-NodupKeys v rows u, find-upsert (key w) v rows)

  pub delete-NodupKeys : (k : K) (rows : List V) → NodupKeys rows → NodupKeys (delete k rows)
  unfolding delete
  delete-NodupKeys k [] u = tt
  delete-NodupKeys k (w ∷ rows) (fresh, u) =
      ground (arith, delete-NodupKeys k rows u, find-delete (key w) k rows)

  pub delete_any-NodupKeys :
      (ks : List K) (rows : List V) → NodupKeys rows → NodupKeys (delete_any ks rows)
  unfolding delete_any
  delete_any-NodupKeys ks [] u = tt
  delete_any-NodupKeys ks (w ∷ rows) (fresh, u) =
      ground (arith, delete_any-NodupKeys ks rows u, find-delete_any (key w) ks rows)

  pub upsert_all-NodupKeys : (vs rows : List V) → NodupKeys rows → NodupKeys (upsert_all vs rows)
  unfolding upsert_all
  upsert_all-NodupKeys [] rows u = u
  upsert_all-NodupKeys (v ∷ vs) rows u =
      upsert_all-NodupKeys vs (upsert v rows) (upsert-NodupKeys v rows u)

  pub delete_all-NodupKeys :
      (ks : List K) (rows : List V) → NodupKeys rows → NodupKeys (delete_all ks rows)
  unfolding delete_all
  delete_all-NodupKeys [] rows u = u
  delete_all-NodupKeys (k ∷ ks) rows u =
      delete_all-NodupKeys ks (delete k rows) (delete-NodupKeys k rows u)

  pub upsert_all-append :
      (vs ws rows : List V) → upsert_all (vs ++ ws) rows ≡ upsert_all ws (upsert_all vs rows)
  unfolding upsert_all
  upsert_all-append [] ws rows = refl
  upsert_all-append (v ∷ vs) ws rows = upsert_all-append vs ws (upsert v rows)

  -- Deleting one key after the other removes what one statement over all of them removes.
  pub delete_any-nil : (rows : List V) → delete_any [] rows ≡ rows
  unfolding delete_any
  delete_any-nil [] = refl
  delete_any-nil (v ∷ rows) = ground (arith, delete_any-nil rows)

  pub delete_any-cons :
      (k : K) (ks : List K) (rows : List V)
      → delete_any (k ∷ ks) rows ≡ delete_any ks (delete k rows)
  unfolding delete_any delete
  delete_any-cons k ks [] = refl
  delete_any-cons k ks (v ∷ rows) = ground (arith, delete_any-cons k ks rows)

  pub delete_all-eq-delete_any :
      (ks : List K) (rows : List V) → delete_all ks rows ≡ delete_any ks rows
  unfolding delete_all
  delete_all-eq-delete_any [] rows = ground (arith, delete_any-nil rows)
  delete_all-eq-delete_any (k ∷ ks) rows =
      ground (arith, delete_all-eq-delete_any ks (delete k rows), delete_any-cons k ks rows)
