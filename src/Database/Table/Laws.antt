-- ===== src/Database/Table/Laws.antt =====
-- What a batch of upserts leaves under a key, and predicates on all rows of a table.
use pigate.Prelude.{
  ◌≡◌, refl, Option, some, List, [], ◌∷◌, arith, Eq, ◌==◌, if◌then◌else◌, All, ◌∙◌,
}
use pigate.Database.Table.{find, upsert, delete, delete_any, upsert_all, delete_all, find-upsert}

module _ {K V : Type 0} ⦃e : Eq K⦄ (key : V → K) where
  -- The last of `vs` with the key `k`, or else `old`.
  abbrev pub latest : K → List V → Option V → Option V
  latest k [] old = old
  latest k (v ∷ vs) old = latest k vs (if key v == k then some v else old)

  pub find-upsert_all :
      (k : K) (vs rows : List V)
      → find key k (upsert_all key vs rows) ≡ latest k vs (find key k rows)
  unfolding upsert_all
  find-upsert_all k [] rows = refl
  find-upsert_all k (v ∷ vs) rows =
      find-upsert_all k vs (upsert key v rows) ∙ (λ i. latest k vs (find-upsert key k v rows i))

  module _ (P : V → Type 0) where
    pub All-upsert : (v : V) (rows : List V) → P v → All P rows → All P (upsert key v rows)
    unfolding upsert
    All-upsert v [] p h = (p, tt)
    All-upsert v (w ∷ rows) p h = ground (arith, All-upsert v rows p h.1)

    pub All-upsert_all : (vs rows : List V) → All P vs → All P rows → All P (upsert_all key vs rows)
    unfolding upsert_all
    All-upsert_all [] rows p h = h
    All-upsert_all (v ∷ vs) rows p h =
        All-upsert_all vs (upsert key v rows) p.1 (All-upsert v rows p.0 h)

    pub All-delete : (k : K) (rows : List V) → All P rows → All P (delete key k rows)
    unfolding delete
    All-delete k [] h = tt
    All-delete k (w ∷ rows) h = ground (arith, All-delete k rows h.1)

    pub All-delete_all : (ks : List K) (rows : List V) → All P rows → All P (delete_all key ks rows)
    unfolding delete_all
    All-delete_all [] rows h = h
    All-delete_all (k ∷ ks) rows h = All-delete_all ks (delete key k rows) (All-delete k rows h)

    pub All-find : (k : K) (rows : List V) {v : V} → All P rows → find key k rows ≡ some v → P v
    unfolding find
    All-find k [] h q = absurd (cc)
    All-find k (w ∷ rows) {v} h q = ground (arith, All-find k rows {v = v} h.1)

    pub All-delete_any : (ks : List K) (rows : List V) → All P rows → All P (delete_any key ks rows)
    unfolding delete_any
    All-delete_any ks [] h = tt
    All-delete_any ks (w ∷ rows) h = ground (arith, All-delete_any ks rows h.1)
