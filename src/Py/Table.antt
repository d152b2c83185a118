-- ===== src/Py/Table.antt =====
-- A table of SQLite with a primary key, as rows in insertion order.
use amarr.Prelude.{
  ◌≡◌, refl, ◌↔◌, Bool, true, false, Option, none, some, List, [], ◌∷◌, ◌++◌, arith, if◌then◌else◌,
}

module _ {ℓ κ} {K : Type ℓ} {V : Type κ} (same : K → K → Bool) where
  -- `SELECT value WHERE key = ?`
  unfoldable pub select : K → List (K × V) → Option V
  select k [] = none
  select k ((j, v) ∷ rows) = let later = select k rows in if same j k then some v else later

  -- `DELETE WHERE key = ?`
  unfoldable pub delete : K → List (K × V) → List (K × V)
  delete k [] = []
  delete k ((j, v) ∷ rows) = let rest = delete k rows in if same j k then rest else (j, v) ∷ rest

  -- `INSERT OR REPLACE`: the row of the key, if any, is deleted, and the new one comes last.
  unfoldable pub insert_or_replace : K → V → List (K × V) → List (K × V)
  insert_or_replace k v rows = delete k rows ++ (k, v) ∷ []

  -- No key stands in two rows.
  unfoldable pub absent : K → List (K × V) → Bool
  absent k [] = true
  absent k ((j, v) ∷ rows) = let rest = absent k rows in if same j k then false else rest

  unfoldable pub unique : List (K × V) → Bool
  unique [] = true
  unique ((k, v) ∷ rows) = let rest = unique rows in if absent k rows then rest else false

-- With `same` deciding equality.
module _ {ℓ κ} {K : Type ℓ} {V : Type κ} (same : K → K → Bool)
    (same_iff : (j k : K) → (same j k ≡ true) ↔ (j ≡ k)) where
  pub select-delete :
      (k j : K) (rows : List (K × V))
      → select same j (delete same k rows) ≡ (if same k j then none else select same j rows)
  unfolding select delete
  select-delete k j [] = ground arith
  select-delete k j ((i, v) ∷ rows) =
      ground (arith, select-delete k j rows, same_iff i k, same_iff i j, same_iff k j)

  select-append :
      (k j : K) (v : V) (rows : List (K × V))
      → select same j (rows ++ (k, v) ∷ [])
        ≡ elim (select same j rows) [ none ↦ (if same k j then some v else none) | some w ↦ some w ]
  unfolding select
  select-append k j v [] = ground arith
  select-append k j v ((i, w) ∷ rows) = ground (arith, select-append k j v rows)

  -- A lookup after an insertion.
  pub select-insert_or_replace :
      (k j : K) (v : V) (rows : List (K × V))
      → select same j (insert_or_replace same k v rows)
        ≡ (if same k j then some v else select same j rows)
  unfolding insert_or_replace
  select-insert_or_replace k j v rows =
      ground (arith, select-append k j v (delete same k rows), select-delete k j rows)

  absent-delete :
      (k j : K) (rows : List (K × V))
      → absent same j rows ≡ true
      → absent same j (delete same k rows) ≡ true
  unfolding absent delete
  absent-delete k j [] h = refl
  absent-delete k j ((i, v) ∷ rows) h = ground (arith, absent-delete k j rows)

  absent-delete_self : (k : K) (rows : List (K × V)) → absent same k (delete same k rows) ≡ true
  unfolding absent delete
  absent-delete_self k [] = refl
  absent-delete_self k ((i, v) ∷ rows) = ground (arith, absent-delete_self k rows)

  absent-append :
      (k j : K) (v : V) (rows : List (K × V))
      → absent same j rows ≡ true
      → same k j ≡ false
      → absent same j (rows ++ (k, v) ∷ []) ≡ true
  unfolding absent
  absent-append k j v [] h n = ground arith
  absent-append k j v ((i, w) ∷ rows) h n = ground (arith, absent-append k j v rows)

  pub unique-delete :
      (k : K) (rows : List (K × V))
      → unique same rows ≡ true
      → unique same (delete same k rows) ≡ true
  unfolding unique delete
  unique-delete k [] u = refl
  unique-delete k ((i, v) ∷ rows) u = ground (arith, unique-delete k rows, absent-delete k i rows)

  unique-append :
      (k : K) (v : V) (rows : List (K × V))
      → unique same rows ≡ true
      → absent same k rows ≡ true
      → unique same (rows ++ (k, v) ∷ []) ≡ true
  unfolding unique absent
  unique-append k v [] u a = refl
  unique-append k v ((i, w) ∷ rows) u a =
      ground (arith, unique-append k v rows, absent-append k i v rows, same_iff i k, same_iff k i)

  -- An insertion keeps the key unique.
  pub unique-insert_or_replace :
      (k : K) (v : V) (rows : List (K × V))
      → unique same rows ≡ true
      → unique same (insert_or_replace same k v rows) ≡ true
  unfolding insert_or_replace
  unique-insert_or_replace k v rows u =
      unique-append k v (delete same k rows) (unique-delete k rows u) (absent-delete_self k rows)
