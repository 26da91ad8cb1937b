-- ===== src/Base/Table.antt =====
-- A database table with a numeric primary key, as rows in insertion order.
use polyglot_ticketing_v.Base.Tests.{◌==◌, if◌then◌else◌, Option-cases}
use Prim.Native.Nat.{ℕ}
use mathlib.Core.Path.{◌≡◌, refl}
use mathlib.Core.Logic.{inl, inr}
use mathlib.Core.Bool.{Bool, true, false}
use mathlib.Core.Option.{Option, none, some}
use mathlib.Core.List.{List, [], ◌∷◌}
use native.Mathlib.Omega.{arith}

abbrev pub Table : Type 0 → Type 0
Table V = List (ℕ × V)

module _ {V : Type 0} where
  -- The row with a given primary key.
  unfoldable pub lookup : ℕ → Table V → Option V
  lookup k [] = none
  lookup k ((j, v) ∷ rows) = if k == j then some v else lookup k rows

  -- Writes the row with a given primary key; a new row goes to the end.
  unfoldable pub write : ℕ → V → Table V → Table V
  write k v [] = (k, v) ∷ []
  write k v ((j, w) ∷ rows) = if k == j then (k, v) ∷ rows else (j, w) ∷ write k v rows

  pub lookup-write :
      (j k : ℕ) (v : V) (rows : Table V)
      → lookup j (write k v rows) ≡ (if j == k then some v else lookup j rows)
  unfolding lookup write
  lookup-write j k v [] = ground arith
  lookup-write j k v ((i, w) ∷ rows) = ground (arith, lookup-write j k v rows)

  -- To write the same again changes nothing.
  pub write_again : (k : ℕ) (v : V) (rows : Table V) → write k v (write k v rows) ≡ write k v rows
  unfolding write
  write_again k v [] = ground arith
  write_again k v ((j, w) ∷ rows) = ground (arith, write_again k v rows)

  -- The primary key is unique.
  abbrev pub IsKeyed : Table V → Type 0
  IsKeyed [] = Unit
  IsKeyed ((k, _) ∷ rows) = (lookup k rows ≡ none) × IsKeyed rows

  pub write-IsKeyed : (k : ℕ) (v : V) (rows : Table V) → IsKeyed rows → IsKeyed (write k v rows)
  unfolding lookup write
  write-IsKeyed k v [] h = (refl, tt)
  write-IsKeyed k v ((j, w) ∷ rows) h =
      ground (arith, write-IsKeyed k v rows h.1, lookup-write j k v rows)

module _ {V : Type 0} (test : ℕ → V → Bool) (before : V → V → Bool) where
  -- The better of a row and the best of the rows behind it; of equals the first.
  abbrev better : ℕ → V → Option (ℕ × V) → ℕ × V
  better k v none = (k, v)
  better k v (some (j, w)) = if before w v then (j, w) else (k, v)

  -- `SELECT … WHERE test ORDER BY before LIMIT 1`.
  unfoldable pub select_first : Table V → Option (ℕ × V)
  select_first [] = none
  select_first ((k, v) ∷ rows) =
      let rest = select_first rows in if test k v then some (better k v rest) else rest

  -- What is selected passes the test and is a row of the table.
  pub select_first_sound :
      (rows : Table V) (k : ℕ) (v : V)
      → IsKeyed rows
      → select_first rows ≡ some (k, v)
      → (test k v ≡ true) × (lookup k rows ≡ some v)
  unfolding select_first lookup
  select_first_sound [] k v h e = cc
  select_first_sound ((j, w) ∷ rows) k v h e = elim (Option-cases (select_first rows)) [
    | inl nothing ↦ ground (arith, nothing)
    | inr ((i, u), found) ↦ ground (arith, found, h.0, select_first_sound rows i u h.1 found)
  ]

  -- Where nothing is selected no row passes the test.
  pub select_first_complete :
      (rows : Table V) (k : ℕ) (v : V)
      → select_first rows ≡ none
      → lookup k rows ≡ some v
      → test k v ≡ false
  unfolding select_first lookup
  select_first_complete [] k v e l = cc
  select_first_complete ((j, w) ∷ rows) k v e l = ground (arith, select_first_complete rows k v)

module _ {A : Type 0} (before : A → A → Bool) where
  -- Puts a row behind those that come before it.
  unfoldable pub insert_sorted : A → List A → List A
  insert_sorted a [] = a ∷ []
  insert_sorted a (b ∷ bs) =
      let rest = insert_sorted a bs in if before b a then b ∷ rest else a ∷ b ∷ bs

  -- `ORDER BY before`.
  unfoldable pub sort : List A → List A
  unfolding insert_sorted
  sort [] = []
  sort (a ∷ xs) = insert_sorted a (sort xs)

-- `SELECT … WHERE test`.
unfoldable pub select : {V : Type 0} → (ℕ → V → Bool) → Table V → Table V
select test [] = []
select test ((k, v) ∷ rows) =
    let rest = select test rows in if test k v then (k, v) ∷ rest else rest
