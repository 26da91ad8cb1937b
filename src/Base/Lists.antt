-- ===== src/Base/Lists.antt =====
-- Lists by position over the native numbers, and a property of all their elements.
use Prim.Native.Nat.{ℕ, zero, suc}
use mathlib.Core.Path.{◌≡◌, subst}
use mathlib.Core.Option.{Option, none, some, some-injective}
use mathlib.Core.List.{List, [], ◌∷◌, ◌++◌}

module _ {A : Type 0} where
  abbrev pub get_elem? : List A → ℕ → Option A
  get_elem? [] _ = none
  get_elem? (x ∷ _) zero = some x
  get_elem? (_ ∷ xs) (suc i) = get_elem? xs i

  abbrev pub set : List A → ℕ → A → List A
  set [] _ a = []
  set (_ ∷ xs) zero a = a ∷ xs
  set (x ∷ xs) (suc i) a = x ∷ set xs i a

  -- The list without the element at an index.
  abbrev pub erase : List A → ℕ → List A
  erase [] _ = []
  erase (_ ∷ xs) zero = xs
  erase (x ∷ xs) (suc i) = x ∷ erase xs i

module _ {A : Type 0} (P : A → Type 0) where
  abbrev pub All : List A → Type 0
  All [] = Unit
  All (x ∷ xs) = P x × All xs

  pub get_elem?-All : (xs : List A) (i : ℕ) (a : A) → get_elem? xs i ≡ some a → All xs → P a
  get_elem?-All [] i a e h = cc
  get_elem?-All (x ∷ xs) zero a e h = subst P (some-injective x a e) h.0
  get_elem?-All (x ∷ xs) (suc i) a e h = get_elem?-All xs i a e h.1

  pub set-All : (xs : List A) (i : ℕ) (a : A) → P a → All xs → All (set xs i a)
  set-All [] i a p h = tt
  set-All (x ∷ xs) zero a p h = (p, h.1)
  set-All (x ∷ xs) (suc i) a p h = (h.0, set-All xs i a p h.1)

  pub ++-All : (xs : List A) (a : A) → P a → All xs → All (xs ++ a ∷ [])
  ++-All [] a p h = (p, tt)
  ++-All (x ∷ xs) a p h = (h.0, ++-All xs a p h.1)

-- What holds of all elements is turned into what it implies.
pub All-map :
    {A : Type 0} (P Q : A → Type 0) → ((a : A) → P a → Q a) → (xs : List A) → All P xs → All Q xs
All-map P Q f [] h = tt
All-map P Q f (x ∷ xs) h = (f x h.0, All-map P Q f xs h.1)

pub erase-All : {A : Type 0} (P : A → Type 0) (xs : List A) (i : ℕ) → All P xs → All P (erase xs i)
erase-All P [] i h = tt
erase-All P (x ∷ xs) zero h = h.1
erase-All P (x ∷ xs) (suc i) h = (h.0, erase-All P xs i h.1)
