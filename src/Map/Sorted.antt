-- ===== src/Map/Sorted.antt =====
-- Maps by number keep their keys in order, and so hold each key once.
use monaka_fs.Prelude.{ℕ, ◌≤◌, ◌<◌, ◌≡◌, refl, [], ◌∷◌, none, arith}
use monaka_fs.Key.{nat_key}
use monaka_fs.Map.{Map, get, insert}

-- The keys go up, and all of them are above `b`.
abbrev pub Above : {V : Type 0} → ℕ → Map ℕ V → Type 0
Above b [] = Unit
Above b ((k, v) ∷ m) = (b < k) × Above k m

abbrev pub IsSorted : {V : Type 0} → Map ℕ V → Type 0
IsSorted [] = Unit
IsSorted ((k, v) ∷ m) = Above k m

module _ {V : Type 0} where
  insert-Above : (b : ℕ) (m : Map ℕ V) (k : ℕ) (v : V) → b < k → Above b m → Above b (insert m k v)
  unfolding insert
  insert-Above b [] k v lt h = (lt, tt)
  insert-Above b ((j, w) ∷ m) k v lt h = ground (arith, insert-Above j m k v)

  pub insert-IsSorted : (m : Map ℕ V) (k : ℕ) (v : V) → IsSorted m → IsSorted (insert m k v)
  unfolding insert
  insert-IsSorted [] k v h = tt
  insert-IsSorted ((j, w) ∷ m) k v h = ground (arith, insert-Above j m k v)

  pub get-Above : (b : ℕ) (m : Map ℕ V) (k : ℕ) → Above b m → k ≤ b → get m k ≡ none
  unfolding get
  get-Above b [] k h le = refl
  get-Above b ((j, w) ∷ m) k h le = ground (arith, get-Above j m k)

  pub Above-IsSorted : (b : ℕ) (m : Map ℕ V) → Above b m → IsSorted m
  Above-IsSorted b [] h = tt
  Above-IsSorted b ((k, v) ∷ m) h = h.1
