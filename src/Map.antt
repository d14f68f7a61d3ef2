-- ===== src/Map.antt =====
-- `BTreeMap`: an association list in the order of its keys. The program goes by `get`, `insert`,
-- `remove`, `contains_key`, `keys`, `iter` and `is_empty`. It stands for `HashMap` and `HashSet` too,
-- whose order, which the source leaves open, is that of the keys here.
pub mod Sorted
use monaka_fs.Prelude.{
  ◌≡◌, ◌⊎◌, refl, Bool, true, false, List, [], ◌∷◌, Option, none, some, arith, if◌then◌else◌, inl,
  inr, Bool-cases,
}
use monaka_fs.Key.{Key, ◌==◌, ◌≺◌}

abbrev pub Map : Type 0 → Type 0 → Type 0
Map K V = List (K × V)

module _ {K V : Type 0} ⦃key : Key K⦄ where
  unfoldable pub get : Map K V → K → Option V
  get [] k = none
  get ((j, v) ∷ m) k = if j == k then some v else get m k

  unfoldable pub insert : Map K V → K → V → Map K V
  insert [] k v = (k, v) ∷ []
  insert ((j, w) ∷ m) k v =
      if j == k then (k, v) ∷ m else if k ≺ j then (k, v) ∷ (j, w) ∷ m else (j, w) ∷ insert m k v

  unfoldable pub remove : Map K V → K → Map K V
  remove [] k = []
  remove ((j, w) ∷ m) k = let rest = remove m k in if j == k then rest else (j, w) ∷ rest

  abbrev pub contains_key : Map K V → K → Bool
  contains_key m k = elim (get m k) [ none ↦ false | some _ ↦ true ]

  pub get-insert :
      (m : Map K V) (k j : K) (v : V) → get (insert m k v) j ≡ (if k == j then some v else get m j)
  unfolding get insert
  get-insert [] k j v = refl
  get-insert ((i, w) ∷ m) k j v =
      ground (arith, key.beq_iff i k, key.beq_iff k j, key.beq_iff i j, get-insert m k j v)

  pub get-remove : (m : Map K V) (k j : K) → get (remove m k) j ≡ (if k == j then none else get m j)
  unfolding get remove
  get-remove [] k j = ground arith
  get-remove ((i, w) ∷ m) k j =
      ground (arith, key.beq_iff i k, key.beq_iff k j, key.beq_iff i j, get-remove m k j)

pub get-nil : {K V : Type 0} ⦃key : Key K⦄ (k : K) → get {V = V} [] k ≡ none
unfolding get
get-nil k = refl

module _ {K V : Type 0} ⦃key : Key K⦄ where
  pub get-insert_self : (m : Map K V) (k : K) (v : V) → get (insert m k v) k ≡ some v
  get-insert_self m k v = ground (arith, get-insert m k k v, key.beq_iff k k)

  pub get-insert_cases :
      (m : Map K V) (k j : K) (v w : V)
      → get (insert m k v) j ≡ some w
      → ((k ≡ j) × (v ≡ w)) ⊎ (get m j ≡ some w)
  get-insert_cases m k j v w h = elim (Bool-cases (k == j)) [
    | inl e ↦ inl ((key.beq_iff k j).0 e, ground (arith, get-insert m k j v))
    | inr e ↦ inr (ground (arith, get-insert m k j v))
  ]

  pub get-remove-some :
      (m : Map K V) (k j : K) (w : V) → get (remove m k) j ≡ some w → get m j ≡ some w
  get-remove-some m k j w h = ground (arith, get-remove m k j)

abbrev pub keys : {K V : Type 0} → Map K V → List K
keys [] = []
keys ((k, v) ∷ m) = k ∷ keys m

abbrev pub is_empty : {K V : Type 0} → Map K V → Bool
is_empty [] = true
is_empty (e ∷ m) = false
