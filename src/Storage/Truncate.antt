-- ===== src/Storage/Truncate.antt =====
-- `truncate`: the bytes below the new size stay, and those from it on are zeros.
use monaka_fs.Prelude.{
  ℕ, zero, suc, ◌-◌, ◌/◌, ◌%◌, ◌^◌, ◌<◌, ◌≡◌, refl, ap, inl, inr, ◌&&◌, [], ◌∷◌, arith, ltb, leb,
  ◌==◌, if◌then◌else◌, length, get_or, Bool-cases, Option, none, some, take, get_or-take,
}
use monaka_fs.Storage.{
  BlockStorage, Blocks, Bytes, block_size, div_ceil, clear_from, clear_last, shrink, truncate,
}
use monaka_fs.Storage.View.{byte_of, byte_at, IsSized, IsValid}

length-clear_from : (n : ℕ) (b : Bytes) → length (clear_from n b) ≡ length b
unfolding clear_from
length-clear_from n [] = refl
length-clear_from zero (x ∷ b) = ap suc (length-clear_from zero b)
length-clear_from (suc n) (x ∷ b) = ap suc (length-clear_from n b)

get_or-clear_from :
    (n : ℕ) (b : Bytes) (i : ℕ)
    → get_or (clear_from n b) i 0 ≡ (if ltb i n then get_or b i 0 else 0)
unfolding clear_from
get_or-clear_from n [] i = ground arith
get_or-clear_from zero (x ∷ b) zero = ground arith
get_or-clear_from zero (x ∷ b) (suc i) = ground (arith, get_or-clear_from zero b i)
get_or-clear_from (suc n) (x ∷ b) zero = ground arith
get_or-clear_from (suc n) (x ∷ b) (suc i) = ground (arith, get_or-clear_from n b i)

-- The bytes of a block after the clearing.
byte_of-clear_last :
    (blocks : Blocks) (index from i o : ℕ)
    → byte_of (get_or (clear_last blocks index from) i none) o
      ≡ (if (index == i) && leb from o then 0 else byte_of (get_or blocks i none) o)
unfolding clear_last
byte_of-clear_last [] index from i o = ground arith
byte_of-clear_last (none ∷ blocks) zero from zero o = ground arith
byte_of-clear_last (none ∷ blocks) zero from (suc i) o = ground arith
byte_of-clear_last (some b ∷ blocks) zero from zero o = ground (arith, get_or-clear_from from b o)
byte_of-clear_last (some b ∷ blocks) zero from (suc i) o = ground arith
byte_of-clear_last (none ∷ blocks) (suc index) from zero o = ground arith
byte_of-clear_last (some b ∷ blocks) (suc index) from zero o = ground arith
byte_of-clear_last (none ∷ blocks) (suc index) from (suc i) o =
    ground (arith, byte_of-clear_last blocks index from i o)
byte_of-clear_last (some b ∷ blocks) (suc index) from (suc i) o =
    ground (arith, byte_of-clear_last blocks index from i o)

IsSized-tail : (o : Option Bytes) (blocks : Blocks) → IsSized (o ∷ blocks) → IsSized blocks
IsSized-tail o blocks h i b e = h (suc i) b e

clear_last-IsSized :
    (blocks : Blocks) (index from : ℕ) → IsSized blocks → IsSized (clear_last blocks index from)
unfolding clear_last
clear_last-IsSized [] index from h i b e = cc
clear_last-IsSized (none ∷ blocks) zero from h i b e = h i b e
clear_last-IsSized (some c ∷ blocks) zero from h zero b e =
    ground (arith, length-clear_from from c, h 0 c refl)
clear_last-IsSized (some c ∷ blocks) zero from h (suc i) b e = h (suc i) b e
clear_last-IsSized (none ∷ blocks) (suc index) from h zero b e = cc
clear_last-IsSized (some c ∷ blocks) (suc index) from h zero b e = h 0 b e
clear_last-IsSized (none ∷ blocks) (suc index) from h (suc i) b e =
    clear_last-IsSized blocks index from (IsSized-tail none blocks h) i b e
clear_last-IsSized (some c ∷ blocks) (suc index) from h (suc i) b e =
    clear_last-IsSized blocks index from (IsSized-tail (some c) blocks h) i b e

take-IsSized : (n : ℕ) (blocks : Blocks) → IsSized blocks → IsSized (take n blocks)
take-IsSized n blocks h i b e = ground (arith, get_or-take n blocks i none, h i b)

shrink-IsSized : (blocks : Blocks) (n : ℕ) → IsSized blocks → IsSized (shrink blocks n)
unfolding shrink
shrink-IsSized blocks n h = elim (Bool-cases (ltb 0 n && ltb 0 count && ltb 0 (n % block_size))) [
  | inl e ↦ rw (e, shrink) (clear_last-IsSized _ _ _ (take-IsSized count blocks h))
  | inr e ↦ rw (e, shrink) (take-IsSized count blocks h)
]
  where
    count : ℕ
    count = div_ceil n block_size

byte_at-shrink :
    (blocks : Blocks) (n i : ℕ)
    → byte_at (shrink blocks n) i ≡ (if ltb i n then byte_at blocks i else 0)
unfolding shrink
byte_at-shrink blocks n i = ground (
  arith,
  byte_of-clear_last (take (div_ceil n block_size) blocks) (div_ceil n block_size - 1)
      (n % block_size) (i / block_size) (i % block_size),
  get_or-take (div_ceil n block_size) blocks (i / block_size) none,
)

-- `truncate` of a valid storage sets the size, keeps the bytes below it, and turns all others to
-- zeros, whether it shrinks or expands the file.
pub truncate_lem :
    (s : BlockStorage) (n : ℕ)
    → IsValid s
    → ((truncate s n).size ≡ n)
      × ((i : ℕ) → byte_at (truncate s n).blocks i ≡ (if ltb i n then byte_at s.blocks i else 0))
unfolding truncate
truncate_lem s n v = (ground arith, λ i. ground (arith, byte_at-shrink s.blocks n i, v.zeros i))

truncate-IsSized : (s : BlockStorage) (n : ℕ) → IsSized s.blocks → IsSized (truncate s n).blocks
unfolding truncate
truncate-IsSized s n h i b e = ground (arith, h i b, shrink-IsSized s.blocks n h i b)

-- A valid storage stays valid when it is truncated or expanded to a size below 2 ^ 64.
pub truncate-IsValid : (s : BlockStorage) (n : ℕ) → IsValid s → n < 2 ^ 64 → IsValid (truncate s n)
truncate-IsValid s n v h = record {
  sized = truncate-IsSized s n v.sized;
  zeros = λ i le. ground (arith, (truncate_lem s n v).0, (truncate_lem s n v).1 i);
  small = omega (arith, (truncate_lem s n v).0);
}
