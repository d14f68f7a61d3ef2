-- ===== src/Storage/Round.antt =====
-- One round of the loop of `write`: which bytes it changes.
use monaka_fs.Prelude.{
  ℕ, zero, suc, ◌+◌, ◌-◌, ◌/◌, ◌%◌, ◌≤◌, ◌<◌, ◌≡◌, refl, ◌∙◌, ap, ◌&&◌, List, [], ◌∷◌, ◌++◌, Option,
  none, some, arith, ltb, leb, ◌==◌, if◌then◌else◌, length, get_or, slice, drop, overwrite,
  length-append, get_or-set, length-set, length-take, length-drop, get_or-take, get_or-drop,
  length-replicate, get_or-replicate, length-overwrite, get_or-overwrite,
}
use monaka_fs.Storage.{Blocks, Bytes, block_size, grow, allocated, write_round}
use monaka_fs.Storage.View.{byte_of, byte_at, IsSized}

get_or-push_none :
    (blocks : Blocks) (i : ℕ) → get_or (blocks ++ none ∷ []) i none ≡ get_or blocks i none
get_or-push_none [] zero = refl
get_or-push_none [] (suc i) = refl
get_or-push_none (o ∷ blocks) zero = refl
get_or-push_none (o ∷ blocks) (suc i) = get_or-push_none blocks i

-- Growing adds sparse blocks only.
get_or-grow :
    (fuel : ℕ) (blocks : Blocks) (index i : ℕ)
    → get_or (grow fuel blocks index) i none ≡ get_or blocks i none
unfolding grow
get_or-grow zero blocks index i = refl
get_or-grow (suc fuel) blocks index i =
    ground (arith, get_or-grow fuel (blocks ++ none ∷ []) index i, get_or-push_none blocks i)

-- With enough rounds the index is in range afterwards.
lt-length-grow :
    (fuel : ℕ) (blocks : Blocks) (index : ℕ)
    → index < fuel + length blocks
    → index < length (grow fuel blocks index)
unfolding grow
lt-length-grow zero blocks index h = omega arith
lt-length-grow (suc fuel) blocks index h =
    ground
      (arith, lt-length-grow fuel (blocks ++ none ∷ []) index, length-append blocks (none ∷ []))

le-length-grow :
    (fuel : ℕ) (blocks : Blocks) (index : ℕ) → length blocks ≤ length (grow fuel blocks index)
unfolding grow
le-length-grow zero blocks index = omega arith
le-length-grow (suc fuel) blocks index =
    ground
      (arith, le-length-grow fuel (blocks ++ none ∷ []) index, length-append blocks (none ∷ []))

-- After a round the block that it wrote is there, and no block is gone.
pub length-write_round :
    (blocks : Blocks) (src : Bytes) (w c n : ℕ)
    → (length blocks ≤ length (write_round blocks src w c n))
      × (c / block_size < length (write_round blocks src w c n))
unfolding write_round
length-write_round blocks src w c n = (
  rw length-set (le-length-grow (suc index) blocks index),
  rw length-set (lt-length-grow (suc index) blocks index (omega arith)),
)
  where
    index : ℕ
    index = c / block_size

-- An allocated block keeps the bytes that the sparse one stood for.
get_or-allocated : (o : Option Bytes) (i : ℕ) → get_or (allocated o) i 0 ≡ byte_of o i
unfolding allocated
get_or-allocated none i = get_or-replicate block_size 0 i
get_or-allocated (some b) i = refl

length-allocated :
    (o : Option Bytes)
    → ((b : Bytes) → o ≡ some b → length b ≡ block_size)
    → length (allocated o) ≡ block_size
unfolding allocated
length-allocated none h = length-replicate {A = ℕ} block_size 0
length-allocated (some b) h = h b refl

pub length-slice :
    {A : Type 0} (xs : List A) (i n : ℕ) → i + n ≤ length xs → length (slice xs i n) ≡ n
length-slice xs i n h = omega (arith, length-take n (drop i xs), length-drop i xs)

pub get_or-slice :
    {A : Type 0} (xs : List A) (i n j : ℕ) (d : A)
    → get_or (slice xs i n) j d ≡ (if ltb j n then get_or xs (i + j) d else d)
get_or-slice xs i n j d = ground (arith, get_or-take n (drop i xs) j d, get_or-drop i xs j d)

-- One round copies the `n` bytes of the data from `w` on to the bytes of the file from `c` on.
module _ (blocks : Blocks) (src : Bytes) (w c n : ℕ) (sized : IsSized blocks)
    (fits : c % block_size + n ≤ block_size) (within : w + n ≤ length src) where
  index : ℕ
  index = c / block_size

  grown : Blocks
  grown = grow (suc index) blocks index

  old : Bytes
  old = allocated (get_or grown index none)

  fresh : Bytes
  fresh = overwrite old (c % block_size) (slice src w n)

  length-old : length old ≡ block_size
  unfolding old index grown
  length-old = length-allocated _ λ b e. sized index b (rw get_or-grow at e)

  length-fresh : length fresh ≡ block_size
  unfolding fresh
  length-fresh = length-overwrite old _ _ ∙ length-old

  get_or-old : (o : ℕ) → get_or old o 0 ≡ byte_of (get_or blocks index none) o
  unfolding old grown
  get_or-old o = get_or-allocated _ o ∙ ap (λ b. byte_of b o) (get_or-grow _ blocks index index)

  get_or-fresh :
      (o : ℕ)
      → get_or fresh o 0 ≡ (
          if leb (c % block_size) o && ltb o (c % block_size + n)
          then get_or src (w + (o - c % block_size)) 0
          else byte_of (get_or blocks index none) o)
  unfolding fresh
  get_or-fresh o = ground (
    arith,
    length-slice src w n within,
    length-old,
    get_or-overwrite old (c % block_size) (slice src w n) o 0,
    get_or-slice src w n (o - c % block_size) 0,
    get_or-old o,
  )

  get_or-round :
      (i : ℕ)
      → get_or (write_round blocks src w c n) i none
        ≡ (if index == i then some fresh else get_or blocks i none)
  unfolding write_round fresh old grown index
  get_or-round i = ground (
    arith,
    get_or-set grown index i (some fresh) none,
    get_or-grow (suc index) blocks index i,
    lt-length-grow (suc index) blocks index (omega arith),
  )

  pub write_round-IsSized : IsSized (write_round blocks src w c n)
  write_round-IsSized i b e = ground (arith, get_or-round i, length-fresh, sized i b)

  pub byte_at-write_round :
      (i : ℕ)
      → byte_at (write_round blocks src w c n) i
        ≡ (if leb c i && ltb i (c + n) then get_or src (w + (i - c)) 0 else byte_at blocks i)
  unfolding index
  byte_at-write_round i =
      ground (arith, get_or-round (i / block_size), get_or-fresh (i % block_size))
