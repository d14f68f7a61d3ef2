-- ===== src/Storage/View.antt =====
-- What a block storage holds, byte by byte, and when it is well formed.
use monaka_fs.Prelude.{ℕ, ◌/◌, ◌%◌, ◌^◌, ◌≤◌, ◌<◌, ◌≡◌, Option, none, some, get_or, length}
use monaka_fs.Storage.{BlockStorage, Blocks, Bytes, block_size}

-- A sparse block reads as zeros.
abbrev pub byte_of : Option Bytes → ℕ → ℕ
byte_of none i = 0
byte_of (some block) i = get_or block i 0

abbrev pub byte_at : Blocks → ℕ → ℕ
byte_at blocks i = byte_of (get_or blocks (i / block_size) none) (i % block_size)

-- Every allocated block is an array of `BLOCK_SIZE` bytes.
abbrev pub IsSized : Blocks → Type 0
IsSized blocks = (i : ℕ) (b : Bytes) → get_or blocks i none ≡ some b → length b ≡ block_size

-- The bytes of the blocks beyond the size are zeros, and the size is a `usize`.
pub record IsValid (s : BlockStorage) : Type 0 where
  pub sized : IsSized s.blocks
  pub zeros : (i : ℕ) → s.size ≤ i → byte_at s.blocks i ≡ 0
  pub small : s.size < 2 ^ 64
