-- ===== src/Storage.antt =====
-- crates/core/fs-core/src/storage.rs: file contents in blocks that are allocated when they are
-- first written. `usize` is the 64-bit one. A method with `&mut self` returns the new storage.
pub mod View
pub mod Round
pub mod Write
pub mod Read
pub mod File
pub mod Truncate
pub mod Refine
mod Tests
mod Examples
use monaka_fs.Prelude.{
  ℕ, zero, suc, ◌+◌, ◌-◌, ◌*◌, ◌/◌, ◌%◌, ◌^◌, min, Bool, true, false, List, [], ◌∷◌, ◌++◌, ◌&&◌,
  Option, none, some, ltb, leb, ◌==◌, if◌then◌else◌, length, get_or, set, take, drop, replicate,
  slice, overwrite,
}

-- crates/core/fs-core/src/types.rs
abbrev pub block_size : ℕ
block_size = 4096

abbrev pub Bytes : Type 0
Bytes = List ℕ

-- `Vec<Option<Box<[u8; BLOCK_SIZE]>>>`
abbrev pub Blocks : Type 0
Blocks = List (Option Bytes)

pub record BlockStorage : Type 0 where
  pub blocks : Blocks
  pub size : ℕ

-- `usize` addition
abbrev pub add_size : ℕ → ℕ → ℕ
add_size a b = (a + b) % 2 ^ 64

abbrev pub new : BlockStorage
new = record { blocks = []; size = 0 }

-- One round of the loop of `read` copies `n` bytes of the block, or `n` zeros for a sparse block.
unfoldable pub copy_out : Option Bytes → ℕ → ℕ → Bytes
copy_out (some block) block_offset n = slice block block_offset n
copy_out none block_offset n = replicate n 0

-- The bytes that a round moves: up to the end of the block, of the buffer and of the file.
abbrev pub read_count : ℕ → ℕ → ℕ → ℕ → ℕ
read_count size len bytes_read current =
    min (block_size - current % block_size) (min (len - bytes_read) (size - current))

-- The loop of `read`, with the buffer, `bytes_read` and `current_offset` as its variables. A round
-- fills at least one byte of the buffer, so the buffer's length is enough fuel.
unfoldable pub read_loop : ℕ → BlockStorage → Bytes → ℕ → ℕ → ℕ × Bytes
read_loop zero s buf bytes_read current = (bytes_read, buf)
read_loop (suc fuel) s buf bytes_read current =
    elim (ltb bytes_read (length buf) && ltb current s.size) [
      | false ↦ (bytes_read, buf)
      | true ↦ elim (leb (length s.blocks) (current / block_size)) [
        | true ↦ (bytes_read, buf)
        | false ↦
            let n = read_count s.size (length buf) bytes_read current in
            let block = get_or s.blocks (current / block_size) none in
            read_loop fuel s (overwrite buf bytes_read (copy_out block (current % block_size) n))
              (add_size bytes_read n) (add_size current n)
      ]
    ]

-- `read(&self, offset, buf)`: the count and the buffer that the call leaves.
unfoldable pub read : BlockStorage → ℕ → Bytes → ℕ × Bytes
read s offset buf = if leb s.size offset then (0, buf) else read_loop (length buf) s buf 0 offset

-- `while block_index >= self.blocks.len() { self.blocks.push(None) }`, by rounds left.
unfoldable pub grow : ℕ → Blocks → ℕ → Blocks
grow zero blocks block_index = blocks
grow (suc fuel) blocks block_index = elim (leb (length blocks) block_index) [
  | true ↦ grow fuel (blocks ++ none ∷ []) block_index
  | false ↦ blocks
]

-- The block as the round of `write` finds it: a sparse one is allocated with zeros.
unfoldable pub allocated : Option Bytes → Bytes
allocated (some block) = block
allocated none = replicate block_size 0

-- The blocks after one round of the loop of `write`, which copies `n` bytes of `src`.
unfoldable pub write_round : Blocks → Bytes → ℕ → ℕ → ℕ → Blocks
write_round blocks src bytes_written current n =
    let index = current / block_size in
    let grown = grow (suc index) blocks index in
    let block = allocated (get_or grown index none) in
    set grown index (some (overwrite block (current % block_size) (slice src bytes_written n)))

abbrev pub write_count : ℕ → ℕ → ℕ → ℕ
write_count len bytes_written current =
    min (block_size - current % block_size) (len - bytes_written)

-- What the loop of `write` leaves in `blocks`, `bytes_written` and `current_offset`.
pub record Written : Type 0 where
  pub blocks : Blocks
  pub bytes_written : ℕ
  pub current : ℕ

-- The loop of `write`. A round takes at least one byte, so the length of the data is enough fuel.
unfoldable pub write_loop : ℕ → Bytes → Blocks → ℕ → ℕ → Written
write_loop zero src blocks bytes_written current = record {
  blocks = blocks;
  bytes_written = bytes_written;
  current = current;
}
write_loop (suc fuel) src blocks bytes_written current = elim (ltb bytes_written (length src)) [
  | false ↦ record { blocks = blocks; bytes_written = bytes_written; current = current }
  | true ↦
      let n = write_count (length src) bytes_written current in
      write_loop fuel src (write_round blocks src bytes_written current n)
        (add_size bytes_written n) (add_size current n)
]

unfoldable pub finish_write : BlockStorage → Written → ℕ × BlockStorage
finish_write s w = (
  w.bytes_written,
  record { blocks = w.blocks; size = if ltb s.size w.current then w.current else s.size },
)

unfoldable pub write : BlockStorage → ℕ → Bytes → ℕ × BlockStorage
write s offset [] = (0, s)
write s offset (b ∷ src) =
    finish_write s (write_loop (length (b ∷ src)) (b ∷ src) s.blocks 0 offset)

-- `usize::div_ceil`
abbrev pub div_ceil : ℕ → ℕ → ℕ
div_ceil n d = if n % d == 0 then n / d else n / d + 1

-- `for byte in &mut block[from..] { *byte = 0 }`
unfoldable pub clear_from : ℕ → Bytes → Bytes
clear_from n [] = []
clear_from zero (b ∷ block) = 0 ∷ clear_from zero block
clear_from (suc n) (b ∷ block) = b ∷ clear_from n block

-- The clearing of the last block that is kept, if it is there and allocated.
unfoldable pub clear_last : Blocks → ℕ → ℕ → Blocks
clear_last [] index from = []
clear_last (none ∷ blocks) zero from = none ∷ blocks
clear_last (some block ∷ blocks) zero from = some (clear_from from block) ∷ blocks
clear_last (o ∷ blocks) (suc index) from = o ∷ clear_last blocks index from

-- Dropping the blocks beyond the new size, and clearing the rest of the last one.
unfoldable pub shrink : Blocks → ℕ → Blocks
shrink blocks new_size =
    let count = div_ceil new_size block_size in
    let kept = take count blocks in
    if ltb 0 new_size && ltb 0 count && ltb 0 (new_size % block_size)
    then clear_last kept (count - 1) (new_size % block_size)
    else kept

unfoldable pub truncate : BlockStorage → ℕ → BlockStorage
truncate s new_size =
    if ltb new_size s.size
    then record { blocks = shrink s.blocks new_size; size = new_size }
    else if ltb s.size new_size
    then record s { size = new_size }
    else s
