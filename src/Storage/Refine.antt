-- ===== src/Storage/Refine.antt =====
-- The block storage beside the plain file: what the calls of the one are in terms of the other.
use monaka_fs.Prelude.{
  ℕ, ◌+◌, ◌-◌, ◌*◌, ◌^◌, ◌≤◌, ◌<◌, ◌≡◌, refl, ◌∙◌, ap, ap₂, min, List, [], ◌∷◌, arith, ltb,
  if◌then◌else◌, length, get_or, list_ext,
}
use monaka_fs.Storage.{BlockStorage, Bytes, block_size, new, write, truncate, read}
use monaka_fs.Storage.View.{byte_at, IsValid}
use monaka_fs.Storage.Write.{write_lem, write-IsValid, write_reach}
use monaka_fs.Storage.Read.{stored, read_lem}
use monaka_fs.Storage.Truncate.{truncate_lem, truncate-IsValid}
use monaka_fs.Storage.File
use monaka_fs.Storage.File.{File, Op, put, cut, Fits, AllFit}

abbrev pub contents : BlockStorage → File
contents s = record { size = s.size; byte = byte_at s.blocks }

abbrev apply : BlockStorage → Op → BlockStorage
apply s (put offset src) = (write s offset src).1
apply s (cut n) = truncate s n

abbrev pub run : BlockStorage → List Op → BlockStorage
run s [] = s
run s (op ∷ ops) = run (apply s op) ops

pub File_ext : (f g : File) → f.size ≡ g.size → ((i : ℕ) → f.byte i ≡ g.byte i) → f ≡ g
File_ext f g p q = λ i. record { size = p i; byte = λ k. q k i }

apply-IsValid : (s : BlockStorage) (op : Op) → IsValid s → Fits op → IsValid (apply s op)
apply-IsValid s (put offset src) v h = write-IsValid s offset src v h
apply-IsValid s (cut n) v h = truncate-IsValid s n v h

apply_refines :
    (s : BlockStorage) (op : Op)
    → IsValid s
    → Fits op
    → contents (apply s op) ≡ File.apply (contents s) op
apply_refines s (put offset src) v h =
    File_ext _ _ (write_lem s offset src v h).1 (write_lem s offset src v h).2
apply_refines s (cut n) v h = File_ext _ _ (truncate_lem s n v).0 (truncate_lem s n v).1

-- Any sequence of writes and truncations, each within the address space, leaves a valid storage
-- a valid one whose contents are those of the plain file after the same calls.
pub run_refines :
    (s : BlockStorage) (ops : List Op)
    → IsValid s
    → AllFit ops
    → IsValid (run s ops) × (contents (run s ops) ≡ File.run (contents s) ops)
run_refines s [] v h = (v, refl)
run_refines s (op ∷ ops) v h =
    let rest = run_refines (apply s op) ops (apply-IsValid s op v h.0) h.1 in
    (rest.0, rest.1 ∙ ap (λ f. File.run f ops) (apply_refines s op v h.0))

pub new-IsValid : IsValid new
new-IsValid = record { sized = λ i b e. cc; zeros = λ i h. refl; small = omega arith }

-- Where the blocks of a valid storage reach to its size and the buffer is shorter than 2 ^ 64, `read`
-- returns the count of the plain file, fills in its bytes, and leaves the rest of the buffer.
pub read_refines :
    (s : BlockStorage) (offset : ℕ) (buf : Bytes)
    → IsValid s
    → s.size ≤ length s.blocks * block_size
    → length buf < 2 ^ 64
    → let (n, out) = read s offset buf in
      (n ≡ File.read_count (contents s) offset (length buf))
      × (length out ≡ length buf)
      × ((j : ℕ)
          → get_or out j 0 ≡ (if ltb j n then (contents s).byte (offset + j) else get_or buf j 0))
read_refines s offset buf v dense len = (
  omega (arith, (read_lem s offset buf v len).0),
  (read_lem s offset buf v len).1,
  (read_lem s offset buf v len).2,
)

-- Reading back at the offset of a write to a valid storage, of data that ends below 2 ^ 64, with a
-- buffer of the length of the data, returns the data.
pub read-write :
    (s : BlockStorage) (offset : ℕ) (src buf : Bytes)
    → IsValid s
    → offset + length src < 2 ^ 64
    → length buf ≡ length src
    → read (write s offset src).1 offset buf ≡ (length src, src)
read-write s offset src buf v h same = ap₂ (λ (n : ℕ) (b : Bytes). (n, b)) count bytes
  where
    t : BlockStorage
    t = (write s offset src).1

    r :
        let (n, out) = read t offset buf in
        (n ≡ min (length buf) (stored t - offset))
        × (length out ≡ length buf)
        × ((j : ℕ)
            → get_or out j 0 ≡ (if ltb j n then byte_at t.blocks (offset + j) else get_or buf j 0))
    r = read_lem t offset buf (write-IsValid s offset src v h) (omega arith)

    count : (read t offset buf).0 ≡ length src
    count = ground (arith, r.0, (write_lem s offset src v h).1, (write_reach s offset src h).1)

    bytes : (read t offset buf).1 ≡ src
    bytes = list_ext 0 _ _ (r.1 ∙ same) (λ i lt. ground (
      arith,
      r.2 i,
      r.1,
      count,
      (write_lem s offset src v h).2 (offset + i),
      ap (λ k. get_or src k 0) (back i),
    ))
      where
        back : (i : ℕ) → offset + i - offset ≡ i
        back i = omega arith

blocks-expand :
    (s : BlockStorage) (n : ℕ) → s.size < n → length (truncate s n).blocks ≡ length s.blocks
unfolding truncate
blocks-expand s n h = ground arith

-- After a `truncate` that expands a valid storage to a size below 2 ^ 64, a read into a buffer shorter
-- than 2 ^ 64, at or beyond the end of the last block, returns no byte, wherever the new size lies.
pub read-truncate_short :
    (s : BlockStorage) (n offset : ℕ) (buf : Bytes)
    → IsValid s
    → s.size < n
    → n < 2 ^ 64
    → length s.blocks * block_size ≤ offset
    → length buf < 2 ^ 64
    → (read (truncate s n) offset buf).0 ≡ 0
read-truncate_short s n offset buf v lt small beyond len = omega (
  arith,
  (read_lem (truncate s n) offset buf (truncate-IsValid s n v small) len).0,
  blocks-expand s n lt,
)
