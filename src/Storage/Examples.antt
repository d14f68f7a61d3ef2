-- ===== src/Storage/Examples.antt =====
-- The theorems on the block storage at data that lies across the end of a block.
use monaka_fs.Prelude.{
  ℕ, ◌+◌, ◌-◌, ◌≤◌, ◌*◌, ◌≡◌, refl, List, [], ◌∷◌, min, max, ◌&&◌, arith, ltb, leb, if◌then◌else◌,
  length, get_or,
}
use monaka_fs.Storage.{BlockStorage, Bytes, block_size, new, write, truncate, read}
use monaka_fs.Storage.View.{byte_at, IsValid}
use monaka_fs.Storage.Write.{write_lem, write-IsValid, write_reach}
use monaka_fs.Storage.Read.{stored, read_lem}
use monaka_fs.Storage.File
use monaka_fs.Storage.File.{Op, put, cut}
use monaka_fs.Storage.Refine.{
  contents, run, run_refines, new-IsValid, read_refines, read-write, read-truncate_short,
}

abbrev data4 : Bytes
data4 = 1 ∷ 2 ∷ 3 ∷ 4 ∷ []

abbrev buffer4 : Bytes
buffer4 = 9 ∷ 9 ∷ 9 ∷ 9 ∷ []

abbrev across : BlockStorage
across = (write new 4094 data4).1

across-IsValid : IsValid across
across-IsValid = write-IsValid new 4094 data4 new-IsValid (omega arith)

across-dense : across.size ≤ length across.blocks * block_size
across-dense = omega (
  arith,
  (write_lem new 4094 data4 new-IsValid (omega arith)).1,
  (write_reach new 4094 data4 (omega arith)).1 (omega arith),
)

abbrev ops : List Op
ops = put 4094 data4 ∷ cut 4096 ∷ cut 5000 ∷ put 10 (5 ∷ []) ∷ []

run_refines_example : IsValid (run new ops) × (contents (run new ops) ≡ File.run (contents new) ops)
run_refines_example =
    run_refines new ops new-IsValid (omega arith, (omega arith, (omega arith, (omega arith, tt))))

write_lem_example :
    let (n, t) = write across 4097 data4 in
    (n ≡ length data4)
    × (t.size
        ≡ (if ltb 0 (length data4) then max across.size (4097 + length data4) else across.size))
    × ((i : ℕ)
        → byte_at t.blocks i ≡ (
            if leb 4097 i && ltb i (4097 + length data4)
            then get_or data4 (i - 4097) 0
            else byte_at across.blocks i))
write_lem_example = write_lem across 4097 data4 across-IsValid (omega arith)

read_lem_example :
    let (n, out) = read across 4095 buffer4 in
    (n ≡ min (length buffer4) (stored across - 4095))
    × (length out ≡ length buffer4)
    × ((j : ℕ)
        → get_or out j 0
          ≡ (if ltb j n then byte_at across.blocks (4095 + j) else get_or buffer4 j 0))
read_lem_example = read_lem across 4095 buffer4 across-IsValid (omega arith)

read-write_example : read (write across 4093 data4).1 4093 buffer4 ≡ (length data4, data4)
read-write_example = read-write across 4093 data4 buffer4 across-IsValid (omega arith) refl

read_refines_example :
    let (n, out) = read across 4095 buffer4 in
    (n ≡ File.read_count (contents across) 4095 (length buffer4))
    × (length out ≡ length buffer4)
    × ((j : ℕ)
        → get_or out j 0
          ≡ (if ltb j n then (contents across).byte (4095 + j) else get_or buffer4 j 0))
read_refines_example = read_refines across 4095 buffer4 across-IsValid across-dense (omega arith)

-- Three blocks long, and no byte is read.
read-truncate_short_example : (read (truncate new 10000) 5 buffer4).0 ≡ 0
read-truncate_short_example =
    read-truncate_short new 10000 5 buffer4 new-IsValid (omega arith) (omega arith) (omega arith)
      (omega arith)
