-- ===== src/Snapshot/File.antt =====
-- A file that is saved and loaded again: its blocks may differ, its contents do not.
use monaka_fs.Prelude.{
  ℕ, ◌+◌, ◌-◌, ◌*◌, ◌/◌, ◌%◌, ◌^◌, ◌≤◌, ◌<◌, ◌≡◌, refl, sym, ◌∙◌, ap, inl, inr, min, true, false,
  [], ◌∷◌, none, arith, ltb, leb, if◌then◌else◌, length, get_or, replicate, ◌⊎◌, length-replicate,
  get_or-replicate, get_or-beyond, Bool-cases,
}
use native.Mathlib.Nat.{zero-add}
use monaka_fs.Storage
use monaka_fs.Storage.{BlockStorage, Bytes, block_size, read, write}
use monaka_fs.Storage.View.{byte_at, byte_of, IsValid}
use monaka_fs.Storage.Write.{write_lem, write-IsValid}
use monaka_fs.Storage.Read.{stored, read_lem}
use monaka_fs.Storage.Refine.{contents, new-IsValid, File_ext}
use monaka_fs.Snapshot.{FileDataSnapshot, save_file, load_file, write_all}

byte_at-beyond :
    (s : BlockStorage) (i : ℕ) → length s.blocks * block_size ≤ i → byte_at s.blocks i ≡ 0
byte_at-beyond s i h =
    ap (λ o. byte_of o (i % block_size))
      (get_or-beyond s.blocks (i / block_size) none (omega arith))

-- The saved bytes are those of the file, as many as its size says.
save_file_lem :
    (s : BlockStorage)
    → IsValid s
    → (length (save_file s).bytes ≡ s.size)
      × ((j : ℕ) → get_or (save_file s).bytes j 0 ≡ byte_at s.blocks j)
unfolding save_file
save_file_lem s v =
    (r.1 ∙ length-replicate {A = ℕ} s.size 0, λ j. bytes j (Bool-cases (ltb j (read s 0 buf).0)))
  where
    buf : Bytes
    buf = replicate s.size 0

    r :
        let (n, out) = read s 0 buf in
        (n ≡ min (length buf) (stored s - 0))
        × (length out ≡ length buf)
        × ((j : ℕ)
            → get_or out j 0 ≡ (if ltb j n then byte_at s.blocks (0 + j) else get_or buf j 0))
    r = read_lem s 0 buf v (omega (arith, length-replicate {A = ℕ} s.size 0, v.small))

    beyond : (j : ℕ) → min s.size (length s.blocks * block_size) ≤ j → byte_at s.blocks j ≡ 0
    beyond j h = elim (Bool-cases (leb s.size j)) [
      | inl e ↦ v.zeros j (ground arith)
      | inr e ↦ byte_at-beyond s j (ground arith)
    ]

    bytes :
        (j : ℕ)
        → (ltb j (read s 0 buf).0 ≡ true) ⊎ (ltb j (read s 0 buf).0 ≡ false)
        → get_or (read s 0 buf).1 j 0 ≡ byte_at s.blocks j
    bytes j (inl e) = ground (arith, r.2 j, ap (byte_at s.blocks) (zero-add j))
    bytes j (inr e) = ground (
      arith,
      r.0,
      r.2 j,
      beyond j,
      length-replicate {A = ℕ} s.size 0,
      get_or-replicate {A = ℕ} s.size 0 j,
    )

-- Writing all bytes to the fresh storage gives the file of these bytes.
write_all_lem :
    (bytes : Bytes)
    → length bytes < 2 ^ 64
    → IsValid (write_all bytes)
      × ((write_all bytes).size ≡ length bytes)
      × ((i : ℕ) → byte_at (write_all bytes).blocks i ≡ get_or bytes i 0)
write_all_lem [] h = (new-IsValid, refl, λ i. refl)
write_all_lem (b ∷ bytes) h = (
  write-IsValid Storage.new 0 (b ∷ bytes) new-IsValid (omega arith),
  ground (arith, (write_lem Storage.new 0 (b ∷ bytes) new-IsValid (omega arith)).1),
  λ i. elim (Bool-cases (ltb i (length (b ∷ bytes)))) [
    | inl e ↦ ground (arith, (write_lem Storage.new 0 (b ∷ bytes) new-IsValid (omega arith)).2 i)
    | inr e ↦ ground (
      arith,
      (write_lem Storage.new 0 (b ∷ bytes) new-IsValid (omega arith)).2 i,
      get_or-beyond (b ∷ bytes) i 0,
    )
  ],
)

load_file-exact :
    (d : FileDataSnapshot) → (write_all d.bytes).size ≡ d.size → load_file d ≡ write_all d.bytes
unfolding load_file
load_file-exact d h = ground (arith, h)

size-save_file : (s : BlockStorage) → (save_file s).size ≡ s.size
unfolding save_file
size-save_file s = refl

-- Saving a valid storage and loading it gives a valid storage with the same contents.
pub load_file-save_file :
    (s : BlockStorage)
    → IsValid s
    → IsValid (load_file (save_file s)) × (contents (load_file (save_file s)) ≡ contents s)
load_file-save_file s v =
    let (len, bytes) = save_file_lem s v in
    let (valid, size, same) = write_all_lem (save_file s).bytes (omega (arith, len, v.small)) in
    let exact = load_file-exact (save_file s) (size ∙ len ∙ sym (size-save_file s)) in
    rw exact (valid, File_ext _ _ (size ∙ len) (λ i. same i ∙ bytes i))
