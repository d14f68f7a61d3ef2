-- ===== src/Storage/Read.antt =====
-- `read`: how many bytes it fills, and with what.
use monaka_fs.Prelude.{
  ℕ, zero, suc, ◌+◌, ◌-◌, ◌*◌, ◌/◌, ◌%◌, ◌^◌, ◌≤◌, ◌<◌, ◌≡◌, refl, ◌∙◌, ap, true, inl, inr, min,
  ◌&&◌, arith, ltb, leb, if◌then◌else◌, length, get_or, Bool-cases, Option, none, some, overwrite,
  length-replicate, get_or-replicate, get_or-overwrite, length-overwrite,
}
use native.Mathlib.Nat.{sub-zero}
use monaka_fs.Storage.{
  BlockStorage, Bytes, block_size, add_size, copy_out, read_count, read_loop, read,
}
use monaka_fs.Storage.View.{byte_of, byte_at, IsValid}
use monaka_fs.Storage.Round.{get_or-slice, length-slice}

-- Where reading stops: at the size, or at the end of the last block that is there, if that comes
-- first.
abbrev pub stored : BlockStorage → ℕ
stored s = min s.size (length s.blocks * block_size)

length-copy_out :
    (o : Option Bytes) (i n : ℕ)
    → ((b : Bytes) → o ≡ some b → length b ≡ block_size)
    → i + n ≤ block_size
    → length (copy_out o i n) ≡ n
unfolding copy_out
length-copy_out none i n sized h = length-replicate {A = ℕ} n 0
length-copy_out (some b) i n sized h = length-slice b i n (omega (arith, sized b refl))

get_or-copy_out :
    (o : Option Bytes) (i n j : ℕ) → j < n → get_or (copy_out o i n) j 0 ≡ byte_of o (i + j)
unfolding copy_out
get_or-copy_out none i n j h = get_or-replicate {A = ℕ} n 0 j
get_or-copy_out (some b) i n j h = ground (arith, get_or-slice b i n j 0)

-- What the loop leaves when it is entered with `r` bytes read and the offset at `c`.
record Filled (s : BlockStorage) (buf : Bytes) (r c : ℕ) (out : ℕ × Bytes) : Type 0 where
  count : out.0 ≡ r + min (length buf - r) (stored s - c)
  same_length : length out.1 ≡ length buf
  bytes :
      (j : ℕ)
      → get_or out.1 j 0
        ≡ (if leb r j && ltb j out.0 then byte_at s.blocks (c + (j - r)) else get_or buf j 0)

module _ (s : BlockStorage) (v : IsValid s) where
  Filled-stop :
      (buf : Bytes) (r c : ℕ) → min (length buf - r) (stored s - c) ≡ 0 → Filled s buf r c (r, buf)
  Filled-stop buf r c h = record {
    count = omega arith;
    same_length = refl;
    bytes = λ j. ground arith;
  }

  module _ (buf : Bytes) (r c : ℕ) (left : r < length buf) (before : c < s.size)
      (here : c / block_size < length s.blocks) where
    abbrev n : ℕ
    n = read_count s.size (length buf) r c

    abbrev chunk : Bytes
    chunk = copy_out (get_or s.blocks (c / block_size) none) (c % block_size) n

    length-chunk : length chunk ≡ n
    length-chunk = length-copy_out _ (c % block_size) n (v.sized (c / block_size)) (omega arith)

    byte-chunk : (j : ℕ) → j < n → get_or chunk j 0 ≡ byte_at s.blocks (c + j)
    byte-chunk j h =
        ground (arith, get_or-copy_out (get_or s.blocks (c / block_size) none) (c % block_size) n j)

    Filled-round :
        (out : ℕ × Bytes)
        → Filled s (overwrite buf r chunk) (r + n) (c + n) out
        → Filled s buf r c out
    Filled-round out d = record {
      count = ground (arith, d.count, length-overwrite buf r chunk);
      same_length = d.same_length ∙ length-overwrite buf r chunk;
      bytes = λ j. ground (
        arith,
        d.count,
        d.bytes j,
        length-overwrite buf r chunk,
        get_or-overwrite buf r chunk j 0,
        length-chunk,
        byte-chunk (j - r),
        same j,
      );
    }
      where
        same :
            (j : ℕ)
            → leb (r + n) j ≡ true
            → byte_at s.blocks (c + n + (j - (r + n))) ≡ byte_at s.blocks (c + (j - r))
        same j h = ap (λ k. byte_at s.blocks k) (ground arith)

  read_loop-Filled :
      (fuel : ℕ) (buf : Bytes) (r c : ℕ)
      → length buf ≤ fuel + r
      → r ≤ length buf
      → length buf < 2 ^ 64
      → Filled s buf r c (read_loop fuel s buf r c)
  unfolding read_loop
  read_loop-Filled zero buf r c enough le len = Filled-stop buf r c (omega arith)
  read_loop-Filled (suc fuel) buf r c enough le len =
      elim (Bool-cases (ltb r (length buf) && ltb c s.size)) [
        | inr e ↦ rw (e, read_loop) (Filled-stop buf r c (ground arith))
        | inl e ↦ elim (Bool-cases (leb (length s.blocks) (c / block_size))) [
          | inl f ↦ rw (e, f, read_loop) (Filled-stop buf r c (ground arith))
          | inr f ↦
              rw (e, f, read_loop)
                (let m = read_count s.size (length buf) r c in
                  let out =
                    overwrite buf r
                      (copy_out (get_or s.blocks (c / block_size) none) (c % block_size) m) in
                  let left : r < length buf = ground arith in
                  let before : c < s.size = ground arith in
                  let here : c / block_size < length s.blocks = ground arith in
                  let same : length out ≡ length buf = length-overwrite buf r _ in
                  let rn : add_size r m ≡ r + m = omega (arith, v.small) in
                  let cn : add_size c m ≡ c + m = omega (arith, v.small) in
                  rw (rn, cn)
                    (Filled-round buf r c left before here _ (
                      read_loop-Filled fuel out (r + m) (c + m) (omega arith) (omega arith)
                        (omega arith))))
        ]
      ]

-- `read` of a valid storage into a buffer shorter than 2 ^ 64 fills the buffer up to its end or to
-- where the size or the last block ends, with the bytes of the file from `offset` on, returns how many
-- these are, and leaves the rest of the buffer.
pub read_lem :
    (s : BlockStorage) (offset : ℕ) (buf : Bytes)
    → IsValid s
    → length buf < 2 ^ 64
    → let (n, out) = read s offset buf in
      (n ≡ min (length buf) (stored s - offset))
      × (length out ≡ length buf)
      × ((j : ℕ)
          → get_or out j 0 ≡ (if ltb j n then byte_at s.blocks (offset + j) else get_or buf j 0))
unfolding read
read_lem s offset buf v len = elim (Bool-cases (leb s.size offset)) [
  | inl e ↦ rw e (ground arith, refl, λ j. ground arith)
  | inr e ↦
      rw e
        (omega (arith, d.count), d.same_length, λ j. ground (arith, simp sub-zero at (d.bytes j)))
]
  where
    d : Filled s buf 0 offset (read_loop (length buf) s buf 0 offset)
    d = read_loop-Filled s v (length buf) buf 0 offset (omega arith) (omega arith) len
