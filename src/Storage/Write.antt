-- ===== src/Storage/Write.antt =====
-- The loop of `write`: it ends with all data written, and changes exactly the bytes in its range.
use monaka_fs.Prelude.{
  ℕ, zero, suc, ◌+◌, ◌-◌, ◌*◌, ◌%◌, ◌^◌, ◌≤◌, ◌<◌, ◌≡◌, refl, ap, true, inl, inr, max, ◌&&◌, [],
  ◌∷◌, arith, ltb, leb, if◌then◌else◌, length, get_or, Bool-cases,
}
use native.Mathlib.Nat.{zero-add, sub-zero}
use monaka_fs.Storage.{
  BlockStorage, Blocks, Bytes, Written, block_size, write_round, write_loop, write_count, add_size,
  write, finish_write,
}
use monaka_fs.Storage.View.{byte_at, IsSized, IsValid}
use monaka_fs.Storage.Round.{write_round-IsSized, byte_at-write_round, length-write_round}

-- What the loop leaves when it is entered with `w` bytes written and the offset at `c`.
record Done (src : Bytes) (blocks : Blocks) (w c : ℕ) (r : Written) : Type 0 where
  sized : IsSized r.blocks
  all : r.bytes_written ≡ length src
  end : r.current ≡ c + (length src - w)
  bytes :
      (i : ℕ)
      → byte_at r.blocks i ≡ (
          if leb c i && ltb i (c + (length src - w))
          then get_or src (w + (i - c)) 0
          else byte_at blocks i)

-- A round and the rest of the loop make up the whole loop.
Done-round :
    (src : Bytes) (blocks : Blocks) (w c n : ℕ) (r : Written)
    → IsSized blocks
    → c % block_size + n ≤ block_size
    → w + n ≤ length src
    → Done src (write_round blocks src w c n) (w + n) (c + n) r
    → Done src blocks w c r
Done-round src blocks w c n r sized fits within d = record {
  sized = d.sized;
  all = d.all;
  end = omega (arith, d.end);
  bytes = λ i.
      ground (arith, d.bytes i, byte_at-write_round blocks src w c n sized fits within i, same i);
}
  where
    same :
        (i : ℕ)
        → leb (c + n) i ≡ true
        → get_or src (w + n + (i - (c + n))) 0 ≡ get_or src (w + (i - c)) 0
    same i h = ap (λ k. get_or src k 0) (ground arith)

write_loop-Done :
    (fuel : ℕ) (src : Bytes) (blocks : Blocks) (w c : ℕ)
    → IsSized blocks
    → w ≤ length src
    → length src ≤ fuel + w
    → c + (length src - w) < 2 ^ 64
    → length src < 2 ^ 64
    → Done src blocks w c (write_loop fuel src blocks w c)
unfolding write_loop
write_loop-Done zero src blocks w c sized le enough small len = record {
  sized = sized;
  all = omega arith;
  end = omega arith;
  bytes = λ i. ground arith;
}
write_loop-Done (suc fuel) src blocks w c sized le enough small len =
    elim (Bool-cases (ltb w (length src))) [
      | inr e ↦
          rw (e, write_loop)
            (record {
              sized = sized;
              all = ground arith;
              end = ground arith;
              bytes = λ i. ground arith;
            })
      | inl e ↦
          rw (e, write_loop)
            (let n = write_count (length src) w c in
              let wn : add_size w n ≡ w + n = ground arith in
              let cn : add_size c n ≡ c + n = ground arith in
              rw (wn, cn)
                (Done-round src blocks w c n _ sized (omega arith) (ground arith) (
                  write_loop-Done fuel src (write_round blocks src w c n) (w + n) (c + n)
                    (write_round-IsSized blocks src w c n sized (omega arith) (ground arith))
                    (ground arith) (ground arith) (ground arith) len)))
    ]

-- The blocks that the loop leaves reach to the end of the data.
write_loop_reach :
    (fuel : ℕ) (src : Bytes) (blocks : Blocks) (w c : ℕ)
    → w ≤ length src
    → length src ≤ fuel + w
    → c + (length src - w) < 2 ^ 64
    → length src < 2 ^ 64
    → let t = write_loop fuel src blocks w c in
      (length blocks ≤ length t.blocks)
      × (w < length src → c + (length src - w) ≤ length t.blocks * block_size)
unfolding write_loop
write_loop_reach zero src blocks w c le enough small len = (omega arith, λ lt. absurd (omega arith))
write_loop_reach (suc fuel) src blocks w c le enough small len =
    elim (Bool-cases (ltb w (length src))) [
      | inr e ↦ rw (e, write_loop) (omega arith, λ lt. absurd (ground arith))
      | inl e ↦
          rw (e, write_loop)
            (let n = write_count (length src) w c in
              let wn : add_size w n ≡ w + n = ground arith in
              let cn : add_size c n ≡ c + n = ground arith in
              let grew = length-write_round blocks src w c n in
              let rest =
                write_loop_reach fuel src (write_round blocks src w c n) (w + n) (c + n)
                  (ground arith) (ground arith) (ground arith) len in
              rw (wn, cn)
                (omega (arith, grew.0, rest.0), λ lt. ground (arith, grew.1, rest.0, rest.1)))
    ]

-- `write` to a valid storage, of data that ends below 2 ^ 64, writes all of it: it returns the length,
-- raises the size to the end of the data where that lies further and there is data, and changes the
-- bytes under the data, to the data, and no others.
pub write_lem :
    (s : BlockStorage) (offset : ℕ) (src : Bytes)
    → IsValid s
    → offset + length src < 2 ^ 64
    → let (n, t) = write s offset src in
      (n ≡ length src)
      × (t.size ≡ (if ltb 0 (length src) then max s.size (offset + length src) else s.size))
      × ((i : ℕ)
          → byte_at t.blocks i ≡ (
              if leb offset i && ltb i (offset + length src)
              then get_or src (i - offset) 0
              else byte_at s.blocks i))
unfolding write finish_write
write_lem s offset [] v h = (refl, refl, λ i. ground arith)
write_lem s offset (b ∷ src) v h =
    (d.all, ground (arith, d.end), λ i. simp (zero-add, sub-zero) at (d.bytes i))
  where
    d : Done (b ∷ src) s.blocks 0 offset (write_loop (length (b ∷ src)) (b ∷ src) s.blocks 0 offset)
    d =
        write_loop-Done (length (b ∷ src)) (b ∷ src) s.blocks 0 offset v.sized (omega arith)
          (omega arith) (omega arith) (omega arith)

-- A valid storage stays valid when data that ends below 2 ^ 64 is written to it.
pub write-IsValid :
    (s : BlockStorage) (offset : ℕ) (src : Bytes)
    → IsValid s
    → offset + length src < 2 ^ 64
    → IsValid (write s offset src).1
unfolding write finish_write
write-IsValid s offset [] v h = v
write-IsValid s offset (b ∷ src) v h = record {
  sized = d.sized;
  zeros = λ i le. ground (arith, d.bytes i, d.end, v.zeros i);
  small = ground (arith, d.end, v.small);
}
  where
    d : Done (b ∷ src) s.blocks 0 offset (write_loop (length (b ∷ src)) (b ∷ src) s.blocks 0 offset)
    d =
        write_loop-Done (length (b ∷ src)) (b ∷ src) s.blocks 0 offset v.sized (omega arith)
          (omega arith) (omega arith) (omega arith)

-- The blocks reach to the end of what was written, and no block is gone.
pub write_reach :
    (s : BlockStorage) (offset : ℕ) (src : Bytes)
    → offset + length src < 2 ^ 64
    → let t = (write s offset src).1 in
      (length s.blocks ≤ length t.blocks)
      × (0 < length src → offset + length src ≤ length t.blocks * block_size)
unfolding write finish_write
write_reach s offset [] h = (omega arith, λ lt. absurd (omega arith))
write_reach s offset (b ∷ src) h = (r.0, λ lt. omega (arith, r.1 lt))
  where
    r :
        let t = write_loop (length (b ∷ src)) (b ∷ src) s.blocks 0 offset in
        (length s.blocks ≤ length t.blocks)
        × (0 < length (b ∷ src) → offset + (length (b ∷ src) - 0) ≤ length t.blocks * block_size)
    r =
        write_loop_reach (length (b ∷ src)) (b ∷ src) s.blocks 0 offset (omega arith) (omega arith)
          (omega arith) (omega arith)
