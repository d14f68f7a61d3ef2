-- ===== src/Fs/Behaviour/Position.antt =====
-- `seek`, in signed numbers.
use monaka_fs.Prelude.{
  ℕ, ◌+◌, ◌-◌, ◌^◌, ◌≤◌, ◌<◌, ◌≡◌, refl, ◌∙◌, ap, Bool, true, false, arith, leb, ◌==◌,
  if◌then◌else◌,
}
use monaka_fs.Key.{nat_key}
use monaka_fs.Error.{Result, ok, err, invalid_argument}
use monaka_fs.Inode.{Inode, FileHandle}
use monaka_fs.Storage.{BlockStorage}
use monaka_fs.Fs.{Fs, set_position, inode_get, fd_with}
use monaka_fs.Fs.Exec.{M, ◌>>=◌, ◌>>◌, pure, query, modify}
use monaka_fs.Fs.Io.{on_file}
use monaka_fs.Fs.Behaviour.Writes.{IsOpen}
use monaka_fs.Fs.Seek.{new_position, seek, seek_set, seek_cur, seek_end}

-- The `i64` that lies `n` after 0, or before it, as a bit pattern.
abbrev pub forward : ℕ → ℕ
forward n = n

abbrev pub backward : ℕ → ℕ
backward n = 2 ^ 64 - n

-- Where a seek starts from.
abbrev pub base : ℕ → ℕ → ℕ → ℕ
base whence current size =
    if whence == seek_set then 0 else if whence == seek_cur then current else size

new_position-forward :
    (whence current size n : ℕ)
    → whence ≤ seek_end
    → base whence current size + n < 2 ^ 63
    → new_position whence (forward n) current size ≡ ok (base whence current size + n)
unfolding new_position
new_position-forward whence current size n le room = ground arith

new_position-backward :
    (whence current size n : ℕ)
    → whence ≤ seek_end
    → base whence current size < 2 ^ 63
    → 0 < n
    → n ≤ 2 ^ 63
    → new_position whence (backward n) current size ≡ (
        if leb n (base whence current size)
        then ok (base whence current size - n)
        else err invalid_argument)
unfolding new_position
new_position-backward whence current size n le small pos fits = ground arith

module _ {T : Type 0} (s : Fs T) (fd : ℕ) (h : FileHandle) (i : Inode) (storage : BlockStorage)
    (o : IsOpen s fd h i storage) where
  -- `seek` returns the new position and stores it, or fails and changes nothing.
  abbrev moved : Result ℕ → Result ℕ × Fs T
  moved (ok pos) = (ok pos, set_position s fd pos)
  moved (err e) = (err e, s)

  seek_call :
      (offset whence : ℕ)
      → seek fd offset whence s ≡ moved (new_position whence offset h.position storage.size)
  unfolding seek fd_with inode_get ◌>>=◌
  seek_call offset whence =
      ground (arith, o.handle, o.inode)
      ∙ ap (λ c. on_file c tail s) o.content
      ∙ last_step (new_position whence offset h.position storage.size)
    where
      tail : BlockStorage → M T ℕ
      tail st = do
        pos ← query (λ _. new_position whence offset h.position st.size)
        modify (λ s. set_position s fd pos)
        pure pos

      last_step :
          (r : Result ℕ)
          → (do pos ← query (λ _. r); modify (λ s. set_position s fd pos); pure pos) s ≡ moved r
      last_step (ok pos) = refl
      last_step (err e) = refl

  -- `seek` on a file by `n` bytes forward from the start, the position or the end, as `whence` says,
  -- that ends below 2 ^ 63: it returns where it ends, and moves the position there.
  pub seek-forward :
      (whence n : ℕ)
      → whence ≤ seek_end
      → base whence h.position storage.size + n < 2 ^ 63
      → let pos = base whence h.position storage.size + n in
        seek fd (forward n) whence s ≡ (ok pos, set_position s fd pos)
  seek-forward whence n le room =
      seek_call (forward n) whence
      ∙ ap moved (new_position-forward whence h.position storage.size n le room)

  -- `seek` on a file by `n` bytes backward, from a start below 2 ^ 63: it returns where it ends, and
  -- moves the position there, or fails with nothing changed where that is before the file.
  pub seek-backward :
      (whence n : ℕ)
      → whence ≤ seek_end
      → base whence h.position storage.size < 2 ^ 63
      → 0 < n
      → n ≤ 2 ^ 63
      → let start = base whence h.position storage.size in
        seek fd (backward n) whence s ≡ (
          if leb n start
          then (ok (start - n), set_position s fd (start - n))
          else (err invalid_argument, s))
  seek-backward whence n le small pos fits =
      seek_call (backward n) whence
      ∙ ap moved (new_position-backward whence h.position storage.size n le small pos fits)
      ∙ moved-if (leb n (base whence h.position storage.size)) _
    where
      moved-if :
          (b : Bool) (x : ℕ)
          → moved (if b then ok x else err invalid_argument)
            ≡ (if b then (ok x, set_position s fd x) else (err invalid_argument, s))
      moved-if true x = refl
      moved-if false x = refl
