-- ===== src/Fs/Invariant/Transfers.antt =====
-- Reads, writes, `ftruncate`, `seek` and the calls that only look keep the state well formed.
use monaka_fs.Prelude.{
  ℕ, ◌+◌, ◌^◌, ◌<◌, ◌≡◌, refl, sym, ap, Option, none, some, arith, ◌==◌, length,
}
use monaka_fs.Key.{nat_key}
use monaka_fs.Map
use monaka_fs.Error.{ok, not_found}
use monaka_fs.Time.{TimeProvider}
use monaka_fs.Inode.{FileContent, FileHandle, file, dir, is_file, access_mode, o_rdonly, o_wronly}
use monaka_fs.Storage
use monaka_fs.Storage.{BlockStorage, Bytes}
use monaka_fs.Storage.View.{IsValid}
use monaka_fs.Storage.Write.{write-IsValid}
use monaka_fs.Storage.Truncate.{truncate_lem, truncate-IsValid}
use monaka_fs.Fs.{Fs, InodeRef, fd_with, set_position, inode_get, ok_or}
use monaka_fs.Fs.Exec.{M, ◌>>=◌, ◌>>◌, pure, query, modify}
use monaka_fs.Fs.Create.{store_file}
use monaka_fs.Fs.Io.{
  on_file, check_mode, write_pos, write_storage, write, write_at, append_write, ftruncate,
  read_storage, read, read_at,
}
use monaka_fs.Fs.Seek.{new_position, seek}
use monaka_fs.Fs.Invariant.{IsWellFormed, IsRef}
use monaka_fs.Fs.Invariant.Tables.{set_position-IsWellFormed}
use monaka_fs.Fs.Invariant.Rules.{
  Ensures, Any, Ensures-pure, Ensures-fail, Ensures-if, Ensures-bind, Ensures-query, Ensures-modify,
  Ensures-forget, IsRef-inode_get,
}
use monaka_fs.Fs.Invariant.Steps.{storage-IsValid, store_file-Ensures}

-- The file behind a descriptor, if it is open on one.
abbrev pub storage_of : {T : Type 0} → Fs T → FileHandle → Option BlockStorage
storage_of s handle = elim (Map.get s.inode_table handle.inode_id) [
  | none ↦ none
  | some i ↦ elim i.content [ file storage ↦ some storage | dir entries ↦ none ]
]

-- A write of `n` bytes at `pos`, of the file behind the descriptor, ends below 2 ^ 64.
abbrev pub RoomAt : {T : Type 0} → Fs T → ℕ → (FileHandle → BlockStorage → ℕ) → ℕ → Type 0
RoomAt s fd pos n =
    (h : FileHandle) (storage : BlockStorage)
    → Map.get s.fd_table fd ≡ some h
    → storage_of s h ≡ some storage
    → pos h storage + n < 2 ^ 64

next_inode-set_position :
    {T : Type 0} (s : Fs T) (fd pos : ℕ) → (set_position s fd pos).next_inode ≡ s.next_inode
unfolding set_position
next_inode-set_position s fd pos = ground arith

fd_with-ok :
    {T : Type 0} (s : Fs T) (fd : ℕ) (h : FileHandle)
    → fd_with s fd ≡ ok h
    → Map.get s.fd_table fd ≡ some h
unfolding fd_with
fd_with-ok s fd h e = ground arith

storage_of-ref :
    {T : Type 0} (s : Fs T) (h : FileHandle) (r : InodeRef) (storage : BlockStorage)
    → ok_or (inode_get s h.inode_id) not_found ≡ ok r
    → r.inode.content ≡ file storage
    → storage_of s h ≡ some storage
unfolding inode_get
storage_of-ref s h r storage e c = ground arith

-- Behind the check of the access mode the state is the same.
check_mode-Ensures :
    {T B : Type 0} (s : Fs T) (h : FileHandle) (mode : ℕ) (R : B → Fs T → Type 0) (k : M T B)
    → IsWellFormed s
    → Ensures s.next_inode R k s
    → Ensures s.next_inode R (check_mode h mode >> k) s
check_mode-Ensures s h mode R k w p =
    Ensures-bind {b = s.next_inode} {Q = λ a s'. s' ≡ s} _ _ (omega arith)
      (Ensures-if (access_mode h.flags == mode) (λ e. Ensures-fail _ w (omega arith))
        (λ e. Ensures-pure tt w (omega arith) refl))
      (λ _ s' w' le same. rw same p)

module _ {T : Type 0} ⦃time : TimeProvider T⦄ where
  write_storage-Ensures :
      (s : Fs T) (fd : ℕ) (r : InodeRef) (storage : BlockStorage) (pos : ℕ) (buf : Bytes)
      → IsWellFormed s
      → IsRef s r
      → r.inode.content ≡ file storage
      → pos + length buf < 2 ^ 64
      → Ensures s.next_inode Any (write_storage fd r storage pos buf) s
  unfolding write_storage
  write_storage-Ensures s fd r storage pos buf w ref e fits =
      Ensures-bind _ _ (omega arith)
        (store_file-Ensures s w r ref (Storage.write storage pos buf).1 _ (ap is_file e)
          (write-IsValid storage pos buf (storage-IsValid s r storage w ref e).0 fits) refl)
        λ _ s1 w1 le1 c. Ensures-modify _ _ (
          Ensures-pure _ (set_position-IsWellFormed s1 fd _ w1)
            (omega (
              arith,
              next_inode-set_position s1 fd
                  (Storage.add_size pos (Storage.write storage pos buf).0),
            ))
            tt)

  module _ (s : Fs T) (fd : ℕ) (w : IsWellFormed s) where
    -- The writes differ in their position alone.
    transfer :
        (pos : FileHandle → BlockStorage → ℕ) (buf : Bytes)
        → RoomAt s fd pos (length buf)
        → (h : FileHandle) (r : InodeRef) (c : FileContent) → fd_with s fd ≡ ok h
        → ok_or (inode_get s h.inode_id) not_found ≡ ok r
        → r.inode.content ≡ c
        → Ensures s.next_inode Any
            (on_file c λ storage. write_storage fd r storage (pos h storage) buf)
            s
    transfer pos buf room h r (dir entries) e1 e2 e = Ensures-fail _ w (omega arith)
    transfer pos buf room h r (file storage) e1 e2 e =
        write_storage-Ensures s fd r storage (pos h storage) buf w
          (IsRef-inode_get s h.inode_id _ r e2) e
          (room h storage (fd_with-ok s fd h e1) (storage_of-ref s h r storage e2 e))

    pub write-Ensures :
        (buf : Bytes)
        → RoomAt s fd write_pos (length buf)
        → Ensures s.next_inode Any (write fd buf) s
    unfolding write
    write-Ensures buf room = Ensures-query _ _ w (omega arith) λ h h1.
        check_mode-Ensures s h o_rdonly _ _ w (
          Ensures-query _ _ w (omega arith)
            λ r h2. transfer write_pos buf room h r r.inode.content h1 h2 refl)

    pub write_at-Ensures :
        (offset : ℕ) (buf : Bytes)
        → RoomAt s fd (λ h storage. offset) (length buf)
        → Ensures s.next_inode Any (write_at fd offset buf) s
    unfolding write_at
    write_at-Ensures offset buf room = Ensures-query _ _ w (omega arith) λ h h1.
        check_mode-Ensures s h o_rdonly _ _ w (
          Ensures-query _ _ w (omega arith)
            λ r h2. transfer (λ h storage. offset) buf room h r r.inode.content h1 h2 refl)

    pub append_write-Ensures :
        (buf : Bytes)
        → RoomAt s fd (λ h storage. storage.size) (length buf)
        → Ensures s.next_inode Any (append_write fd buf) s
    unfolding append_write
    append_write-Ensures buf room = Ensures-query _ _ w (omega arith) λ h h1.
        check_mode-Ensures s h o_rdonly _ _ w (
          Ensures-query _ _ w (omega arith)
            λ r h2. transfer (λ h storage. storage.size) buf room h r r.inode.content h1 h2 refl)

    cut_content :
        (size : ℕ) (r : InodeRef) (c : FileContent)
        → size < 2 ^ 64
        → IsRef s r
        → r.inode.content ≡ c
        → Ensures s.next_inode Any
            (on_file c λ storage. store_file r (Storage.truncate storage size) size)
            s
    cut_content size r (dir entries) fits ref e = Ensures-fail _ w (omega arith)
    cut_content size r (file storage) fits ref e = Ensures-forget _ (
        store_file-Ensures s w r ref (Storage.truncate storage size) size (ap is_file e)
          (truncate-IsValid storage size valid fits) (sym (truncate_lem storage size valid).0))
      where
        valid : IsValid storage
        valid = (storage-IsValid s r storage w ref e).0

    pub ftruncate-Ensures :
        (size : ℕ) → size < 2 ^ 64 → Ensures s.next_inode Any (ftruncate fd size) s
    unfolding ftruncate
    ftruncate-Ensures size fits = Ensures-query _ _ w (omega arith) λ h h1.
        check_mode-Ensures s h o_rdonly _ _ w (
          Ensures-query _ _ w (omega arith) λ r h2.
            cut_content size r r.inode.content fits (IsRef-inode_get s h.inode_id _ r h2) refl)

module _ {T : Type 0} (s : Fs T) (w : IsWellFormed s) where
  -- A call that ends by moving the position of a descriptor.
  move_position :
      {A : Type 0} (fd pos : ℕ) (a : A)
      → Ensures s.next_inode Any (modify (λ s'. set_position s' fd pos) >> pure a) s
  move_position fd pos a = Ensures-modify _ _ (
      Ensures-pure a (set_position-IsWellFormed s fd pos w)
        (omega (arith, next_inode-set_position s fd pos)) tt)

  read_content :
      (fd pos : ℕ) (out : Bytes) (c : FileContent)
      → Ensures s.next_inode Any (on_file c λ storage. read_storage fd storage pos out) s
  unfolding read_storage
  read_content fd pos out (dir entries) = Ensures-fail _ w (omega arith)
  read_content fd pos out (file storage) = move_position fd _ _

  pub read-Ensures : (fd : ℕ) (out : Bytes) → Ensures s.next_inode Any (read fd out) s
  unfolding read
  read-Ensures fd out = Ensures-query _ _ w (omega arith) λ h h1.
      check_mode-Ensures s h o_wronly _ _ w
        (Ensures-query _ _ w (omega arith) λ r h2. read_content fd h.position out r.inode.content)

  pub read_at-Ensures :
      (fd offset : ℕ) (out : Bytes) → Ensures s.next_inode Any (read_at fd offset out) s
  unfolding read_at
  read_at-Ensures fd offset out = Ensures-query _ _ w (omega arith) λ h h1.
      check_mode-Ensures s h o_wronly _ _ w
        (Ensures-query _ _ w (omega arith) λ r h2. read_content fd offset out r.inode.content)

  pub seek-Ensures : (fd offset whence : ℕ) → Ensures s.next_inode Any (seek fd offset whence) s
  unfolding seek
  seek-Ensures fd offset whence =
      Ensures-query _ _ w (omega arith)
        λ h h1. Ensures-query _ _ w (omega arith) λ r h2. go h r.inode.content
    where
      go :
          (h : FileHandle) (c : FileContent)
          → Ensures s.next_inode Any
              (on_file c λ storage.
                query (λ _. new_position whence offset h.position storage.size) >>= λ pos.
                modify (λ s'. set_position s' fd pos) >> pure pos)
              s
      go h (dir entries) = Ensures-fail _ w (omega arith)
      go h (file storage) = Ensures-query _ _ w (omega arith) λ pos e. move_position fd pos pos
