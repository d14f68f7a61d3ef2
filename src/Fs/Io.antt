-- ===== src/Fs/Io.antt =====
-- crates/core/fs-core/src/fs.rs: `write`, `write_at`, `append_write`, `read`, `read_at`,
-- `ftruncate`. A buffer that is filled comes back beside the count. A position is a `u64`.
use monaka_fs.Prelude.{ℕ, ◌==◌, if◌then◌else◌}
use monaka_fs.Error.{not_found, permission_denied, bad_file_descriptor}
use monaka_fs.Time.{TimeProvider}
use monaka_fs.Inode.{
  FileContent, file, dir, FileHandle, has, access_mode, o_rdonly, o_wronly, o_append,
}
use monaka_fs.Storage
use monaka_fs.Storage.{BlockStorage, Bytes, add_size}
use monaka_fs.Fs.{InodeRef, fd_with, set_position, inode_get, ok_or}
use monaka_fs.Fs.Exec.{M, ◌>>=◌, ◌>>◌, pure, fail, query, modify}
use monaka_fs.Fs.Create.{store_file}

-- `match &mut inode_ref.content { File(storage) => .., Dir(_) => Err(BadFileDescriptor) }`
abbrev pub on_file : {T A : Type 0} → FileContent → (BlockStorage → M T A) → M T A
on_file (file storage) f = f storage
on_file (dir entries) f = fail bad_file_descriptor

abbrev pub handle_of : {T : Type 0} → ℕ → M T FileHandle
handle_of fd = query (λ s. fd_with s fd)

abbrev pub inode_of : {T : Type 0} → FileHandle → M T InodeRef
inode_of handle = query (λ s. ok_or (inode_get s handle.inode_id) not_found)

-- The check of the access mode: `denied` is the mode that the call refuses.
abbrev pub check_mode : {T : Type 0} → FileHandle → ℕ → M T (Unit {0})
check_mode handle denied =
    if access_mode handle.flags == denied then fail permission_denied else pure tt

-- Where `write` writes: at the end of the file under `O_APPEND`.
abbrev pub write_pos : FileHandle → BlockStorage → ℕ
write_pos handle storage = if has handle.flags o_append then storage.size else handle.position

module _ {T : Type 0} ⦃time : TimeProvider T⦄ where
  -- The common end of the three writes: `pos` is where the data goes.
  unfoldable pub write_storage : ℕ → InodeRef → BlockStorage → ℕ → Bytes → M T ℕ
  write_storage fd r storage pos buf = do
    let done = Storage.write storage pos buf
    store_file r done.1 done.1.size
    modify (λ s. set_position s fd (add_size pos done.0))
    pure done.0

  unfoldable pub write : ℕ → Bytes → M T ℕ
  write fd buf = do
    handle ← handle_of fd
    check_mode handle o_rdonly
    r ← inode_of handle
    on_file r.inode.content λ storage. write_storage fd r storage (write_pos handle storage) buf

  unfoldable pub write_at : ℕ → ℕ → Bytes → M T ℕ
  write_at fd offset buf = do
    handle ← handle_of fd
    check_mode handle o_rdonly
    r ← inode_of handle
    on_file r.inode.content λ storage. write_storage fd r storage offset buf

  unfoldable pub append_write : ℕ → Bytes → M T ℕ
  append_write fd buf = do
    handle ← handle_of fd
    check_mode handle o_rdonly
    r ← inode_of handle
    on_file r.inode.content λ storage. write_storage fd r storage storage.size buf

  unfoldable pub ftruncate : ℕ → ℕ → M T (Unit {0})
  ftruncate fd size = do
    handle ← handle_of fd
    check_mode handle o_rdonly
    r ← inode_of handle
    on_file r.inode.content λ storage. store_file r (Storage.truncate storage size) size

module _ {T : Type 0} where
  -- The common end of the two reads.
  unfoldable pub read_storage : ℕ → BlockStorage → ℕ → Bytes → M T (ℕ × Bytes)
  read_storage fd storage pos out = do
    let done = Storage.read storage pos out
    modify (λ s. set_position s fd (add_size pos done.0))
    pure done

  unfoldable pub read : ℕ → Bytes → M T (ℕ × Bytes)
  read fd out = do
    handle ← handle_of fd
    check_mode handle o_wronly
    r ← inode_of handle
    on_file r.inode.content λ storage. read_storage fd storage handle.position out

  unfoldable pub read_at : ℕ → ℕ → Bytes → M T (ℕ × Bytes)
  read_at fd offset out = do
    handle ← handle_of fd
    check_mode handle o_wronly
    r ← inode_of handle
    on_file r.inode.content λ storage. read_storage fd storage offset out
