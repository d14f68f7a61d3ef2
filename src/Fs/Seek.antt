-- ===== src/Fs/Seek.antt =====
-- crates/core/fs-core/src/fs.rs: `stat`, `fstat`, `seek`.
use monaka_fs.Prelude.{ℕ, ◌+◌, ◌%◌, ◌^◌, Bool, leb, ◌==◌, if◌then◌else◌}
use monaka_fs.Key.{Name}
use monaka_fs.Path
use monaka_fs.Path.{components}
use monaka_fs.Error.{Result, ok, err, invalid_argument}
use monaka_fs.Inode.{Metadata}
use monaka_fs.Fs.{set_position, get_root, resolve}
use monaka_fs.Fs.Exec.{M, ◌>>=◌, ◌>>◌, pure, fail, query, modify}
use monaka_fs.Fs.Io.{on_file, handle_of, inode_of}

-- An `i64` is its bit pattern, a number below 2 ^ 64, which is negative from 2 ^ 63 on. So `as i64`
-- and `as u64` change nothing, and the sum of two wraps.
abbrev pub is_negative : ℕ → Bool
is_negative w = leb (2 ^ 63) w

abbrev pub add_i64 : ℕ → ℕ → ℕ
add_i64 a b = (a + b) % 2 ^ 64

abbrev pub seek_set : ℕ
seek_set = 0

abbrev pub seek_cur : ℕ
seek_cur = 1

abbrev pub seek_end : ℕ
seek_end = 2

abbrev pub non_negative : ℕ → Result ℕ
non_negative w = if is_negative w then err invalid_argument else ok w

-- `match whence { .. }`
unfoldable pub new_position : ℕ → ℕ → ℕ → ℕ → Result ℕ
new_position whence offset current size =
    if whence == seek_set
    then non_negative offset
    else if whence == seek_cur
    then non_negative (add_i64 current offset)
    else if whence == seek_end
    then non_negative (add_i64 size offset)
    else err invalid_argument

module _ {T : Type 0} where
  unfoldable pub stat : Name → M T Metadata
  stat path = if Path.is_empty path then fail invalid_argument else (do
    root ← query get_root
    r ← query (λ s. resolve s root (components path))
    pure r.inode.metadata)

  unfoldable pub fstat : ℕ → M T Metadata
  fstat fd = do handle ← handle_of fd; r ← inode_of handle; pure r.inode.metadata

  unfoldable pub seek : ℕ → ℕ → ℕ → M T ℕ
  seek fd offset whence = do
    handle ← handle_of fd
    r ← inode_of handle
    on_file r.inode.content λ storage. do
      pos ← query (λ _. new_position whence offset handle.position storage.size)
      modify (λ s. set_position s fd pos)
      pure pos
