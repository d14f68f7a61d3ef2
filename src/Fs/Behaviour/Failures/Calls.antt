-- ===== src/Fs/Behaviour/Failures/Calls.antt =====
-- Calls that leave everything as it was when they fail, one by one.
use monaka_fs.Prelude.{ℕ, Bool, true, List, [], ◌∷◌, arith}
use monaka_fs.Key.{Name, nat_key, name_key}
use monaka_fs.Map.{Map}
use monaka_fs.Path.{components}
use monaka_fs.Error.{Result}
use monaka_fs.Time.{TimeProvider}
use monaka_fs.Inode.{FileContent, file, dir, FileHandle}
use monaka_fs.Storage.{BlockStorage, Bytes}
use monaka_fs.Fs.{Fs, InodeRef, set_position}
use monaka_fs.Fs.Exec.{M, ◌>>=◌, ◌>>◌, pure, query, modify}
use monaka_fs.Fs.Create.{
  now, store_entries, store_file, create_in, create_inode, insert_new, allocate_inode,
}
use monaka_fs.Fs.Open.{close}
use monaka_fs.Fs.Io.{
  on_file, check_mode, write_pos, write_storage, write, write_at, append_write, ftruncate,
  read_storage, read, read_at, inode_of, handle_of,
}
use monaka_fs.Fs.Seek.{new_position, seek}
use monaka_fs.Fs.Dirs.{mkdir, mkdir_comps}
use monaka_fs.Fs.Remove.{
  check_file, check_empty_dir, remove_from, remove_entry, remove_comps, unlink, rmdir,
}
use monaka_fs.Fs.Behaviour.Failures.{
  IsClean, IsTotal, IsTotal-pure, IsClean-fail, IsClean-total, IsStill-pure, IsStill-fail,
  IsStill-if, IsClean-if, IsTotal-modify, IsTotal-bind, IsClean-bind, IsClean-query, IsClean-then,
}

module _ {T : Type 0} where
  -- The calls on a descriptor: the lookups and the check of the mode come first.
  mode-IsClean :
      {A : Type 0} (s : Fs T) (fd denied : ℕ) (body : FileHandle → InodeRef → BlockStorage → M T A)
      → ((h : FileHandle) (r : InodeRef) (st : BlockStorage) → IsTotal (body h r st))
      → IsClean
          (do
            handle ← handle_of fd
            check_mode handle denied
            r ← inode_of handle
            on_file r.inode.content λ st. body handle r st)
          s
  mode-IsClean s fd denied body t = IsClean-query _ _ s λ h _.
      IsClean-bind _ _ s (IsStill-if _ _ _ s (IsStill-fail _ s) (IsStill-pure _ s))
        λ _ _. IsClean-query _ _ s λ r _. on r.inode.content (body h r) (t h r)
    where
      on :
          {A : Type 0} (c : FileContent) (f : BlockStorage → M T A)
          → ((st : BlockStorage) → IsTotal (f st))
          → IsClean (on_file c f) s
      on (file storage) f t = IsClean-total _ s (t storage)
      on (dir entries) f t = IsClean-fail _ s

module _ {T : Type 0} ⦃time : TimeProvider T⦄ where
  pub IsTotal-now : IsTotal {T = T} now
  unfolding now
  IsTotal-now = record { total = λ s e h. cc }

  pub IsTotal-store_entries :
      (r : InodeRef) (entries : Map Name ℕ) (t : ℕ) → IsTotal {T = T} (store_entries r entries t)
  unfolding store_entries
  IsTotal-store_entries r entries t = IsTotal-modify _

  IsTotal-store_file :
      (r : InodeRef) (storage : BlockStorage) (size : ℕ)
      → IsTotal {T = T} (store_file r storage size)
  unfolding store_file
  IsTotal-store_file r storage size = IsTotal-bind _ _ IsTotal-now λ t. IsTotal-modify _

  IsTotal-write_storage :
      (fd : ℕ) (r : InodeRef) (storage : BlockStorage) (pos : ℕ) (buf : Bytes)
      → IsTotal {T = T} (write_storage fd r storage pos buf)
  unfolding write_storage
  IsTotal-write_storage fd r storage pos buf =
      IsTotal-bind _ _ (IsTotal-store_file r _ _)
        λ _. IsTotal-bind _ _ (IsTotal-modify _) λ _. IsTotal-pure _

  pub write-IsClean : (s : Fs T) (fd : ℕ) (buf : Bytes) → IsClean (write fd buf) s
  unfolding write
  write-IsClean s fd buf =
      mode-IsClean s fd _ _ λ h r st. IsTotal-write_storage fd r st (write_pos h st) buf

  pub write_at-IsClean :
      (s : Fs T) (fd offset : ℕ) (buf : Bytes) → IsClean (write_at fd offset buf) s
  unfolding write_at
  write_at-IsClean s fd offset buf =
      mode-IsClean s fd _ _ λ h r st. IsTotal-write_storage fd r st offset buf

  pub append_write-IsClean : (s : Fs T) (fd : ℕ) (buf : Bytes) → IsClean (append_write fd buf) s
  unfolding append_write
  append_write-IsClean s fd buf =
      mode-IsClean s fd _ _ λ h r st. IsTotal-write_storage fd r st st.size buf

  pub ftruncate-IsClean : (s : Fs T) (fd size : ℕ) → IsClean (ftruncate fd size) s
  unfolding ftruncate
  ftruncate-IsClean s fd size = mode-IsClean s fd _ _ λ h r st. IsTotal-store_file r _ _

  create_inode-IsClean :
      (s : Fs T) (parent : InodeRef) (name : Name) (is_dir : Bool)
      → IsClean (create_inode parent name is_dir) s
  unfolding create_inode insert_new allocate_inode
  create_inode-IsClean s parent name is_dir = go parent.inode.content
    where
      go : (c : FileContent) → IsClean (create_in parent c name is_dir) s
      go (file storage) = IsClean-fail _ s
      go (dir entries) = IsClean-if _ _ _ s (IsClean-fail _ s) (
          IsClean-total _ s (
            IsTotal-bind _ _ (record { total = λ s e h. cc })
              λ id. IsTotal-bind _ _ IsTotal-now λ t.
                IsTotal-bind _ _ (IsTotal-store_entries parent _ t)
                  λ _. IsTotal-bind _ _ (IsTotal-modify _) λ _. IsTotal-pure _))

  pub mkdir-IsClean : (s : Fs T) (path : Name) → IsClean (mkdir path) s
  unfolding mkdir mkdir_comps
  mkdir-IsClean s path = IsClean-if _ _ _ s (IsClean-fail _ s) (go (components path))
    where
      go : (comps : List Name) → IsClean (mkdir_comps comps) s
      go [] = IsClean-fail _ s
      go (comp ∷ comps) = IsClean-query _ _ s λ root _.
          IsClean-query _ _ s λ parent _.
            IsClean-then _ _ s (create_inode-IsClean s parent _ true) λ _. IsTotal-pure _

  remove_entry-IsClean :
      (s : Fs T) (parent : InodeRef) (name : Name) → IsClean (remove_entry parent name) s
  unfolding remove_entry
  remove_entry-IsClean s parent name = go parent.inode.content
    where
      go : (c : FileContent) → IsClean (remove_from parent c name) s
      go (file storage) = IsClean-fail _ s
      go (dir entries) =
          IsClean-total _ s (IsTotal-bind _ _ IsTotal-now λ t. IsTotal-store_entries parent _ t)

  remove_comps-IsClean :
      (s : Fs T) (check : FileContent → Result (Unit {0})) (comps : List Name)
      → IsClean (remove_comps check comps) s
  unfolding remove_comps
  remove_comps-IsClean s check [] = IsClean-fail _ s
  remove_comps-IsClean s check (comp ∷ comps) = IsClean-query _ _ s λ root _.
      IsClean-query _ _ s λ parent _.
        IsClean-query _ _ s λ target _. IsClean-query _ _ s λ _ _. remove_entry-IsClean s parent _

  pub unlink-IsClean : (s : Fs T) (path : Name) → IsClean (unlink path) s
  unfolding unlink
  unlink-IsClean s path =
      IsClean-if _ _ _ s (IsClean-fail _ s) (remove_comps-IsClean s check_file (components path))

  pub rmdir-IsClean : (s : Fs T) (path : Name) → IsClean (rmdir path) s
  unfolding rmdir
  rmdir-IsClean s path =
      IsClean-if _ _ _ s (IsClean-fail _ s)
        (remove_comps-IsClean s check_empty_dir (components path))

module _ {T : Type 0} where
  IsTotal-read_storage :
      (fd : ℕ) (storage : BlockStorage) (pos : ℕ) (out : Bytes)
      → IsTotal {T = T} (read_storage fd storage pos out)
  unfolding read_storage
  IsTotal-read_storage fd storage pos out = IsTotal-bind _ _ (IsTotal-modify _) λ _. IsTotal-pure _

  pub read-IsClean : (s : Fs T) (fd : ℕ) (out : Bytes) → IsClean (read fd out) s
  unfolding read
  read-IsClean s fd out = mode-IsClean s fd _ _ λ h r st. IsTotal-read_storage fd st h.position out

  pub read_at-IsClean : (s : Fs T) (fd offset : ℕ) (out : Bytes) → IsClean (read_at fd offset out) s
  unfolding read_at
  read_at-IsClean s fd offset out =
      mode-IsClean s fd _ _ λ h r st. IsTotal-read_storage fd st offset out

  pub seek-IsClean : (s : Fs T) (fd offset whence : ℕ) → IsClean (seek fd offset whence) s
  unfolding seek
  seek-IsClean s fd offset whence =
      IsClean-query _ _ s λ h _. IsClean-query _ _ s λ r _. go h r.inode.content
    where
      go :
          (h : FileHandle) (c : FileContent)
          → IsClean
              (on_file c λ storage. do
                pos ← query (λ _. new_position whence offset h.position storage.size)
                modify (λ s. set_position s fd pos)
                pure pos)
              s
      go h (dir entries) = IsClean-fail _ s
      go h (file storage) =
          IsClean-query _ _ s
            λ pos _. IsClean-total _ s (IsTotal-bind _ _ (IsTotal-modify _) λ _. IsTotal-pure _)

  pub close-IsClean : (s : Fs T) (fd : ℕ) → IsClean (close fd) s
  unfolding close
  close-IsClean s fd = record { clean = λ e h. ground arith }
