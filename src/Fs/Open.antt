-- ===== src/Fs/Open.antt =====
-- crates/core/fs-core/src/fs.rs: `open_at`, `open_path_with_flags`, `open_path`, `close`.
use Prim.Native.Nat.{bit_or}
use monaka_fs.Prelude.{ℕ, false, List, [], ◌∷◌, none, some, ◌||◌, ◌==◌, if◌then◌else◌}
use monaka_fs.Key.{Name, nat_key}
use monaka_fs.Map
use monaka_fs.Path
use monaka_fs.Path.{starts_with_slash, components, split, non_empty, parents, last}
use monaka_fs.Error.{
  Result, ok, err, not_found, is_a_directory, invalid_argument, bad_file_descriptor, already_exists,
}
use monaka_fs.Time.{TimeProvider}
use monaka_fs.Inode.{
  FileContent, file, dir, is_file, has, access_mode, o_rdonly, o_wronly, o_rdwr, o_creat, o_excl,
  o_trunc,
}
use monaka_fs.Storage
use monaka_fs.Fs.{InodeRef, fd_with, fd_remove, inode_get, find_inode, walk, get_root, ok_or, enter}
use monaka_fs.Fs.Exec.{M, ◌>>=◌, ◌>>◌, pure, fail, query}
use monaka_fs.Fs.Create.{create_inode, open_handle, store_file}

module _ {T : Type 0} ⦃time : TimeProvider T⦄ where
  -- What `open` does when `create_inode` reports that the name is there after all.
  abbrev pub created : InodeRef → Name → ℕ → Result InodeRef → M T InodeRef
  created parent name flags (ok r) = pure r
  created parent name flags (err already_exists) =
      if has flags o_excl then fail already_exists else query (λ s. find_inode s parent name)
  created parent name flags (err e) = fail e

  abbrev pub found_or_created : InodeRef → Name → ℕ → Result InodeRef → M T InodeRef
  found_or_created parent name flags (ok r) = pure r
  found_or_created parent name flags (err not_found) =
      if has flags o_creat
      then (λ s. let (r, s') = create_inode parent name false s in created parent name flags r s')
      else fail not_found
  found_or_created parent name flags (err e) = fail e

  -- `match self.find_inode(..) { .. }`: the file of that name, made if the flags ask for it.
  unfoldable pub find_or_create : InodeRef → Name → ℕ → M T InodeRef
  find_or_create parent name flags s =
      found_or_created parent name flags (find_inode s parent name) s

  -- A directory is not opened for writing, nor truncated.
  unfoldable pub check_access : InodeRef → ℕ → M T (Unit {0})
  check_access r flags =
      if is_file r.inode.content
      then pure tt
      else if (access_mode flags == o_wronly) || (access_mode flags == o_rdwr)
      then fail is_a_directory
      else if has flags o_trunc
      then fail is_a_directory
      else pure tt

  abbrev pub truncate_content : InodeRef → FileContent → M T (Unit {0})
  truncate_content r (file storage) = store_file r (Storage.truncate storage 0) 0
  truncate_content r (dir entries) = pure tt

  unfoldable pub truncate_on_open : InodeRef → ℕ → M T (Unit {0})
  truncate_on_open r flags =
      if has flags o_trunc
      then (if access_mode flags == o_rdonly
          then fail invalid_argument
          else truncate_content r r.inode.content)
      else pure tt

  -- From the directory where the walk starts to the new descriptor.
  unfoldable pub open_from : InodeRef → List Name → ℕ → M T ℕ
  open_from start comps flags = do
    parent ← query (λ s. walk s start (parents comps))
    r ← find_or_create parent (last comps) flags
    check_access r flags
    truncate_on_open r flags
    open_handle r.inode.id flags

  unfoldable pub open_comps_at : InodeRef → List Name → ℕ → M T ℕ
  open_comps_at start [] flags = fail invalid_argument
  open_comps_at start (comp ∷ comps) flags = open_from start (comp ∷ comps) flags

  unfoldable pub open_under : ℕ → Name → ℕ → M T ℕ
  open_under dir_fd path flags = do
    handle ← query (λ s. fd_with s dir_fd)
    start ← query (λ s. ok_or (inode_get s handle.inode_id) not_found)
    start_dir ← query (λ _. enter start)
    (if Path.is_empty path
        then fail invalid_argument
        else open_comps_at start_dir (non_empty (split path)) flags)

  unfoldable pub open_at : ℕ → Name → ℕ → M T ℕ
  open_at dir_fd path flags =
      if starts_with_slash path then fail invalid_argument else open_under dir_fd path flags

  unfoldable pub open_comps : List Name → ℕ → M T ℕ
  open_comps [] flags = λ s. open_handle s.root_inode flags s
  open_comps (comp ∷ comps) flags = do root ← query get_root; open_from root (comp ∷ comps) flags

  unfoldable pub open_path_with_flags : Name → ℕ → M T ℕ
  open_path_with_flags path flags =
      if Path.is_empty path then fail invalid_argument else open_comps (components path) flags

  unfoldable pub open_path : Name → M T ℕ
  open_path path = open_path_with_flags path (bit_or o_rdwr o_creat)

module _ {T : Type 0} where
  unfoldable pub close : ℕ → M T (Unit {0})
  close fd s = elim (Map.get s.fd_table fd) [
    | none ↦ (err bad_file_descriptor, s)
    | some handle ↦ (ok tt, fd_remove s fd)
  ]
