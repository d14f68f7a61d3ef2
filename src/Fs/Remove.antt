-- ===== src/Fs/Remove.antt =====
-- crates/core/fs-core/src/fs.rs: `unlink` and `rmdir`.
use monaka_fs.Prelude.{List, [], ◌∷◌, if◌then◌else◌}
use monaka_fs.Key.{Name, name_key}
use monaka_fs.Map
use monaka_fs.Map.{Map}
use monaka_fs.Path
use monaka_fs.Path.{components, parents, last}
use monaka_fs.Error.{Result, ok, err, invalid_argument, is_a_directory, not_a_directory, not_empty}
use monaka_fs.Time.{TimeProvider}
use monaka_fs.Inode.{FileContent, file, dir}
use monaka_fs.Fs.{InodeRef, find_inode, walk, get_root}
use monaka_fs.Fs.Exec.{M, ◌>>=◌, ◌>>◌, fail, query}
use monaka_fs.Fs.Create.{now, store_entries}

-- What `unlink` asks of its target.
abbrev pub check_file : FileContent → Result (Unit {0})
check_file (file storage) = ok tt
check_file (dir entries) = err is_a_directory

-- What `rmdir` asks of its target.
abbrev pub check_empty_dir : FileContent → Result (Unit {0})
check_empty_dir (file storage) = err not_a_directory
check_empty_dir (dir entries) = if Map.is_empty entries then ok tt else err not_empty

module _ {T : Type 0} ⦃time : TimeProvider T⦄ where
  abbrev pub remove_from : InodeRef → FileContent → Name → M T (Unit {0})
  remove_from parent (file storage) name = fail not_a_directory
  remove_from parent (dir entries) name = do
    t ← now
    store_entries parent (Map.remove entries name) t

  -- `entries.remove(name)` in the parent directory, with the time stamp.
  unfoldable pub remove_entry : InodeRef → Name → M T (Unit {0})
  remove_entry parent name = remove_from parent parent.inode.content name

  -- The common course of `unlink` and `rmdir`, with their check of the target.
  unfoldable pub remove_comps : (FileContent → Result (Unit {0})) → List Name → M T (Unit {0})
  remove_comps check [] = fail invalid_argument
  remove_comps check (comp ∷ comps) = do
    root ← query get_root
    parent ← query (λ s. walk s root (parents (comp ∷ comps)))
    target ← query (λ s. find_inode s parent (last (comp ∷ comps)))
    query (λ _. check target.inode.content)
    remove_entry parent (last (comp ∷ comps))

  unfoldable pub unlink : Name → M T (Unit {0})
  unlink path =
      if Path.is_empty path
      then fail invalid_argument
      else remove_comps check_file (components path)

  unfoldable pub rmdir : Name → M T (Unit {0})
  rmdir path =
      if Path.is_empty path
      then fail invalid_argument
      else remove_comps check_empty_dir (components path)
