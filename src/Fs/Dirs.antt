-- ===== src/Fs/Dirs.antt =====
-- crates/core/fs-core/src/fs.rs: `mkdir`, `mkdir_p`, `readdir`, `readdir_fd`.
use monaka_fs.Prelude.{ℕ, Bool, true, List, [], ◌∷◌, none, some, if◌then◌else◌}
use monaka_fs.Key.{Name, nat_key}
use monaka_fs.Map.{Map, keys}
use monaka_fs.Path
use monaka_fs.Path.{components, parents, last}
use monaka_fs.Error.{Result, ok, err, not_found, already_exists, invalid_argument, not_a_directory}
use monaka_fs.Time.{TimeProvider}
use monaka_fs.Inode.{FileContent, file, dir}
use monaka_fs.Fs.{Fs, InodeRef, find_inode, inode_get, walk, resolve, get_root, enter}
use monaka_fs.Fs.Exec.{M, ◌>>=◌, pure, fail, query}
use monaka_fs.Fs.Create.{create_inode}
use monaka_fs.Fs.Io.{handle_of, inode_of}

module _ {T : Type 0} ⦃time : TimeProvider T⦄ where
  unfoldable pub mkdir_comps : List Name → M T (Unit {0})
  mkdir_comps [] = fail invalid_argument
  mkdir_comps (comp ∷ comps) = do
    root ← query get_root
    parent ← query (λ s. walk s root (parents (comp ∷ comps)))
    new ← create_inode parent (last (comp ∷ comps)) true
    pure tt

  unfoldable pub mkdir : Name → M T (Unit {0})
  mkdir path = if Path.is_empty path then fail invalid_argument else mkdir_comps (components path)

  -- What `mkdir_p` does when `create_inode` reports that the name is there after all.
  abbrev pub made : InodeRef → Name → Result InodeRef → M T InodeRef
  made parent name (ok r) = pure r
  made parent name (err already_exists) = query (λ s. find_inode s parent name)
  made parent name (err e) = fail e

  abbrev pub found_or_made : InodeRef → Name → Result InodeRef → M T InodeRef
  found_or_made parent name (ok r) = query (λ _. enter r)
  found_or_made parent name (err not_found) =
      λ s. let (r, s') = create_inode parent name true s in made parent name r s'
  found_or_made parent name (err e) = fail e

  -- One round of the loop of `mkdir_p`.
  unfoldable pub find_or_make : InodeRef → Name → M T InodeRef
  find_or_make current comp s = found_or_made current comp (find_inode s current comp) s

  unfoldable pub make_all : InodeRef → List Name → M T (Unit {0})
  make_all current [] = pure tt
  make_all current (comp ∷ comps) = do next ← find_or_make current comp; make_all next comps

  unfoldable pub mkdir_p_comps : List Name → M T (Unit {0})
  mkdir_p_comps [] = pure tt
  mkdir_p_comps (comp ∷ comps) = do root ← query get_root; make_all root (comp ∷ comps)

  unfoldable pub mkdir_p : Name → M T (Unit {0})
  mkdir_p path =
      if Path.is_empty path then fail invalid_argument else mkdir_p_comps (components path)

abbrev pub keys_of : FileContent → Result (List Name)
keys_of (file storage) = err not_a_directory
keys_of (dir entries) = ok (keys entries)

abbrev pub iter_of : FileContent → Result (Map Name ℕ)
iter_of (file storage) = err not_a_directory
iter_of (dir entries) = ok entries

module _ {T : Type 0} where
  unfoldable pub readdir : Name → M T (List Name)
  readdir path = if Path.is_empty path then fail invalid_argument else (do
    root ← query get_root
    r ← query (λ s. resolve s root (components path))
    query (λ _. keys_of r.inode.content))

  -- An entry whose inode is not in the table is passed over.
  unfoldable pub list_entries : Fs T → Map Name ℕ → List (Name × Bool)
  list_entries s [] = []
  list_entries s ((name, id) ∷ entries) =
      let rest = list_entries s entries in
      elim (inode_get s id) [
        | none ↦ rest
        | some child ↦ (name, child.inode.metadata.is_dir) ∷ rest
      ]

  unfoldable pub readdir_fd : ℕ → M T (List (Name × Bool))
  readdir_fd fd = do
    handle ← handle_of fd
    r ← inode_of handle
    entries ← query (λ _. iter_of r.inode.content)
    query (λ s. ok (list_entries s entries))
