-- ===== src/Fs/Rename.antt =====
-- crates/core/fs-core/src/fs.rs: `rename`. The two branches on the order of the parents' ids differ
-- only in the order of their locks.
use monaka_fs.Prelude.{
  ℕ, Bool, true, false, not, List, [], ◌∷◌, Option, none, some, ◌&&◌, ◌||◌, ◌==◌, if◌then◌else◌,
}
use monaka_fs.Key.{Name, name_key, name_eq}
use monaka_fs.Map
use monaka_fs.Map.{Map}
use monaka_fs.Path
use monaka_fs.Path.{components, parents, last}
use monaka_fs.Error.{
  Result, ok, err, not_found, invalid_argument, is_a_directory, not_a_directory, not_empty,
}
use monaka_fs.Time.{TimeProvider}
use monaka_fs.Inode.{FileContent, file, dir}
use monaka_fs.Fs.{InodeRef, find_inode, walk, get_root}
use monaka_fs.Fs.Exec.{M, ◌>>=◌, ◌>>◌, pure, fail, query}
use monaka_fs.Fs.Create.{now, store_entries}

-- `old_comps == new_comps`
abbrev pub comps_eq : List Name → List Name → Bool
comps_eq [] [] = true
comps_eq [] (b ∷ bs) = false
comps_eq (a ∷ as') [] = false
comps_eq (a ∷ as') (b ∷ bs) = name_eq a b && comps_eq as' bs

abbrev pub is_full_dir : FileContent → Bool
is_full_dir (file storage) = false
is_full_dir (dir entries) = not (Map.is_empty entries)

-- Whether the source may replace what is at the destination.
unfoldable pub check_dest : Bool → Result InodeRef → Result (Unit {0})
check_dest source_is_dir (err e) = ok tt
check_dest source_is_dir (ok dest) =
    if source_is_dir && not dest.inode.metadata.is_dir
    then err not_a_directory
    else if not source_is_dir && dest.inode.metadata.is_dir
    then err is_a_directory
    else if dest.inode.metadata.is_dir && is_full_dir dest.inode.content
    then err not_empty
    else ok tt

module _ {T : Type 0} ⦃time : TimeProvider T⦄ where
  abbrev pub reinsert : InodeRef → Map Name ℕ → Name → Name → ℕ → Option ℕ → M T (Unit {0})
  reinsert parent entries old_name new_name t none = fail not_found
  reinsert parent entries old_name new_name t (some id) =
      store_entries parent (Map.insert (Map.remove entries old_name) new_name id) t

  abbrev pub rename_in : InodeRef → FileContent → Name → Name → ℕ → M T (Unit {0})
  rename_in parent (file storage) old_name new_name t = fail not_a_directory
  rename_in parent (dir entries) old_name new_name t =
      reinsert parent entries old_name new_name t (Map.get entries old_name)

  -- Both names are in one directory.
  unfoldable pub rename_within : InodeRef → Name → Name → ℕ → M T (Unit {0})
  rename_within parent old_name new_name t =
      rename_in parent parent.inode.content old_name new_name t

  abbrev pub move_to : InodeRef → FileContent → Name → ℕ → ℕ → M T (Unit {0})
  move_to new_parent (file storage) new_name id t = fail not_a_directory
  move_to new_parent (dir entries) new_name id t =
      store_entries new_parent (Map.insert entries new_name id) t

  abbrev pub move_entry :
      InodeRef → InodeRef → Map Name ℕ → Name → Name → ℕ → Option ℕ → M T (Unit {0})
  move_entry old_parent new_parent entries old_name new_name t none = fail not_found
  move_entry old_parent new_parent entries old_name new_name t (some id) = do
    store_entries old_parent (Map.remove entries old_name) t
    move_to new_parent new_parent.inode.content new_name id t

  abbrev pub move_from : InodeRef → InodeRef → FileContent → Name → Name → ℕ → M T (Unit {0})
  move_from old_parent new_parent (file storage) old_name new_name t = fail not_a_directory
  move_from old_parent new_parent (dir entries) old_name new_name t =
      move_entry old_parent new_parent entries old_name new_name t (Map.get entries old_name)

  -- The names are in two directories.
  unfoldable pub rename_across : InodeRef → InodeRef → Name → Name → ℕ → M T (Unit {0})
  rename_across old_parent new_parent old_name new_name t =
      move_from old_parent new_parent old_parent.inode.content old_name new_name t

  unfoldable pub rename_comps : List Name → List Name → M T (Unit {0})
  rename_comps old_comps new_comps = do
    root ← query get_root
    old_parent ← query (λ s. walk s root (parents old_comps))
    source ← query (λ s. find_inode s old_parent (last old_comps))
    new_parent ← query (λ s. walk s root (parents new_comps))
    query (λ s. check_dest source.inode.metadata.is_dir (find_inode s new_parent (last new_comps)))
    t ← now
    (if old_parent.inode.id == new_parent.inode.id
        then rename_within old_parent (last old_comps) (last new_comps) t
        else rename_across old_parent new_parent (last old_comps) (last new_comps) t)

  unfoldable pub rename : Name → Name → M T (Unit {0})
  rename old_path new_path =
      if Path.is_empty old_path || Path.is_empty new_path
      then fail invalid_argument
      else (let old_comps = components old_path in
          let new_comps = components new_path in
          if comps_eq old_comps [] || comps_eq new_comps []
          then fail invalid_argument
          else if comps_eq old_comps new_comps
          then pure tt
          else rename_comps old_comps new_comps)
