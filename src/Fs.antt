-- ===== src/Fs.antt =====
-- crates/core/fs-core/src/fs.rs: the state of the file system, its tables and the lookups that
-- change nothing. The flavour modelled is the one without `std` and `thread-safe`: both tables are
-- `BTreeMap`s, a call runs to its end before the next one starts, and an inode reference is shared
-- by the table and never replaced there, so that a reference is the key and the inode behind it.
pub mod Exec
pub mod Create
pub mod Open
pub mod Io
pub mod Seek
pub mod Dirs
pub mod Remove
pub mod Rename
pub mod Invariant
pub mod Behaviour
mod Tests
mod Examples
use monaka_fs.Prelude.{
  ℕ, ◌+◌, ◌%◌, ◌^◌, Bool, true, false, List, [], ◌∷◌, Option, none, some, if◌then◌else◌,
}
use monaka_fs.Key.{Name, nat_key, name_key}
use monaka_fs.Map
use monaka_fs.Map.{Map}
use monaka_fs.Error.{
  Result, ok, err, FsError, not_found, not_a_directory, bad_file_descriptor, ◌>>=◌,
}
use monaka_fs.Time.{TimeProvider}
use monaka_fs.Inode.{Inode, FileContent, file, dir, FileHandle, Metadata, is_file, new_dir}

pub record Fs (T : Type 0) : Type 0 where
  pub next_inode : ℕ
  pub next_fd : ℕ
  pub fd_table : Map ℕ FileHandle
  pub inode_table : Map ℕ Inode
  pub root_inode : ℕ
  pub time_provider : T

-- What `inode_get` returns: the shared cell of the table, read now.
pub record InodeRef : Type 0 where
  pub key : ℕ
  pub inode : Inode

abbrev pub ok_or : {A : Type 0} → Option A → FsError → Result A
ok_or none e = err e
ok_or (some a) e = ok a

abbrev pub entries_of : FileContent → Option (Map Name ℕ)
entries_of (file storage) = none
entries_of (dir entries) = some entries

-- `if matches!(content, FileContent::File(_)) { return Err(NotADirectory) }`
abbrev pub enter : InodeRef → Result InodeRef
enter r = if is_file r.inode.content then err not_a_directory else ok r

module _ {T : Type 0} where
  unfoldable pub fd_with : Fs T → ℕ → Result FileHandle
  fd_with s fd = ok_or (Map.get s.fd_table fd) bad_file_descriptor

  -- `fd_try_with(fd, |h| h.set_position(pos))`
  unfoldable pub set_position : Fs T → ℕ → ℕ → Fs T
  set_position s fd pos = elim (Map.get s.fd_table fd) [
    | none ↦ s
    | some h ↦ record s { fd_table = Map.insert s.fd_table fd (record h { position = pos }) }
  ]

  unfoldable pub fd_insert : Fs T → ℕ → FileHandle → Fs T
  fd_insert s fd handle = record s { fd_table = Map.insert s.fd_table fd handle }

  unfoldable pub fd_remove : Fs T → ℕ → Fs T
  fd_remove s fd = record s { fd_table = Map.remove s.fd_table fd }

  unfoldable pub inode_get : Fs T → ℕ → Option InodeRef
  inode_get s id = elim (Map.get s.inode_table id) [
    | none ↦ none
    | some inode ↦ some (record { key = id; inode = inode })
  ]

  unfoldable pub inode_insert : Fs T → ℕ → Inode → Fs T
  inode_insert s id inode = record s { inode_table = Map.insert s.inode_table id inode }

  abbrev pub find_entry : Fs T → Option ℕ → Result InodeRef
  find_entry s none = err not_found
  find_entry s (some id) = ok_or (inode_get s id) not_found

  abbrev pub find_in : Fs T → FileContent → Name → Result InodeRef
  find_in s (file storage) name = err not_a_directory
  find_in s (dir entries) name = find_entry s (Map.get entries name)

  unfoldable pub find_inode : Fs T → InodeRef → Name → Result InodeRef
  find_inode s parent name = find_in s parent.inode.content name

  -- The loop over the leading components, which checks that each is a directory.
  unfoldable pub walk : Fs T → InodeRef → List Name → Result InodeRef
  walk s current [] = ok current
  walk s current (comp ∷ comps) = do
    next ← find_inode s current comp
    here ← enter next
    walk s here comps

  -- The loop of `stat` and `readdir`, which leaves that check to `find_inode`.
  unfoldable pub resolve : Fs T → InodeRef → List Name → Result InodeRef
  resolve s current [] = ok current
  resolve s current (comp ∷ comps) = do next ← find_inode s current comp; resolve s next comps

  unfoldable pub get_root : Fs T → Result InodeRef
  get_root s = ok_or (inode_get s s.root_inode) not_found

  unfoldable pub empty_with : T → ℕ → ℕ → Fs T
  empty_with time_provider root_inode next_inode_seed = record {
    next_inode = next_inode_seed;
    next_fd = 3;
    fd_table = [];
    inode_table = [];
    root_inode = root_inode;
    time_provider = time_provider;
  }

module _ {T : Type 0} ⦃time : TimeProvider T⦄ where
  unfoldable pub with_time_provider : T → Fs T
  with_time_provider provider =
      let (timestamp, provider') = time.now provider in
      let inode = new_dir 0 in
      let root = record inode {
        metadata = record inode.metadata { created = timestamp; modified = timestamp };
      } in
      inode_insert (empty_with provider' 0 1) 0 root
