-- ===== src/Snapshot.antt =====
-- crates/core/fs-core/src/snapshot.rs: the file system as plain data, and back. What serde makes of
-- that data is not modelled. The field `data` of a file is `bytes` here.
pub mod File
pub mod Roundtrip
mod Examples
use monaka_fs.Prelude.{ℕ, Bool, List, [], ◌∷◌, ◌==◌, if◌then◌else◌, length, replicate}
use monaka_fs.Key.{Name}
use monaka_fs.Map.{Map}
use monaka_fs.Inode.{Inode, Metadata, FileContent, file, dir}
use monaka_fs.Storage
use monaka_fs.Storage.{BlockStorage, Bytes}
use monaka_fs.Fs.{Fs, empty_with, inode_insert}

pub record MetadataSnapshot : Type 0 where
  pub size : ℕ
  pub created : ℕ
  pub modified : ℕ
  pub permissions : ℕ
  pub is_dir : Bool

pub record FileDataSnapshot : Type 0 where
  pub size : ℕ
  pub bytes : Bytes

pub data FileContentSnapshot : Type 0 where
  file_snapshot : FileDataSnapshot → FileContentSnapshot
  dir_snapshot : Map Name ℕ → FileContentSnapshot

pub record InodeSnapshot : Type 0 where
  pub id : ℕ
  pub metadata : MetadataSnapshot
  pub content : FileContentSnapshot

pub record FsSnapshot : Type 0 where
  pub next_inode : ℕ
  pub root_inode : ℕ
  pub inodes : List InodeSnapshot

-- `MetadataSnapshot::from`
abbrev pub save_metadata : Metadata → MetadataSnapshot
save_metadata m = record {
  size = m.size;
  created = m.created;
  modified = m.modified;
  permissions = m.permissions;
  is_dir = m.is_dir;
}

-- `Metadata::from`
abbrev pub load_metadata : MetadataSnapshot → Metadata
load_metadata m = record {
  size = m.size;
  created = m.created;
  modified = m.modified;
  permissions = m.permissions;
  is_dir = m.is_dir;
}

-- `FileDataSnapshot::from`
unfoldable pub save_file : BlockStorage → FileDataSnapshot
save_file storage = record {
  size = storage.size;
  bytes = (Storage.read storage 0 (replicate storage.size 0)).1;
}

abbrev pub save_content : FileContent → FileContentSnapshot
save_content (file storage) = file_snapshot (save_file storage)
save_content (dir entries) = dir_snapshot entries

abbrev pub save_inode : ℕ → Inode → InodeSnapshot
save_inode id inode = record {
  id = id;
  metadata = save_metadata inode.metadata;
  content = save_content inode.content;
}

-- The loop of `to_snapshot` over the table, in the order of its keys.
abbrev pub save_table : Map ℕ Inode → List InodeSnapshot
save_table [] = []
save_table ((id, inode) ∷ table) = save_inode id inode ∷ save_table table

-- An empty `data` is not written; `Storage.write` of no bytes leaves the storage as it is.
abbrev pub write_all : Bytes → BlockStorage
write_all [] = Storage.new
write_all (b ∷ bytes) = (Storage.write Storage.new 0 (b ∷ bytes)).1

unfoldable pub load_file : FileDataSnapshot → BlockStorage
load_file d =
    let storage = write_all d.bytes in
    if storage.size == d.size then storage else Storage.truncate storage d.size

abbrev pub load_content : FileContentSnapshot → FileContent
load_content (file_snapshot d) = file (load_file d)
load_content (dir_snapshot entries) = dir entries

abbrev pub load_inode : InodeSnapshot → Inode
load_inode snap = record {
  id = snap.id;
  metadata = load_metadata snap.metadata;
  content = load_content snap.content;
}

module _ {T : Type 0} where
  unfoldable pub to_snapshot : Fs T → FsSnapshot
  to_snapshot s = record {
    next_inode = s.next_inode;
    root_inode = s.root_inode;
    inodes = save_table s.inode_table;
  }

  -- The loop of `from_snapshot`.
  unfoldable pub load_inodes : List InodeSnapshot → Fs T → Fs T
  load_inodes [] s = s
  load_inodes (snap ∷ snaps) s = load_inodes snaps (inode_insert s snap.id (load_inode snap))

  unfoldable pub from_snapshot : FsSnapshot → T → Fs T
  from_snapshot snapshot time_provider =
      load_inodes snapshot.inodes (empty_with time_provider snapshot.root_inode snapshot.next_inode)
