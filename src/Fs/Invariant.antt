-- ===== src/Fs/Invariant.antt =====
-- When the state of the file system is well formed, and the rules by which a call keeps it so.
pub mod Tables
pub mod Rules
pub mod Lookups
pub mod Steps
pub mod Opens
pub mod Makes
pub mod Removes
pub mod Transfers
pub mod Calls
use monaka_fs.Prelude.{ℕ, ◌≤◌, ◌<◌, ◌^◌, ◌≡◌, Bool, true, false, not, Option, none, some}
use monaka_fs.Key.{Name, nat_key, name_key}
use monaka_fs.Map
use monaka_fs.Map.{Map}
use monaka_fs.Inode.{Inode, FileContent, file, dir, FileHandle, Metadata, is_file}
use monaka_fs.Storage.View.{IsValid}
use monaka_fs.Fs.{Fs, InodeRef}

abbrev pub Table : Type 0
Table = Map ℕ Inode

-- Whether the table has a directory under this id.
abbrev pub has_dir : Table → ℕ → Bool
has_dir table id = elim (Map.get table id) [ none ↦ false | some i ↦ not (is_file i.content) ]

-- The metadata tell the kind of the content and, for a file, its size.
abbrev pub Agrees : FileContent → Metadata → Type 0
Agrees (file storage) m = IsValid storage × (m.size ≡ storage.size) × (m.is_dir ≡ false)
Agrees (dir entries) m = m.is_dir ≡ true

-- Every entry of a directory names an inode of the table.
abbrev pub IsLinked : Table → FileContent → Type 0
IsLinked table (file storage) = Unit
IsLinked table (dir entries) =
    (name : Name) (id : ℕ) → Map.get entries name ≡ some id → Map.contains_key table id ≡ true

pub record IsGood (table : Table) (next k : ℕ) (i : Inode) : Type 0 where
  pub id : i.id ≡ k
  pub below : k < next
  pub agrees : Agrees i.content i.metadata
  pub linked : IsLinked table i.content

pub record IsWellFormed {T : Type 0} (s : Fs T) : Type 0 where
  pub root : has_dir s.inode_table s.root_inode ≡ true
  pub inodes :
      (k : ℕ) (i : Inode) → Map.get s.inode_table k ≡ some i → IsGood s.inode_table s.next_inode k i
  pub handles :
      (fd : ℕ) (h : FileHandle)
      → Map.get s.fd_table fd ≡ some h
      → Map.contains_key s.inode_table h.inode_id ≡ true

-- The reference is up to date: the table holds that inode under its key.
abbrev pub IsRef : {T : Type 0} → Fs T → InodeRef → Type 0
IsRef s r = Map.get s.inode_table r.key ≡ some r.inode
