-- ===== src/Inode.antt =====
-- crates/core/fs-core/src/inode.rs, handle.rs and types.rs: what the tables of `Fs` hold.
use Prim.Native.Nat.{bit_and}
use monaka_fs.Prelude.{ℕ, Bool, true, false, not, [], ◌==◌}
use monaka_fs.Key.{Name}
use monaka_fs.Map.{Map}
use monaka_fs.Storage
use monaka_fs.Storage.{BlockStorage}

abbrev pub o_rdonly : ℕ
o_rdonly = 0

abbrev pub o_wronly : ℕ
o_wronly = 1

abbrev pub o_rdwr : ℕ
o_rdwr = 2

abbrev pub o_creat : ℕ
o_creat = 0x40

abbrev pub o_excl : ℕ
o_excl = 0x80

abbrev pub o_trunc : ℕ
o_trunc = 0x200

abbrev pub o_append : ℕ
o_append = 0x400

-- `flags & bit != 0`
abbrev pub has : ℕ → ℕ → Bool
has flags bit = not (bit_and flags bit == 0)

-- `flags & 0x3`
abbrev pub access_mode : ℕ → ℕ
access_mode flags = bit_and flags 3

pub record Metadata : Type 0 where
  pub size : ℕ
  pub created : ℕ
  pub modified : ℕ
  pub permissions : ℕ
  pub is_dir : Bool

pub data FileContent : Type 0 where
  file : BlockStorage → FileContent
  dir : Map Name ℕ → FileContent

pub record Inode : Type 0 where
  pub id : ℕ
  pub metadata : Metadata
  pub content : FileContent

abbrev pub new_file : ℕ → Inode
new_file id = record {
  id = id;
  metadata = record { size = 0; created = 0; modified = 0; permissions = 0o644; is_dir = false };
  content = file Storage.new;
}

abbrev pub new_dir : ℕ → Inode
new_dir id = record {
  id = id;
  metadata = record { size = 0; created = 0; modified = 0; permissions = 0o755; is_dir = true };
  content = dir [];
}

-- `matches!(content, FileContent::File(_))`
abbrev pub is_file : FileContent → Bool
is_file (file storage) = true
is_file (dir entries) = false

pub record FileHandle : Type 0 where
  pub inode_id : ℕ
  pub position : ℕ
  pub flags : ℕ
