-- ===== src/Fs/Create.antt =====
-- crates/core/fs-core/src/fs.rs: the calls behind the public ones that change the tables.
use monaka_fs.Prelude.{ℕ, ◌+◌, ◌%◌, ◌^◌, Bool, true, false, if◌then◌else◌}
use monaka_fs.Key.{Name, nat_key, name_key}
use monaka_fs.Map
use monaka_fs.Map.{Map}
use monaka_fs.Error.{ok, already_exists, not_a_directory}
use monaka_fs.Time.{TimeProvider}
use monaka_fs.Inode.{Inode, FileContent, file, dir, new_dir, new_file}
use monaka_fs.Storage.{BlockStorage}
use monaka_fs.Fs.{InodeRef, inode_insert, fd_insert}
use monaka_fs.Fs.Exec.{M, ◌>>=◌, ◌>>◌, pure, fail, modify}

module _ {T : Type 0} where
  unfoldable pub allocate_inode : M T ℕ
  allocate_inode s = (ok s.next_inode, record s { next_inode = (s.next_inode + 1) % 2 ^ 64 })

  unfoldable pub allocate_fd : M T ℕ
  allocate_fd s = (ok s.next_fd, record s { next_fd = (s.next_fd + 1) % 2 ^ 32 })

  -- `FileHandle::new`, `allocate_fd` and `fd_insert`, with which each way to open a file ends.
  unfoldable pub open_handle : ℕ → ℕ → M T ℕ
  unfolding allocate_fd fd_insert
  open_handle inode_id flags = do
    fd ← allocate_fd
    modify (λ s. fd_insert s fd (record { inode_id = inode_id; position = 0; flags = flags }))
    pure fd

-- `inode.metadata.modified = t`
abbrev pub touched : Inode → ℕ → Inode
touched inode t = record inode { metadata = record inode.metadata { modified = t } }

abbrev pub fresh_inode : ℕ → ℕ → Bool → Inode
fresh_inode id t true = record {
  id = id;
  metadata = record (new_dir id).metadata { created = t; modified = t };
  content = (new_dir id).content;
}
fresh_inode id t false = record {
  id = id;
  metadata = record (new_file id).metadata { created = t; modified = t };
  content = (new_file id).content;
}

module _ {T : Type 0} ⦃time : TimeProvider T⦄ where
  -- `self.time_provider.now()`
  unfoldable pub now : M T ℕ
  now s =
      let (t, provider) = time.now s.time_provider in (ok t, record s { time_provider = provider })

  -- The directory `parent` with other entries and a new time stamp.
  unfoldable pub store_entries : InodeRef → Map Name ℕ → ℕ → M T (Unit {0})
  unfolding inode_insert
  store_entries parent entries t =
      modify
        (λ s. inode_insert s parent.key (record (touched parent.inode t) { content = dir entries }))

  -- A write to a file: the storage, the size in the metadata, and the time stamp.
  unfoldable pub store_file : InodeRef → BlockStorage → ℕ → M T (Unit {0})
  unfolding now inode_insert
  store_file r storage size = do
    t ← now
    modify (λ s. inode_insert s r.key (record {
      id = r.inode.id;
      metadata = record r.inode.metadata { size = size; modified = t };
      content = file storage;
    }))

  unfoldable pub insert_new : InodeRef → Map Name ℕ → Name → Bool → M T InodeRef
  unfolding allocate_inode now store_entries inode_insert
  insert_new parent entries name is_dir = do
    id ← allocate_inode
    t ← now
    let inode = fresh_inode id t is_dir
    store_entries parent (Map.insert entries name id) t
    modify (λ s. inode_insert s id inode)
    pure (record { key = id; inode = inode })

  abbrev pub create_in : InodeRef → FileContent → Name → Bool → M T InodeRef
  create_in parent (file storage) name is_dir = fail not_a_directory
  create_in parent (dir entries) name is_dir =
      if Map.contains_key entries name
      then fail already_exists
      else insert_new parent entries name is_dir

  unfoldable pub create_inode : InodeRef → Name → Bool → M T InodeRef
  create_inode parent name is_dir = create_in parent parent.inode.content name is_dir
