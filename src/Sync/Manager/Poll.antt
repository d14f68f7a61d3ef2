-- ===== src/Sync/Manager/Poll.antt =====
-- sync_manager.rs: the poll, which takes over what changed in the store.
use monaka_fs.Prelude.{
  ℕ, ◌+◌, Bool, true, false, not, ◌&&◌, ◌||◌, List, [], ◌∷◌, Option, none, some, if◌then◌else◌,
  length,
}
use monaka_fs.Key.{Name, name_key, name_eq}
use monaka_fs.Sync.Types.{S3ObjectInfo, S3Error, no_object}
use monaka_fs.Sync.Exec.{Outcome, ok, err, M, ◌>>=◌, ◌>>◌, pure, fail, gets, try, modify}
use monaka_fs.Sync.Store.{ObjectStore, Body, list_files, get_file}
use monaka_fs.Sync.Backend.{FsBackend}
use monaka_fs.Sync.FileMetadata
use monaka_fs.Sync.FileMetadata.{MetadataCache}
use monaka_fs.Sync.Manager.{Manager, on_world, is_locked, has_op, set_cache, write_file_content}
use monaka_fs.Sync.Manager.Upload.{note_download, differs}

pub record SyncStats : Type 0 where
  pub downloaded : ℕ
  pub deleted : ℕ

abbrev count_download : Outcome S3Error (Unit {0}) → SyncStats → SyncStats
count_download (ok done) stats = record stats { downloaded = stats.downloaded + 1 }
count_download (err e) stats = stats

abbrev count_delete : Outcome S3Error (Unit {0}) → SyncStats → SyncStats
count_delete (ok done) stats = record stats { deleted = stats.deleted + 1 }
count_delete (err e) stats = stats

-- The paths of the files of a listing, or of its directories.
unfoldable pub paths_of : Bool → List S3ObjectInfo → List Name
paths_of dirs [] = []
paths_of dirs (o ∷ objects) =
    let rest = paths_of dirs objects in
    if o.is_dir
    then (if dirs then o.path ∷ rest else rest)
    else if dirs
    then rest
    else o.path ∷ rest

unfoldable pub mem : Name → List Name → Bool
mem p [] = false
mem p (q ∷ ps) = let rest = mem p ps in if name_eq p q then true else rest

module _ {W : Type 0} where
  -- A leased file, or one with an operation in the queue, is left alone.
  abbrev pub is_ours : Manager W → Name → Bool
  is_ours s p = is_locked s p || has_op p s.outbound_queue

  -- Whether an object of the listing is to be downloaded.
  unfoldable pub is_wanted : S3ObjectInfo → Manager W → Bool
  is_wanted obj s =
      differs obj.etag (FileMetadata.get s.metadata_cache obj.path) && not (is_ours s obj.path)

module _ {W : Type 0} ⦃store : ObjectStore W⦄ ⦃fs : FsBackend W⦄ where
  abbrev pub take_body : Name → Option (Body × (Name × ℕ)) → M (Manager W) S3Error (Unit {0})
  take_body p none = fail (no_object p)
  take_body p (some (content, (etag, last_modified))) = do
    on_world (write_file_content p content)
    modify (note_download p etag last_modified (length content))

  unfoldable pub download_file : S3ObjectInfo → M (Manager W) S3Error (Unit {0})
  download_file obj = do found ← on_world (get_file obj.path); take_body obj.path found

  unfoldable pub delete_local_file : Name → M (Manager W) S3Error (Unit {0})
  delete_local_file p = do on_world (fs.unlink p); modify (set_cache (λ c. FileMetadata.remove c p))

  abbrev pub add_marker : S3ObjectInfo → Bool → {E : Type 0} → M (Manager W) E (Unit {0})
  add_marker obj true = pure tt
  add_marker obj false = do
    on_world (λ w. (ok tt, fs.mkdir_p obj.path w))
    modify (set_cache (λ c. FileMetadata.add_dir c obj.path obj.etag))

  abbrev pub download_if :
      S3ObjectInfo → Bool → SyncStats → {E : Type 0} → M (Manager W) E SyncStats
  download_if obj false stats = pure stats
  download_if obj true stats = do done ← try (download_file obj); pure (count_download done stats)

  abbrev pub poll_kind : Bool → S3ObjectInfo → SyncStats → {E : Type 0} → M (Manager W) E SyncStats
  poll_kind true obj stats = do
    known ← gets (λ s. FileMetadata.has_dir s.metadata_cache obj.path)
    add_marker obj known
    pure stats
  poll_kind false obj stats = do wanted ← gets (is_wanted obj); download_if obj wanted stats

  unfoldable pub poll_object : S3ObjectInfo → SyncStats → {E : Type 0} → M (Manager W) E SyncStats
  poll_object obj stats = poll_kind obj.is_dir obj stats

  unfoldable pub poll_objects :
      List S3ObjectInfo → SyncStats → {E : Type 0} → M (Manager W) E SyncStats
  poll_objects [] stats = pure stats
  poll_objects (obj ∷ objects) stats = do
    stats' ← poll_object obj stats
    poll_objects objects stats'

  abbrev pub drop_if : Name → Bool → SyncStats → {E : Type 0} → M (Manager W) E SyncStats
  drop_if p true stats = pure stats
  drop_if p false stats = do done ← try (delete_local_file p); pure (count_delete done stats)

  -- The files of the cache that the listing does not have.
  abbrev pub drop_missing : List Name → Name → SyncStats → {E : Type 0} → M (Manager W) E SyncStats
  drop_missing remote p stats = do
    kept ← gets (λ s. mem p remote || is_ours s p)
    drop_if p kept stats

  unfoldable pub poll_deleted :
      List Name → List Name → SyncStats → {E : Type 0} → M (Manager W) E SyncStats
  poll_deleted remote [] stats = pure stats
  poll_deleted remote (p ∷ ps) stats = do
    stats' ← drop_missing remote p stats
    poll_deleted remote ps stats'

  abbrev pub drop_dir : Name → Bool → {E : Type 0} → M (Manager W) E (Unit {0})
  drop_dir dir true = pure tt
  drop_dir dir false = do
    done ← on_world (try (fs.rmdir dir))
    modify (set_cache (λ c. FileMetadata.remove_dir c dir))

  unfoldable pub poll_dirs : List Name → List Name → {E : Type 0} → M (Manager W) E (Unit {0})
  poll_dirs remote [] = pure tt
  poll_dirs remote (dir ∷ dirs) = do drop_dir dir (mem dir remote); poll_dirs remote dirs

  unfoldable pub poll_inbound : M (Manager W) S3Error SyncStats
  poll_inbound = do
    objects ← on_world list_files
    stats ← poll_objects objects (record { downloaded = 0; deleted = 0 })
    local_paths ← gets (λ s. FileMetadata.paths s.metadata_cache)
    stats' ← poll_deleted (paths_of false objects) local_paths stats
    local_dirs ← gets (λ s. FileMetadata.dirs s.metadata_cache)
    poll_dirs (paths_of true objects) local_dirs
    pure stats'
