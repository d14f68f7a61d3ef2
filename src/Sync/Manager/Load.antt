-- ===== src/Sync/Manager/Load.antt =====
-- sync_manager.rs: `populate_from_s3`, which fills a file system from the store.
use monaka_fs.Prelude.{ℕ, true, false, List, [], ◌∷◌, Option, none, some, length}
use monaka_fs.Key.{Name}
use monaka_fs.Sync.Types.{S3ObjectInfo, S3Error}
use monaka_fs.Sync.Exec.{Outcome, ok, err, M, ◌>>=◌, ◌>>◌, pure, try, with_err}
use monaka_fs.Sync.Store.{ObjectStore, Body, list_files, get_file}
use monaka_fs.Sync.Backend.{FsBackend}
use monaka_fs.Sync.FileMetadata
use monaka_fs.Sync.FileMetadata.{MetadataCache}
use monaka_fs.Sync.Manager.{ensure_parent}

-- The message of the second is the error that it prints.
pub data LoadError : Type 0 where
  store_failed : S3Error → LoadError
  fs_failed : S3Error → LoadError

module _ {W : Type 0} ⦃fs : FsBackend W⦄ where
  -- The directories first.
  unfoldable pub load_dirs : List S3ObjectInfo → MetadataCache → M W LoadError MetadataCache
  load_dirs [] cache = pure cache
  load_dirs (obj ∷ objects) cache = elim obj.is_dir [
    | false ↦ load_dirs objects cache
    | true ↦ do
      (λ w. (ok tt, fs.mkdir_p obj.path w))
      load_dirs objects (FileMetadata.add_dir cache obj.path obj.etag)
  ]

  abbrev store_file : Name → Body → M W LoadError (Unit {0})
  store_file p content = do
    ensure_parent p
    fd ← with_err fs_failed (fs.open_write_truncate p)
    written ← with_err fs_failed (fs.write fd content)
    with_err fs_failed (fs.close fd)

  -- A file that cannot be fetched is left out.
  abbrev pub load_found :
      Name
      → Outcome S3Error (Option (Body × (Name × ℕ)))
      → MetadataCache
      → M W LoadError MetadataCache
  load_found p (ok (some (content, (etag, last_modified)))) cache = do
    store_file p content
    pure (FileMetadata.update_after_download cache p etag last_modified (length content))
  load_found p (ok none) cache = pure cache
  load_found p (err e) cache = pure cache

module _ {W : Type 0} ⦃store : ObjectStore W⦄ ⦃fs : FsBackend W⦄ where
  unfoldable pub load_files : List S3ObjectInfo → MetadataCache → M W LoadError MetadataCache
  load_files [] cache = pure cache
  load_files (obj ∷ objects) cache = elim obj.is_dir [
    | true ↦ load_files objects cache
    | false ↦ do
      found ← try (get_file obj.path)
      cache' ← load_found obj.path found cache
      load_files objects cache'
  ]

  unfoldable pub populate_from_s3 : M W LoadError MetadataCache
  populate_from_s3 = do
    objects ← with_err store_failed list_files
    cache ← load_dirs objects FileMetadata.new
    load_files objects cache
