-- ===== src/Sync/Manager/Dirs.antt =====
-- sync_manager.rs: directory markers.
use monaka_fs.Prelude.{true, false, Option, none, some}
use monaka_fs.Key.{Name}
use monaka_fs.Sync.Types.{
  Precondition, no_condition, if_match, S3Error, is_precondition_failed, SyncError, s3,
}
use monaka_fs.Sync.Exec.{Outcome, ok, err, M, ◌>>=◌, ◌>>◌, pure, fail, gets, try, modify}
use monaka_fs.Sync.Store.{ObjectStore, put_dir_marker, head_dir_marker, delete_dir_marker}
use monaka_fs.Sync.FileMetadata
use monaka_fs.Sync.FileMetadata.{MetadataCache}
use monaka_fs.Sync.Manager.{Manager, on_world, set_cache}
use monaka_fs.Sync.Manager.Upload.{on_store}

abbrev pub marker_cond : Option Name → Precondition
marker_cond none = no_condition
marker_cond (some etag) = if_match etag

module _ {W : Type 0} ⦃store : ObjectStore W⦄ where
  -- The marker of another client serves as well.
  abbrev marker_etag : Name → Option Name → M (Manager W) SyncError (Option Name)
  marker_etag p (some etag) = pure (some etag)
  marker_etag p none = on_store (head_dir_marker p)

  abbrev note_marker : Name → Option Name → M (Manager W) SyncError (Unit {0})
  note_marker p none = pure tt
  note_marker p (some etag) = modify (set_cache (λ c. FileMetadata.add_dir c p etag))

  unfoldable pub on_mkdir : Name → M (Manager W) SyncError (Unit {0})
  on_mkdir p = do made ← on_store (put_dir_marker p); etag ← marker_etag p made; note_marker p etag

  -- A marker that changed is left.
  abbrev marker_gone : Outcome S3Error (Unit {0}) → M (Manager W) SyncError (Unit {0})
  marker_gone (ok done) = pure tt
  marker_gone (err e) = elim (is_precondition_failed e) [ true ↦ pure tt | false ↦ fail (s3 e) ]

  unfoldable pub on_rmdir : Name → M (Manager W) SyncError (Unit {0})
  on_rmdir p = do
    etag ← gets (λ s. FileMetadata.dir_etag s.metadata_cache p)
    done ← on_world (try (delete_dir_marker p (marker_cond etag)))
    marker_gone done
    modify (set_cache (λ c. FileMetadata.remove_dir c p))
