-- ===== src/Sync/Manager/Upload.antt =====
-- sync_manager.rs: the upload of a file under a precondition, what follows a conflict, and the ways to
-- fetch a file again.
pub mod Conditions
use monaka_fs.Prelude.{
  ℕ, Bool, true, false, not, ◌&&◌, List, [], ◌∷◌, Option, none, some, if◌then◌else◌, length,
}
use monaka_fs.Key.{Name, name_key, name_eq}
use monaka_fs.Sync.Types.{
  Precondition, no_condition, if_match, if_none_match_any, S3Error, is_precondition_failed,
  is_not_found, SyncError, conflict, fs_failed, s3,
}
use monaka_fs.Sync.Exec.{
  Outcome, ok, err, M, ◌>>=◌, ◌>>◌, pure, fail, gets, total, try, modify, with_err, continue,
}
use monaka_fs.Sync.Clock.{Clock}
use monaka_fs.Sync.Store.{
  ObjectStore, Body, head_file, get_file, put_file, head_dir_marker, has_children,
}
use monaka_fs.Sync.Config.{SyncConfig, MetadataMode, local_only, s3_head}
use monaka_fs.Sync.Backend.{FsBackend}
use monaka_fs.Sync.FileMetadata
use monaka_fs.Sync.FileMetadata.{MetadataCache, SyncedFileMetadata}
use monaka_fs.Sync.Lease.Table.{WriteLease}
use monaka_fs.Sync.Manager.{
  Manager, on_world, is_locked, set_lease, set_cache, cond_for_upload, read_file_content,
  write_file_content, current_timestamp,
}

abbrev Found : Type 0
Found = Option (Body × (Name × ℕ))

-- The error of a fallible call of the store, behind `?`.
abbrev pub on_store : {W A : Type 0} → M W S3Error A → M (Manager W) SyncError A
on_store m = on_world (with_err s3 m)

-- The error of a call on the local file.
abbrev pub on_fs : {W A : Type 0} → Name → M W S3Error A → M (Manager W) SyncError A
on_fs p m = on_world (with_err (fs_failed p) m)

abbrev pub is_lost_condition : SyncError → Bool
is_lost_condition (s3 e) = is_precondition_failed e
is_lost_condition _ = false

-- What HEAD says of a PUT under the condition.
abbrev pub landed : Precondition → Name → Bool
landed if_none_match_any remote = true
landed (if_match base) remote = not (name_eq remote base)
landed no_condition remote = false

abbrev landed_of : Precondition → Outcome S3Error (Option (Name × (ℕ × ℕ))) → Option Name
landed_of cond (ok (some (remote, rest))) = if landed cond remote then some remote else none
landed_of cond _ = none

module _ {W : Type 0} ⦃store : ObjectStore W⦄ where
  unfoldable pub verify_upload_landed : Name → Precondition → {E : Type 0} → M W E (Option Name)
  verify_upload_landed p cond = do meta ← try (head_file p); pure (landed_of cond meta)

  -- The existence checks in front of a write; only their failure counts.
  abbrev pub prechecks : Name → MetadataMode → M W S3Error (Unit {0})
  prechecks p local_only = pure tt
  prechecks p s3_head = do
    file ← try (head_file p)
    marker ← try (head_dir_marker p)
    children ← try (has_children p)
    (λ w. (file, w)) >>= λ _. (λ w. (marker, w)) >>= λ _. (λ w. (children, w)) >>= λ _. pure tt

  -- A 412 on a create, if HEAD finds no object either.
  abbrev create_again : Name → Body → S3Error → Option (Name × (ℕ × ℕ)) → M W S3Error Name
  create_again p content e (some meta) = fail e
  create_again p content e none = put_file p content if_none_match_any

  abbrev landed_or : S3Error → Option Name → M W S3Error Name
  landed_or e (some etag) = pure etag
  landed_or e none = fail e

  -- An error of a PUT that no retry fits.
  abbrev pub unretried : Name → Precondition → S3Error → M W S3Error Name
  unretried p cond e = elim (is_precondition_failed e) [
    | true ↦ fail e
    | false ↦ verify_upload_landed p cond >>= landed_or e
  ]

  -- The arms of the `match` on the PUT.
  abbrev pub after_put : Name → Body → Precondition → Outcome S3Error Name → M W S3Error Name
  after_put p content cond (ok etag) = pure etag
  after_put p content (if_match base) (err e) = elim (is_not_found e) [
    | true ↦ put_file p content if_none_match_any
    | false ↦ unretried p (if_match base) e
  ]
  after_put p content if_none_match_any (err e) = elim (is_precondition_failed e) [
    | true ↦ head_file p >>= create_again p content e
    | false ↦ unretried p if_none_match_any e
  ]
  after_put p content no_condition (err e) = unretried p no_condition e

  unfoldable pub put_with_cond : Name → Body → Precondition → M W S3Error Name
  put_with_cond p content cond = do
    done ← try (put_file p content cond)
    after_put p content cond done

-- The new ETag of a file, in the cache and in the lease.
unfoldable pub note_upload : {W : Type 0} → Name → Name → ℕ → ℕ → ℕ → Manager W → Manager W
note_upload p etag size local_modified now s =
    set_lease p (λ l. record l { base_etag = some etag; dirty = false })
      (set_cache (λ c. FileMetadata.update_after_upload c now p etag size local_modified) s)

unfoldable pub note_download : {W : Type 0} → Name → Name → ℕ → ℕ → Manager W → Manager W
note_download p etag last_modified size s =
    set_cache (λ c. FileMetadata.update_after_download c p etag last_modified size) s

module _ {W : Type 0} ⦃store : ObjectStore W⦄ ⦃fs : FsBackend W⦄ ⦃clock : Clock W⦄ where
  unfoldable pub upload_with_cond : Name → Precondition → M (Manager W) SyncError Name
  upload_with_cond p cond = do
    content ← on_fs p (read_file_content p)
    local_modified ← on_world (total (fs.stat_modified p))
    mode ← gets (λ s. s.config.metadata_mode)
    on_store (prechecks p mode)
    etag ← on_store (put_with_cond p content cond)
    now ← on_world current_timestamp
    modify (note_upload p etag (length content) local_modified now)
    pure etag

-- Whether the ETag differs from the one in the cache.
abbrev pub differs : Name → Option SyncedFileMetadata → Bool
differs etag none = true
differs etag (some m) = not (name_eq etag m.etag)

module _ {W : Type 0} ⦃store : ObjectStore W⦄ ⦃fs : FsBackend W⦄ where
  abbrev pub refreshed_by :
      Name → Body → Name → ℕ → Outcome S3Error (Unit {0}) → {E : Type 0} → M (Manager W) E Bool
  refreshed_by p content etag last_modified (err e) = pure false
  refreshed_by p content etag last_modified (ok done) = do
    modify (note_download p etag last_modified (length content))
    modify (set_lease p (λ l. record l { base_etag = some etag; dirty = false }))
    pure true

  -- The arms of the `match` on the GET.
  abbrev pub refresh_from : Name → Outcome S3Error Found → {E : Type 0} → M (Manager W) E Bool
  refresh_from p (ok (some (content, (etag, last_modified)))) = do
    written ← on_world (try (write_file_content p content))
    refreshed_by p content etag last_modified written
  refresh_from p (ok none) = do
    modify (set_cache (λ c. FileMetadata.remove c p))
    modify (set_lease p (λ l. record l { base_etag = none }))
    pure false
  refresh_from p (err e) = pure false

  unfoldable pub refresh_local_from_remote : Name → {E : Type 0} → M (Manager W) E Bool
  refresh_local_from_remote p = do found ← on_world (try (get_file p)); refresh_from p found

  -- The remote version wins: it is fetched, and the conflict reported.
  abbrev pub lose : Name → {A : Type 0} → M (Manager W) SyncError A
  lose p = do refreshed ← refresh_local_from_remote p; fail (conflict p refreshed)

  -- A file that the store has, written to the local file system and noted.
  abbrev pub take_remote : Name → Body → Name → ℕ → M (Manager W) SyncError (Unit {0})
  take_remote p content etag last_modified = do
    on_fs p (write_file_content p content)
    modify (note_download p etag last_modified (length content))

  abbrev pub take_found : Name → Found → M (Manager W) SyncError (Unit {0})
  take_found p none = pure tt
  take_found p (some (content, (etag, last_modified))) = take_remote p content etag last_modified

  unfoldable pub refresh_file_from_s3 : Name → M (Manager W) SyncError (Unit {0})
  refresh_file_from_s3 p s = elim (is_locked s p) [
    | true ↦ (ok tt, s)
    | false ↦ (on_store (get_file p) >>= take_found p) s
  ]

  abbrev take_changed : Name → Found → M (Manager W) SyncError (Option Name × Bool)
  take_changed p none = pure (none, false)
  take_changed p (some (content, (etag, last_modified))) = do
    take_remote p content etag last_modified
    pure (some etag, true)

  abbrev refetch : Name → Name → Bool → M (Manager W) SyncError (Option Name × Bool)
  refetch p etag true = on_store (get_file p) >>= take_changed p
  refetch p etag false = pure (some etag, false)

  abbrev pub on_head : Name → Option (Name × (ℕ × ℕ)) → M (Manager W) SyncError (Option Name × Bool)
  on_head p none = pure (none, false)
  on_head p (some (etag, rest)) = do
    seen ← gets (λ s. FileMetadata.get s.metadata_cache p)
    refetch p etag (differs etag seen)

  unfoldable pub head_and_refresh : Name → M (Manager W) SyncError (Option Name × Bool)
  head_and_refresh p = on_store (head_file p) >>= on_head p

  unfoldable pub check_and_refresh_from_s3 : Name → M (Manager W) SyncError Bool
  check_and_refresh_from_s3 p s = elim (is_locked s p) [
    | true ↦ (ok false, s)
    | false ↦ (do (etag, refreshed) ← head_and_refresh p; pure refreshed) s
  ]

module _ {W : Type 0} ⦃store : ObjectStore W⦄ ⦃fs : FsBackend W⦄ ⦃clock : Clock W⦄ where
  -- With file locks the remote version wins, without them the local one.
  abbrev pub decide : Name → Bool → M (Manager W) SyncError (Unit {0})
  decide p true = lose p
  decide p false = do etag ← upload_with_cond p no_condition; pure tt

  unfoldable pub handle_upload_conflict : Name → M (Manager W) SyncError (Unit {0})
  handle_upload_conflict p = do lock ← gets (λ s. s.config.file_lock); decide p lock

  abbrev pub after_upload : Name → Outcome SyncError Name → M (Manager W) SyncError (Unit {0})
  after_upload p (ok etag) = pure tt
  after_upload p (err e) = elim (is_lost_condition e) [
    | true ↦ handle_upload_conflict p
    | false ↦ fail e
  ]

  unfoldable pub sync_file_now : Name → M (Manager W) SyncError (Unit {0})
  sync_file_now p = do
    cond ← gets (cond_for_upload p)
    done ← try (upload_with_cond p cond)
    after_upload p done
