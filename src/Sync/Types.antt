-- ===== src/Sync/Types.antt =====
-- crates/sync/vfs-sync-core/src/types.rs: objects, preconditions and errors. A string is the list of
-- its bytes. How an error is printed is not modelled: where a message is a printed error, the error
-- stands for it.
use monaka_fs.Prelude.{ℕ, Bool, true, false, Option}
use monaka_fs.Key.{Name}

pub record S3ObjectInfo : Type 0 where
  pub path : Name
  pub etag : Name
  pub last_modified : ℕ
  pub size : ℕ
  pub is_dir : Bool

pub record ObjectMeta : Type 0 where
  pub key : Name
  pub etag : Name
  pub last_modified : ℕ
  pub size : ℕ

pub data Precondition : Type 0 where
  no_condition : Precondition
  if_match : Name → Precondition
  if_none_match_any : Precondition

pub data S3Error : Type 0 where
  read_failed : Name → Name → S3Error
  write_failed : Name → Name → S3Error
  delete_failed : Name → Name → S3Error
  precondition_failed : Name → ℕ → Name → S3Error
  no_object : Name → S3Error
  not_implemented : Name → Name → S3Error

abbrev pub key : S3Error → Name
key (read_failed k message) = k
key (write_failed k message) = k
key (delete_failed k message) = k
key (precondition_failed k status code) = k
key (no_object k) = k
key (not_implemented k message) = k

abbrev pub is_precondition_failed : S3Error → Bool
is_precondition_failed (precondition_failed k status code) = true
is_precondition_failed _ = false

abbrev pub is_not_found : S3Error → Bool
is_not_found (no_object k) = true
is_not_found _ = false

abbrev pub is_not_implemented : S3Error → Bool
is_not_implemented (not_implemented k message) = true
is_not_implemented _ = false

pub data SyncError : Type 0 where
  busy : Name → Option Name → SyncError
  conflict : Name → Bool → SyncError
  fs_failed : Name → S3Error → SyncError
  s3 : S3Error → SyncError

abbrev pub is_busy : SyncError → Bool
is_busy (busy path holder) = true
is_busy _ = false

abbrev pub is_conflict : SyncError → Bool
is_conflict (conflict path refreshed) = true
is_conflict _ = false
