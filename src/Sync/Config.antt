-- ===== src/Sync/Config.antt =====
-- crates/sync/vfs-sync-core/src/config.rs: the configuration, read through a lookup. Durations are in
-- milliseconds; `usize` has 64 bits.
use monaka_fs.Prelude.{
  ℕ, ◌+◌, ◌*◌, Bool, true, false, ◌&&◌, ◌||◌, [], ◌∷◌, Option, none, some, leb, if◌then◌else◌,
}
use monaka_fs.Key.{Name, name_eq}
use monaka_fs.Text.Trim.{trim}
use monaka_fs.Text.Decimal.{parse_u64}
use monaka_fs.Sync.Store.Keys.{ascii}

pub data SyncOperation : Type 0 where
  upload : Name → SyncOperation
  delete : Name → Option Name → SyncOperation

abbrev pub path : SyncOperation → Name
path (upload p) = p
path (delete p etag) = p

pub data SyncMode : Type 0 where
  batch : SyncMode
  real_time : SyncMode

pub data InboundMode : Type 0 where
  no_inbound : InboundMode
  polling : InboundMode
  read_through : InboundMode

pub data MetadataMode : Type 0 where
  local_only : MetadataMode
  s3_head : MetadataMode

abbrev pub parse_sync_mode : Option Name → SyncMode
parse_sync_mode none = batch
parse_sync_mode (some v) =
    if name_eq v (ascii "realtime")
      || name_eq v (ascii "real-time")
      || name_eq v (ascii "immediate")
    then real_time
    else batch

abbrev pub parse_inbound_mode : Option Name → InboundMode
parse_inbound_mode none = polling
parse_inbound_mode (some v) =
    if name_eq v (ascii "none") || name_eq v (ascii "disabled")
    then no_inbound
    else if name_eq v (ascii "readthrough") || name_eq v (ascii "read-through")
    then read_through
    else polling

abbrev pub parse_metadata_mode : Option Name → MetadataMode
parse_metadata_mode none = local_only
parse_metadata_mode (some v) = if name_eq v (ascii "s3") then s3_head else local_only

pub record SyncConfig : Type 0 where
  pub mode : SyncMode
  pub inbound_mode : InboundMode
  pub metadata_mode : MetadataMode
  pub poll_interval : ℕ
  pub flush_interval : ℕ
  pub outbound_batch_size : ℕ
  pub file_lock : Bool
  pub lock_timeout : ℕ
  pub lock_lease : ℕ

-- `value.and_then(|s| s.trim().parse().ok())`
abbrev parsed : Option Name → Option ℕ
parsed none = none
parsed (some s) = parse_u64 (trim s)

abbrev unwrap_or : Option ℕ → ℕ → ℕ
unwrap_or none n = n
unwrap_or (some m) n = m

abbrev pub parse_secs : Option Name → ℕ → ℕ
parse_secs value default_secs = unwrap_or (parsed value) default_secs * 1000

abbrev pub parse_millis : Option Name → ℕ → ℕ
parse_millis value default_ms = unwrap_or (parsed value) default_ms

abbrev pub parse_usize : Option Name → ℕ → ℕ
parse_usize value default = unwrap_or (parsed value) default

-- `to_ascii_lowercase`
abbrev lower : ℕ → ℕ
lower c = if leb b'A' c && leb c b'Z' then c + 32 else c

abbrev to_ascii_lowercase : Name → Name
to_ascii_lowercase [] = []
to_ascii_lowercase (c ∷ s) = lower c ∷ to_ascii_lowercase s

abbrev switch : Name → Bool → Bool
switch v default =
    if name_eq v (ascii "enabled")
    then true
    else if name_eq v (ascii "disabled")
    then false
    else default

abbrev pub parse_enabled : Option Name → Bool → Bool
parse_enabled none default = default
parse_enabled (some s) default = switch (to_ascii_lowercase (trim s)) default

unfoldable pub from_lookup : (Name → Option Name) → SyncConfig
from_lookup lookup = record {
  mode = parse_sync_mode (lookup (ascii "VFS_SYNC_MODE"));
  inbound_mode = parse_inbound_mode (lookup (ascii "VFS_INBOUND_MODE"));
  metadata_mode = parse_metadata_mode (lookup (ascii "VFS_METADATA_MODE"));
  poll_interval = parse_secs (lookup (ascii "VFS_POLL_INTERVAL_SECS")) 30;
  flush_interval = parse_secs (lookup (ascii "VFS_FLUSH_INTERVAL_SECS")) 5;
  outbound_batch_size = parse_usize (lookup (ascii "VFS_OUTBOUND_BATCH_SIZE")) 10;
  file_lock = parse_enabled (lookup (ascii "VFS_S3_FILE_LOCK")) true;
  lock_timeout = parse_millis (lookup (ascii "VFS_S3_FILE_LOCK_TIMEOUT_MS")) 10000;
  lock_lease = parse_secs (lookup (ascii "VFS_S3_FILE_LOCK_LEASE_SECS")) 30;
}
