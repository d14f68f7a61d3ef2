-- ===== src/Sync/Manager.antt =====
-- crates/sync/vfs-sync-core/src/sync_manager.rs: the state of the sync manager, its queue and what it
-- does with one local file. `W` is the world: the object store, the local file system and the clocks.
-- A call of the manager runs to its end before the next one starts.
pub mod Upload
pub mod Leases
pub mod Closing
pub mod Flush
pub mod Poll
pub mod Load
pub mod Tick
pub mod Dirs
pub mod Frame
pub mod Batch
pub mod Draining
pub mod Queue
pub mod Counting
pub mod Sparing
use monaka_fs.Prelude.{
  ℕ, ◌-◌, ◌/◌, Bool, true, false, not, ◌&&◌, List, [], ◌∷◌, ◌++◌, Option, none, some, ◌==◌,
  if◌then◌else◌, length, overwrite, replicate,
}
use monaka_fs.Key.{Name, name_key, name_eq}
use monaka_fs.Path.{slash}
use monaka_fs.Sync.Types.{Precondition, if_match, if_none_match_any, S3Error, SyncError, fs_failed}
use monaka_fs.Sync.Exec.{Outcome, ok, err, M, ◌>>=◌, ◌>>◌, pure, gets, total, try, modify}
use monaka_fs.Sync.Clock.{Clock}
use monaka_fs.Sync.Store.{Body}
use monaka_fs.Sync.Config.{
  SyncConfig, SyncOperation, upload, delete, path, SyncMode, batch, real_time,
}
use monaka_fs.Sync.Backend.{FsBackend}
use monaka_fs.Sync.FileMetadata
use monaka_fs.Sync.FileMetadata.{MetadataCache, SyncedFileMetadata}
use monaka_fs.Sync.Lease.Table
use monaka_fs.Sync.Lease.Table.{LeaseTable, WriteLease}

-- `SyncManager`, with the world in place of the store and the file system.
pub record Manager (W : Type 0) : Type 0 where
  pub world : W
  pub outbound_queue : List SyncOperation
  pub metadata_cache : MetadataCache
  pub leases : LeaseTable
  pub instance_id : Name
  pub config : SyncConfig
  pub last_poll : ℕ
  pub last_flush : ℕ
  pub shutdown : Bool

abbrev pub base_cond : Option Name → Precondition
base_cond (some etag) = if_match etag
base_cond none = if_none_match_any

-- Every operation on another path.
unfoldable pub retain_others : Name → List SyncOperation → List SyncOperation
retain_others p [] = []
retain_others p (op ∷ queue) =
    let rest = retain_others p queue in if name_eq (path op) p then rest else op ∷ rest

-- Whether an operation on the path is in the queue.
unfoldable pub has_op : Name → List SyncOperation → Bool
has_op p [] = false
has_op p (op ∷ queue) = let rest = has_op p queue in if name_eq (path op) p then true else rest

abbrev pub is_real_time : SyncMode → Bool
is_real_time real_time = true
is_real_time batch = false

abbrev pub etag_seen : Option SyncedFileMetadata → Option Name
etag_seen none = none
etag_seen (some m) = some m.etag

-- `push_back` of an operation that takes the place of all others on its path.
abbrev pub requeue : SyncOperation → List SyncOperation → List SyncOperation
requeue op queue = retain_others (path op) queue ++ (op ∷ [])

module _ {W : Type 0} where
  -- A call of the store, the file system or a clock.
  unfoldable pub on_world : {E A : Type 0} → M W E A → M (Manager W) E A
  on_world m s = let (r, w) = m s.world in (r, record s { world = w })

  -- `new`; `now` is the reading of the monotonic clock.
  abbrev pub new : W → MetadataCache → SyncConfig → Name → ℕ → Manager W
  new world metadata_cache config instance_id now = record {
    world = world;
    outbound_queue = [];
    metadata_cache = metadata_cache;
    leases = [];
    instance_id = instance_id;
    config = config;
    last_poll = now;
    last_flush = now;
    shutdown = false;
  }

  abbrev pub lease_of : Manager W → Name → Option WriteLease
  lease_of s p = Table.get s.leases p

  abbrev pub is_locked : Manager W → Name → Bool
  is_locked s p = Table.contains s.leases p

  abbrev pub is_realtime : Manager W → Bool
  is_realtime s = is_real_time s.config.mode

  abbrev pub pending_count : Manager W → ℕ
  pending_count s = length s.outbound_queue

  abbrev pub request_shutdown : Manager W → Manager W
  request_shutdown s = record s { shutdown = true }

  abbrev pub set_lease : Name → (WriteLease → WriteLease) → Manager W → Manager W
  set_lease p f s = record s { leases = Table.update s.leases p f }

  abbrev pub set_cache : (MetadataCache → MetadataCache) → Manager W → Manager W
  set_cache f s = record s { metadata_cache = f s.metadata_cache }

  abbrev pub set_queue : (List SyncOperation → List SyncOperation) → Manager W → Manager W
  set_queue f s = record s { outbound_queue = f s.outbound_queue }

  -- A leased file is only marked.
  abbrev pub upload_as : Name → Option WriteLease → Manager W → Manager W
  upload_as p (some l) s = set_lease p (λ l. record l { dirty = true; pending_delete = false }) s
  upload_as p none s = set_queue (requeue (upload p)) s

  unfoldable pub enqueue_upload : Name → Manager W → Manager W
  enqueue_upload p s = upload_as p (lease_of s p) s

  abbrev pub delete_as : Name → Option WriteLease → Manager W → Manager W
  delete_as p (some l) s = set_lease p (λ l. record l { pending_delete = true; dirty = false }) s
  delete_as p none s =
      let etag = etag_seen (FileMetadata.get s.metadata_cache p) in
      set_queue (requeue (delete p etag)) (set_cache (λ c. FileMetadata.remove c p) s)

  unfoldable pub enqueue_delete : Name → Manager W → Manager W
  enqueue_delete p s = delete_as p (lease_of s p) s

  -- The precondition of the next write.
  unfoldable pub cond_for_upload : Name → Manager W → Precondition
  cond_for_upload p s = elim (lease_of s p) [
    | some l ↦ base_cond l.base_etag
    | none ↦ base_cond (etag_seen (FileMetadata.get s.metadata_cache p))
  ]

-- `Path::parent`, on the reversed path: the end of the path without slashes and `.` components, ...
abbrev starts_slash : Name → Bool
starts_slash [] = false
starts_slash (c ∷ back) = c == slash

unfoldable pub trim_back : Name → Name
trim_back [] = []
trim_back (c ∷ back) =
    let rest = trim_back back in
    if c == slash then rest else if (c == b'.') && starts_slash back then rest else c ∷ back

-- ... and without its last component.
unfoldable pub drop_component : Name → Name
drop_component [] = []
drop_component (c ∷ back) = let rest = drop_component back in if c == slash then c ∷ back else rest

abbrev rev_onto : Name → Name → Name
rev_onto [] acc = acc
rev_onto (c ∷ s) acc = rev_onto s (c ∷ acc)

-- The parent directory that `mkdir_p` is called for: none for the root and for the empty path.
unfoldable pub parent_str : Name → Name
unfolding trim_back drop_component
parent_str p = rev_onto (trim_back (drop_component (trim_back (rev_onto p [])))) []

module _ {W : Type 0} ⦃fs : FsBackend W⦄ where
  unfoldable pub read_file_content : Name → M W S3Error Body
  read_file_content p = do
    fd ← fs.open_read p
    size ← fs.fstat_size fd
    bytes ← fs.read fd size
    closed ← try (fs.close fd)
    pure (overwrite (replicate size 0) 0 bytes)

  abbrev make_parent : Name → W → W
  make_parent [] w = w
  make_parent (c ∷ parent) w = fs.mkdir_p (c ∷ parent) w

  unfoldable pub ensure_parent : Name → {E : Type 0} → M W E (Unit {0})
  ensure_parent p w = (ok tt, make_parent (parent_str p) w)

  unfoldable pub write_file_content : Name → Body → M W S3Error (Unit {0})
  unfolding ensure_parent
  write_file_content p content = do
    ensure_parent p
    fd ← fs.open_write_truncate p
    written ← fs.write fd content
    closed ← try (fs.close fd)
    pure tt

-- `current_timestamp`: the wall clock in seconds.
unfoldable pub current_timestamp : {W E : Type 0} → ⦃clock : Clock W⦄ → M W E ℕ
current_timestamp ⦃clock⦄ = do now_ms ← total clock.now_ms; pure (now_ms / 1000)
