-- ===== src/Sync/Examples/Setting.antt =====
-- A world for the examples: the store in memory, whose ETags are the bodies, a clock, and local files.
use monaka_fs.Prelude.{
  true, false, ℕ, ◌+◌, ◌%◌, List, [], ◌∷◌, ◌++◌, Option, none, some, arith, length, get_or,
}
use monaka_fs.Key.{Name, name_key}
use monaka_fs.Map
use monaka_fs.Map.{Map}
use monaka_fs.Sync.Types.{S3Error}
use monaka_fs.Sync.Exec.{ok, M}
use monaka_fs.Sync.Clock.{Clock}
use monaka_fs.Sync.Store.{ObjectStore, Body}
use monaka_fs.Sync.Store.Memory
use monaka_fs.Sync.Store.Memory.{Inner, memory_store}
use monaka_fs.Sync.Store.Keys.{ascii}
use monaka_fs.Sync.Backend.{FsBackend}
use monaka_fs.Sync.Config.{SyncConfig, upload, delete, batch, polling, local_only}
use monaka_fs.Sync.FileMetadata
use monaka_fs.Sync.Lease.Table.{WriteLease}
use monaka_fs.Sync.Lease.Waiting.{IsLawful}
use monaka_fs.Sync.Manager.{Manager}

pub record World : Type 0 where
  pub inner : Inner
  pub ms : ℕ
  pub files : Map Name Body
  pub opened : List Name

abbrev pub identity : Body → Name
identity body = body

abbrev pub memory : ObjectStore Inner
memory = memory_store identity

abbrev on_inner : {A : Type 0} → M Inner S3Error A → M World S3Error A
on_inner m w = let (r, inner) = m w.inner in (r, record w { inner = inner })

abbrev body_or : Option Body → Body
body_or none = []
body_or (some b) = b

instance abbrev pub world_store : ObjectStore World
world_store = record {
  list = λ prefix max_keys. on_inner (memory.list prefix max_keys);
  head = λ key. on_inner (memory.head key);
  get = λ key. on_inner (memory.get key);
  put = λ key body cond. on_inner (memory.put key body cond);
  delete = λ key cond. on_inner (memory.delete key cond);
}

instance abbrev pub world_clock : Clock World
world_clock = record {
  now_ms = λ w. (w.ms, w);
  now = λ w. (w.ms, w);
  sleep = λ ms w. record w { ms = w.ms + ms };
  random = λ seed w. (seed % 97, w);
}

abbrev file_of : World → ℕ → Name
file_of w fd = get_or w.opened fd []

abbrev open_file : Name → M World S3Error ℕ
open_file p w = (ok (length w.opened), record w { opened = w.opened ++ (p ∷ []) })

instance abbrev pub world_fs : FsBackend World
world_fs = record {
  open_read = open_file;
  open_write_truncate = λ p w. open_file p (record w { files = Map.insert w.files p [] });
  read = λ fd n w. (ok (body_or (Map.get w.files (file_of w fd))), w);
  write = λ fd content w.
      (ok (length content), record w { files = Map.insert w.files (file_of w fd) content });
  close = λ fd w. (ok tt, w);
  stat_modified = λ p w. (0, w);
  fstat_size = λ fd w. (ok (length (body_or (Map.get w.files (file_of w fd)))), w);
  unlink = λ p w. (ok tt, record w { files = Map.remove w.files p });
  mkdir_p = λ p w. w;
  rmdir = λ p w. (ok tt, w);
}

pub world-IsLawful : IsLawful World
world-IsLawful = record {
  get = λ key. record { forward = λ w. omega arith };
  put = λ key body cond. record { forward = λ w. omega arith };
  now_ms = λ w. omega arith;
  now = λ w. omega arith;
  random = λ seed w. omega arith;
  sleep = λ ms w. omega arith;
}

abbrev pub file_name : Name
file_name = ascii "/f"

abbrev pub start_world : World
start_world = record {
  inner = Memory.empty;
  ms = 5000;
  files = (file_name, b'h' ∷ b'i' ∷ []) ∷ [];
  opened = [];
}

abbrev pub batch_config : ℕ → SyncConfig
batch_config size = record {
  mode = batch;
  inbound_mode = polling;
  metadata_mode = local_only;
  poll_interval = 30000;
  flush_interval = 5000;
  outbound_batch_size = size;
  file_lock = true;
  lock_timeout = 10000;
  lock_lease = 30000;
}

-- A manager with two operations in its queue, and the lease that is given.
abbrev pub manager : ℕ → List (Name × WriteLease) → Manager World
manager size leases = record {
  world = start_world;
  outbound_queue = upload file_name ∷ delete (ascii "/g") none ∷ [];
  metadata_cache = FileMetadata.new;
  leases = leases;
  instance_id = ascii "a1";
  config = batch_config size;
  last_poll = 0;
  last_flush = 0;
  shutdown = false;
}

abbrev pub held : ℕ → WriteLease
held count = record {
  base_etag = none;
  lock_etag = ascii "e";
  epoch = 1;
  expires_at = 35000;
  refcount = count;
  dirty = true;
  pending_delete = false;
  lost = false;
  releasing = false;
}
