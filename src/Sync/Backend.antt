-- ===== src/Sync/Backend.antt =====
-- crates/sync/vfs-sync-core/src/fs_backend.rs: the file system as the sync manager sees it. `read` gives
-- the bytes that it put into the buffer.
use monaka_fs.Prelude.{ℕ}
use monaka_fs.Key.{Name}
use monaka_fs.Sync.Types.{S3Error}
use monaka_fs.Sync.Exec.{M}
use monaka_fs.Sync.Store.{Body}

abbrev pub Fd : Type 0
Fd = ℕ

pub record FsBackend (W : Type 0) : Type 0 where
  pub open_read : Name → M W S3Error Fd
  pub open_write_truncate : Name → M W S3Error Fd
  pub read : Fd → ℕ → M W S3Error Body
  pub write : Fd → Body → M W S3Error ℕ
  pub close : Fd → M W S3Error (Unit {0})
  pub stat_modified : Name → W → ℕ × W
  pub fstat_size : Fd → M W S3Error ℕ
  pub unlink : Name → M W S3Error (Unit {0})
  pub mkdir_p : Name → W → W
  pub rmdir : Name → M W S3Error (Unit {0})
