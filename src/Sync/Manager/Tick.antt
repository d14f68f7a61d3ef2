-- ===== src/Sync/Manager/Tick.antt =====
-- sync_manager.rs: `maybe_sync`, the background tick.
use monaka_fs.Prelude.{ℕ, ◌-◌, Bool, true, false, not, ◌&&◌, ◌||◌, List, [], ◌∷◌, ltb, leb, length}
use monaka_fs.Sync.Types.{S3Error, SyncError}
use monaka_fs.Sync.Exec.{Outcome, ok, err, M, ◌>>=◌, ◌>>◌, pure, gets, total, try, modify}
use monaka_fs.Sync.Clock.{Clock}
use monaka_fs.Sync.Store.{ObjectStore}
use monaka_fs.Sync.Config.{SyncConfig, SyncOperation, upload, delete, batch, real_time}
use monaka_fs.Sync.Backend.{FsBackend}
use monaka_fs.Sync.Manager.{Manager, on_world}
use monaka_fs.Sync.Manager.Closing.{renew_leases}
use monaka_fs.Sync.Manager.Flush.{flush_outbound}
use monaka_fs.Sync.Manager.Poll.{SyncStats, poll_inbound}

unfoldable pub any_delete : List SyncOperation → Bool
any_delete [] = false
any_delete (upload p ∷ queue) = any_delete queue
any_delete (delete p etag ∷ queue) = true

abbrev is_empty : List SyncOperation → Bool
is_empty [] = true
is_empty (op ∷ queue) = false

abbrev pub flush_due : SyncConfig → List SyncOperation → ℕ → Bool
flush_due config queue elapsed = elim config.mode [
  | real_time ↦ any_delete queue
  | batch ↦
      leb config.outbound_batch_size (length queue)
      || (not (is_empty queue) && leb config.flush_interval elapsed)
]

-- Errors are only logged.
abbrev flushed : Outcome SyncError ℕ → Bool
flushed (ok count) = ltb 0 count
flushed (err e) = false

abbrev polled : Outcome S3Error SyncStats → Bool
polled (ok stats) = ltb 0 stats.downloaded || ltb 0 stats.deleted
polled (err e) = false

module _ {W : Type 0} ⦃store : ObjectStore W⦄ ⦃fs : FsBackend W⦄ ⦃clock : Clock W⦄ where
  abbrev renew_if : Bool → {E : Type 0} → M (Manager W) E (Unit {0})
  renew_if true = renew_leases
  renew_if false = pure tt

  abbrev flush_if : Bool → {E : Type 0} → M (Manager W) E Bool
  flush_if true = do done ← try flush_outbound; pure (flushed done)
  flush_if false = pure false

  abbrev poll_if : Bool → {E : Type 0} → M (Manager W) E Bool
  poll_if false = pure false
  poll_if true = do
    done ← try poll_inbound
    now ← on_world (total clock.now)
    modify (λ s. record s { last_poll = now })
    pure (polled done)

  unfoldable pub tick : {E : Type 0} → M (Manager W) E Bool
  tick = do
    lock ← gets (λ s. s.config.file_lock)
    renew_if lock
    now ← on_world (total clock.now)
    should_flush ← gets (λ s. flush_due s.config s.outbound_queue (now - s.last_flush))
    flush_work ← flush_if should_flush
    now' ← on_world (total clock.now)
    should_poll ← gets (λ s. leb s.config.poll_interval (now' - s.last_poll))
    poll_work ← poll_if should_poll
    pure (flush_work || poll_work)

  -- Whether it did something.
  unfoldable pub maybe_sync : {E : Type 0} → M (Manager W) E Bool
  maybe_sync s = elim s.shutdown [ true ↦ (ok false, s) | false ↦ tick s ]
