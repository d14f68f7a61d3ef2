-- ===== src/Sync/Manager/Flush.antt =====
-- sync_manager.rs: the queue of operations goes to the store.
use monaka_fs.Prelude.{
  ℕ, zero, suc, ◌+◌, Bool, true, false, List, [], ◌∷◌, ◌++◌, Option, none, some,
}
use monaka_fs.Key.{Name, name_key}
use monaka_fs.Sync.Types.{
  Precondition, no_condition, if_match, S3Error, is_precondition_failed, is_not_implemented,
  SyncError, is_conflict,
}
use monaka_fs.Sync.Exec.{Outcome, ok, err, M, ◌>>=◌, ◌>>◌, pure, fail, gets, total, try, modify}
use monaka_fs.Sync.Clock.{Clock}
use monaka_fs.Sync.Store.{ObjectStore, delete_file}
use monaka_fs.Sync.Config.{SyncOperation, upload, delete}
use monaka_fs.Sync.Backend.{FsBackend}
use monaka_fs.Sync.Manager.{Manager, on_world, is_locked, is_realtime, set_queue, cond_for_upload}
use monaka_fs.Sync.Manager.Upload.{
  is_lost_condition, upload_with_cond, handle_upload_conflict, refresh_local_from_remote,
}

abbrev pub delete_cond : Option Name → Precondition
delete_cond none = no_condition
delete_cond (some etag) = if_match etag

abbrev pub tail_of : List SyncOperation → List SyncOperation
tail_of [] = []
tail_of (op ∷ queue) = queue

abbrev pub head_of : List SyncOperation → Option SyncOperation
head_of [] = none
head_of (op ∷ queue) = some op

module _ {W : Type 0} where
  -- `pop_front`
  unfoldable pub pop_front : {E : Type 0} → M (Manager W) E (Option SyncOperation)
  pop_front s = (ok (head_of s.outbound_queue), set_queue tail_of s)

  abbrev pub push_back : SyncOperation → Manager W → Manager W
  push_back op = set_queue (λ queue. queue ++ (op ∷ []))

module _ {W : Type 0} ⦃store : ObjectStore W⦄ ⦃fs : FsBackend W⦄ where
  -- Whether the second delete works is only logged.
  abbrev pub delete_plain : Name → {E : Type 0} → M (Manager W) E (Unit {0})
  delete_plain p = do done ← on_world (try (delete_file p no_condition)); pure tt

  abbrev pub restore : Name → {E : Type 0} → M (Manager W) E (Unit {0})
  restore p = do refreshed ← refresh_local_from_remote p; pure tt

  abbrev pub delete_conflict : Name → Bool → {E : Type 0} → M (Manager W) E (Unit {0})
  delete_conflict p true = restore p
  delete_conflict p false = delete_plain p

  -- After an error: whether the condition was lost, and whether it is not supported.
  abbrev pub delete_failed : Name → Bool → Bool → {E : Type 0} → M (Manager W) E (Unit {0})
  delete_failed p true any = do lock ← gets (λ s. s.config.file_lock); delete_conflict p lock
  delete_failed p false true = delete_plain p
  delete_failed p false false = pure tt

  -- The arms of the `match` on the conditional delete.
  abbrev pub after_delete :
      Name → Outcome S3Error (Unit {0}) → {E : Type 0} → M (Manager W) E (Unit {0})
  after_delete p (ok done) = pure tt
  after_delete p (err e) = delete_failed p (is_precondition_failed e) (is_not_implemented e)

  unfoldable pub flush_delete : Name → Option Name → {E : Type 0} → M (Manager W) E (Unit {0})
  flush_delete p etag = do
    done ← on_world (try (delete_file p (delete_cond etag)))
    after_delete p done

module _ {W : Type 0} ⦃store : ObjectStore W⦄ ⦃fs : FsBackend W⦄ ⦃clock : Clock W⦄ where
  -- The upload goes back to the end of the queue.
  abbrev pub put_back : Name → SyncError → M (Manager W) SyncError ℕ
  put_back p e = do modify (push_back (upload p)); fail e

  -- A conflict that the remote version has won drops the upload.
  abbrev pub after_conflict : Name → Outcome SyncError (Unit {0}) → M (Manager W) SyncError ℕ
  after_conflict p (ok done) = pure 1
  after_conflict p (err e) = elim (is_conflict e) [ true ↦ pure 1 | false ↦ put_back p e ]

  abbrev pub resolve : Name → M (Manager W) SyncError ℕ
  resolve p = do done ← try (handle_upload_conflict p); after_conflict p done

  abbrev pub after_upload : Name → Outcome SyncError Name → M (Manager W) SyncError ℕ
  after_upload p (ok etag) = pure 1
  after_upload p (err e) = elim (is_lost_condition e) [ true ↦ resolve p | false ↦ put_back p e ]

  abbrev pub send : Name → M (Manager W) SyncError ℕ
  send p = do
    cond ← gets (cond_for_upload p)
    done ← try (upload_with_cond p cond)
    after_upload p done

  -- An upload in realtime mode, or of a leased file, is dropped.
  abbrev pub flush_upload : Name → Bool → Bool → M (Manager W) SyncError ℕ
  flush_upload p true locked = pure 0
  flush_upload p false true = pure 0
  flush_upload p false false = send p

  -- One operation: how many count as processed.
  unfoldable pub flush_op : SyncOperation → M (Manager W) SyncError ℕ
  flush_op (upload p) = do
    realtime ← gets is_realtime
    locked ← gets (λ s. is_locked s p)
    flush_upload p realtime locked
  flush_op (delete p etag) = do flush_delete p etag; pure 1

  -- The operation that was popped, and what comes `next`.
  abbrev pub flush_next :
      (ℕ → M (Manager W) SyncError ℕ) → ℕ → Option SyncOperation → M (Manager W) SyncError ℕ
  flush_next next processed none = pure processed
  flush_next next processed (some op) = do done ← flush_op op; next (processed + done)

  -- `for _ in 0..batch_size`
  unfoldable pub flush_batch : ℕ → ℕ → M (Manager W) SyncError ℕ
  flush_batch zero processed = pure processed
  flush_batch (suc n) processed = do op ← pop_front; flush_next (flush_batch n) processed op

  -- `*self.last_flush.lock().unwrap() = Instant::now()`
  abbrev pub note_flush : ℕ → M (Manager W) SyncError ℕ
  note_flush processed = do
    now ← on_world (total clock.now)
    modify (λ s. record s { last_flush = now })
    pure processed

  unfoldable pub flush_outbound : M (Manager W) SyncError ℕ
  flush_outbound s = (flush_batch s.config.outbound_batch_size 0 >>= note_flush) s

  abbrev pub flush_rest :
      (ℕ → M (Manager W) SyncError (Option ℕ))
      → ℕ
      → List SyncOperation
      → M (Manager W) SyncError (Option ℕ)
  flush_rest next sum [] = pure (some sum)
  flush_rest next sum (op ∷ queue) = do count ← flush_outbound; next (sum + count)

  -- `none` is a loop that still runs after so many rounds.
  unfoldable pub force_flush : ℕ → ℕ → M (Manager W) SyncError (Option ℕ)
  force_flush zero sum = pure none
  force_flush (suc rounds) sum = do
    queue ← gets (λ s. s.outbound_queue)
    flush_rest (force_flush rounds) sum queue
