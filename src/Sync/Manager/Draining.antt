-- ===== src/Sync/Manager/Draining.antt =====
-- The loop of `force_flush`, with room for an operation in a batch and without.
use monaka_fs.Prelude.{
  ℕ, zero, suc, ◌+◌, ◌≤◌, ◌<◌, ◌≡◌, refl, ◌∙◌, ap, List, [], ◌∷◌, Option, none, some, arith, length,
  drop, length-drop,
}
use monaka_fs.Sync.Types.{SyncError}
use monaka_fs.Sync.Exec.{Outcome, ok, err, M, ◌>>=◌, continue}
use monaka_fs.Sync.Clock.{Clock}
use monaka_fs.Sync.Store.{ObjectStore}
use monaka_fs.Sync.Config.{SyncOperation}
use monaka_fs.Sync.Backend.{FsBackend}
use monaka_fs.Sync.Manager.{Manager}
use monaka_fs.Sync.Manager.Flush.{flush_outbound, flush_rest, force_flush}
use monaka_fs.Sync.Manager.Batch.{
  flush_outbound-queue, flush_outbound-config, flush_outbound-none_fit,
}

module _ {W : Type 0} ⦃store : ObjectStore W⦄ ⦃fs : FsBackend W⦄ ⦃clock : Clock W⦄ where
  -- The loop is over, and if it has succeeded the queue is empty.
  abbrev pub Drained : Outcome SyncError (Option ℕ) × Manager W → Type 0
  Drained x = (¬ (x.0 ≡ ok none)) × ((sum : ℕ) → x.0 ≡ ok (some sum) → x.1.outbound_queue ≡ [])

  -- If a batch has room for an operation, `force_flush` is over after at most one round more than there
  -- are operations in the queue, whatever the store and the file system answer; and if it succeeds, the
  -- queue is empty.
  pub force_flush-Drained :
      (rounds sum : ℕ) (s : Manager W)
      → 1 ≤ s.config.outbound_batch_size
      → length s.outbound_queue < rounds
      → Drained (force_flush rounds sum s)
  unfolding force_flush ◌>>=◌
  force_flush-Drained zero sum s room enough = absurd (omega arith)
  force_flush-Drained (suc rounds) sum s room enough =
      rest s.outbound_queue refl (λ sum t. force_flush-Drained rounds sum t)
    where
      size : ℕ
      size = s.config.outbound_batch_size

      Later : (ℕ → M (Manager W) SyncError (Option ℕ)) → Type 0
      Later m =
          (sum : ℕ) (t : Manager W)
          → 1 ≤ t.config.outbound_batch_size
          → length t.outbound_queue < rounds
          → Drained (m sum t)

      flushed :
          (m : ℕ → M (Manager W) SyncError (Option ℕ)) (x : Outcome SyncError ℕ × Manager W)
          → x.1.config ≡ s.config
          → ((count : ℕ) → x.0 ≡ ok count → x.1.outbound_queue ≡ drop size s.outbound_queue)
          → 0 < length s.outbound_queue
          → Later m
          → Drained (continue x.0 (λ count. m (sum + count)) x.1)
      flushed m (ok count, t) same less some_left later =
          later (sum + count) t (rw (ap (λ c. c.outbound_batch_size) same) room)
            (rw (less count refl) (omega (arith, length-drop size s.outbound_queue)))
      flushed m (err e, t) same less some_left later = (λ h. cc, λ sum h. cc)

      rest :
          (queue : List SyncOperation)
          → s.outbound_queue ≡ queue
          → Later (force_flush rounds)
          → Drained (flush_rest (force_flush rounds) sum queue s)
      rest [] e later = (λ h. cc, λ sum h. e)
      rest (op ∷ queue) e later =
          flushed (force_flush rounds) (flush_outbound s) (flush_outbound-config s)
            (flush_outbound-queue s) (rw e (omega arith)) later

  -- If the batch size is 0, `force_flush` of a queue that is not empty never comes to an end.
  pub force_flush-stuck :
      (rounds sum : ℕ) (s : Manager W)
      → s.config.outbound_batch_size ≡ 0
      → 0 < length s.outbound_queue
      → (force_flush rounds sum s).0 ≡ ok none
  unfolding force_flush ◌>>=◌
  force_flush-stuck zero sum s none_fit left = refl
  force_flush-stuck (suc rounds) sum s none_fit left =
      rest s.outbound_queue (omega arith) (λ sum t. force_flush-stuck rounds sum t)
    where
      Later : (ℕ → M (Manager W) SyncError (Option ℕ)) → Type 0
      Later m =
          (sum : ℕ) (t : Manager W)
          → t.config.outbound_batch_size ≡ 0
          → 0 < length t.outbound_queue
          → (m sum t).0 ≡ ok none

      flushed :
          (m : ℕ → M (Manager W) SyncError (Option ℕ)) (x : Outcome SyncError ℕ × Manager W)
          → x.0 ≡ ok 0
          → x.1.config ≡ s.config
          → (x.0 ≡ ok 0 → x.1.outbound_queue ≡ drop s.config.outbound_batch_size s.outbound_queue)
          → Later m
          → (continue x.0 (λ count. m (sum + count)) x.1).0 ≡ ok none
      flushed m (ok count, t) went same kept later =
          later (sum + count) t (ap (λ c. c.outbound_batch_size) same ∙ none_fit)
            (rw (kept went, none_fit) left)
      flushed m (err e, t) went same kept later = cc

      rest :
          (queue : List SyncOperation)
          → 0 < length queue
          → Later (force_flush rounds)
          → (flush_rest (force_flush rounds) sum queue s).0 ≡ ok none
      rest [] some_left later = absurd (omega arith)
      rest (op ∷ queue) some_left later =
          flushed (force_flush rounds) (flush_outbound s) (flush_outbound-none_fit s none_fit)
            (flush_outbound-config s) (flush_outbound-queue s 0) later
