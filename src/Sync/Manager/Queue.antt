-- ===== src/Sync/Manager/Queue.antt =====
-- Operations for one path in the queue.
use monaka_fs.Prelude.{
  ℕ, zero, suc, ◌+◌, ◌≡◌, refl, inl, inr, false, List, [], ◌∷◌, ◌++◌, Option, none, some, arith,
  Bool-cases,
}
use monaka_fs.Key.{Name, name_eq, name_eq_iff}
use monaka_fs.Sync.Types.{SyncError}
use monaka_fs.Sync.Exec.{Outcome, ok, err, M, ◌>>=◌, continue}
use monaka_fs.Sync.Clock.{Clock}
use monaka_fs.Sync.Store.{ObjectStore}
use monaka_fs.Sync.Config.{SyncOperation, upload, delete, path}
use monaka_fs.Sync.Backend.{FsBackend}
use monaka_fs.Sync.Lease.Table.{WriteLease}
use monaka_fs.Sync.Manager.{
  Manager, on_world, retain_others, has_op, requeue, lease_of, upload_as, delete_as, enqueue_upload,
  enqueue_delete,
}
use monaka_fs.Sync.Manager.Flush.{
  flush_op, pop_front, head_of, tail_of, flush_next, flush_batch, note_flush, flush_outbound,
}
use monaka_fs.Sync.Manager.Batch.{flush_op-KeepsIfOk}

abbrev pub IsSingle : List SyncOperation → Type 0
IsSingle [] = Unit
IsSingle (op ∷ queue) = (has_op (path op) queue ≡ false) × IsSingle queue

has_op-retain_others :
    (p q : Name) (queue : List SyncOperation)
    → has_op q queue ≡ false
    → has_op q (retain_others p queue) ≡ false
unfolding has_op retain_others
has_op-retain_others p q [] h = refl
has_op-retain_others p q (op ∷ queue) h = ground (arith, has_op-retain_others p q queue)

has_op-retain_others_self :
    (p : Name) (queue : List SyncOperation) → has_op p (retain_others p queue) ≡ false
unfolding has_op retain_others
has_op-retain_others_self p [] = refl
has_op-retain_others_self p (op ∷ queue) = ground (arith, has_op-retain_others_self p queue)

retain_others-IsSingle :
    (p : Name) (queue : List SyncOperation) → IsSingle queue → IsSingle (retain_others p queue)
unfolding retain_others
retain_others-IsSingle p [] h = tt
retain_others-IsSingle p (op ∷ queue) (h, hs) = elim (Bool-cases (name_eq (path op) p)) [
  | inl e ↦ rw e (retain_others-IsSingle p queue hs)
  | inr e ↦ rw e (has_op-retain_others p (path op) queue h, retain_others-IsSingle p queue hs)
]

has_op-append :
    (q : Name) (queue : List SyncOperation) (op : SyncOperation)
    → has_op q queue ≡ false
    → name_eq (path op) q ≡ false
    → has_op q (queue ++ (op ∷ [])) ≡ false
unfolding has_op
has_op-append q [] op h k = rw k refl
has_op-append q (op' ∷ queue) op h k = ground (arith, has_op-append q queue op)

pub name_eq-sym : (p q : Name) → name_eq p q ≡ false → name_eq q p ≡ false
name_eq-sym p q h = ground (arith, name_eq_iff p q, name_eq_iff q p)

append-IsSingle :
    (queue : List SyncOperation) (op : SyncOperation)
    → IsSingle queue
    → has_op (path op) queue ≡ false
    → IsSingle (queue ++ (op ∷ []))
unfolding has_op
append-IsSingle [] op h k = (refl, tt)
append-IsSingle (op' ∷ queue) op (h, hs) k = elim (Bool-cases (name_eq (path op') (path op))) [
  | inl e ↦ cc
  | inr e ↦ (
    has_op-append (path op') queue op h (name_eq-sym (path op') (path op) e),
    append-IsSingle queue op hs (ground (arith, k, e)),
  )
]

requeue-IsSingle :
    (op : SyncOperation) (queue : List SyncOperation) → IsSingle queue → IsSingle (requeue op queue)
requeue-IsSingle op queue h =
    append-IsSingle (retain_others (path op) queue) op (retain_others-IsSingle (path op) queue h)
      (has_op-retain_others_self (path op) queue)

module _ {W : Type 0} where
  upload_as-IsSingle :
      (p : Name) (l : Option WriteLease) (s : Manager W)
      → IsSingle s.outbound_queue
      → IsSingle (upload_as p l s).outbound_queue
  upload_as-IsSingle p none s h = requeue-IsSingle (upload p) s.outbound_queue h
  upload_as-IsSingle p (some l) s h = h

  delete_as-IsSingle :
      (p : Name) (l : Option WriteLease) (s : Manager W)
      → IsSingle s.outbound_queue
      → IsSingle (delete_as p l s).outbound_queue
  delete_as-IsSingle p none s h = requeue-IsSingle (delete p _) s.outbound_queue h
  delete_as-IsSingle p (some l) s h = h

module _ {W : Type 0} ⦃store : ObjectStore W⦄ ⦃fs : FsBackend W⦄ ⦃clock : Clock W⦄ where
  flush_op-IsSingle :
      (op : SyncOperation) (s : Manager W)
      → has_op (path op) s.outbound_queue ≡ false
      → IsSingle s.outbound_queue
      → IsSingle (flush_op op s).1.outbound_queue
  flush_op-IsSingle op s absent single = elim ((flush_op-KeepsIfOk op).requeues s) [
    | inl e ↦ rw e single
    | inr e ↦ rw e (append-IsSingle s.outbound_queue (upload (path op)) single absent)
  ]

  batch-IsSingle :
      (n processed : ℕ) (s : Manager W)
      → IsSingle s.outbound_queue
      → IsSingle (flush_batch n processed s).1.outbound_queue
  unfolding flush_batch pop_front ◌>>=◌
  batch-IsSingle zero processed s single = single
  batch-IsSingle (suc n) processed s single = next s.outbound_queue single (batch-IsSingle n)
    where
      Batch : (ℕ → M (Manager W) SyncError ℕ) → Type 0
      Batch m =
          (processed : ℕ) (t : Manager W)
          → IsSingle t.outbound_queue
          → IsSingle (m processed t).1.outbound_queue

      more :
          (m : ℕ → M (Manager W) SyncError ℕ) (x : Outcome SyncError ℕ × Manager W)
          → IsSingle x.1.outbound_queue
          → Batch m
          → IsSingle (continue x.0 (λ done. m (processed + done)) x.1).1.outbound_queue
      more m (ok done, t) single rest = rest (processed + done) t single
      more m (err e, t) single rest = single

      next :
          (queue : List SyncOperation)
          → IsSingle queue
          → Batch (flush_batch n)
          → IsSingle
              (flush_next
                (flush_batch n)
                processed
                (head_of queue)
                (record s { outbound_queue = tail_of queue })).1.outbound_queue
      next [] single rest = tt
      next (op ∷ queue) (absent, single) rest =
          more (flush_batch n) (flush_op op (record s { outbound_queue = queue }))
            (flush_op-IsSingle op (record s { outbound_queue = queue }) absent single) rest

  flush_outbound-IsSingle :
      (s : Manager W) → IsSingle s.outbound_queue → IsSingle (flush_outbound s).1.outbound_queue
  unfolding flush_outbound ◌>>=◌ on_world
  flush_outbound-IsSingle s single =
      end (flush_batch s.config.outbound_batch_size 0 s)
        (batch-IsSingle s.config.outbound_batch_size 0 s single)
    where
      end :
          (x : Outcome SyncError ℕ × Manager W)
          → IsSingle x.1.outbound_queue
          → IsSingle (continue x.0 note_flush x.1).1.outbound_queue
      end (ok n, t) single = single
      end (err e, t) single = single

  -- If the queue has one operation at most for every path, then so it is after an upload or a delete
  -- was enqueued for any path, leased or not, and after `flush_outbound`, whether that succeeds or
  -- fails in the middle of a batch.
  pub queue-IsSingle :
      (p : Name) (s : Manager W)
      → IsSingle s.outbound_queue
      → IsSingle (enqueue_upload p s).outbound_queue
        × IsSingle (enqueue_delete p s).outbound_queue
        × IsSingle (flush_outbound s).1.outbound_queue
  unfolding enqueue_upload enqueue_delete
  queue-IsSingle p s h = (
    upload_as-IsSingle p (lease_of s p) s h,
    delete_as-IsSingle p (lease_of s p) s h,
    flush_outbound-IsSingle s h,
  )
