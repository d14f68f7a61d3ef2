-- ===== src/Sync/Manager/Batch.antt =====
-- What a batch of `flush_outbound` does to the queue and the configuration.
use monaka_fs.Prelude.{
  ℕ, zero, suc, ◌+◌, ◌≡◌, refl, ◌∙◌, ap, ◌⊎◌, inl, inr, Bool, true, false, List, [], ◌∷◌, ◌++◌,
  Option, none, some, drop,
}
use monaka_fs.Key.{Name}
use monaka_fs.Sync.Types.{SyncError, is_conflict}
use monaka_fs.Sync.Exec.{Outcome, ok, err, M, ◌>>=◌, continue}
use monaka_fs.Sync.Clock.{Clock}
use monaka_fs.Sync.Store.{ObjectStore}
use monaka_fs.Sync.Config.{SyncOperation, upload, delete, path}
use monaka_fs.Sync.Backend.{FsBackend}
use monaka_fs.Sync.Manager.{Manager, on_world, set_queue}
use monaka_fs.Sync.Manager.Upload.{is_lost_condition}
use monaka_fs.Sync.Manager.Frame.{
  KeepsQueue, frame, KeepsQueue-pure, KeepsQueue-gets, KeepsQueue-try, upload_with_cond-KeepsQueue,
  handle_upload_conflict-KeepsQueue, flush_delete-KeepsQueue,
}
use monaka_fs.Sync.Manager.Flush.{
  put_back, after_conflict, after_upload, flush_upload, send, flush_op, pop_front, flush_next,
  flush_batch, note_flush, flush_outbound, head_of, tail_of,
}

module _ {W A : Type 0} where
  -- The call keeps the configuration, and if it succeeds the queue; if it fails it may put the upload
  -- of `p` behind the queue.
  pub record KeepsIfOk (p : Name) (m : M (Manager W) SyncError A) : Type 0 where
    pub requeues :
        (s : Manager W)
        → ((m s).1.outbound_queue ≡ s.outbound_queue)
          ⊎ ((m s).1.outbound_queue ≡ s.outbound_queue ++ (upload p ∷ []))
    pub queue : (s : Manager W) (a : A) → (m s).0 ≡ ok a → (m s).1.outbound_queue ≡ s.outbound_queue
    pub config : (s : Manager W) → (m s).1.config ≡ s.config

module _ {W A : Type 0} {m : M (Manager W) SyncError A} {p : Name} where
  KeepsQueue-IfOk : KeepsQueue m → KeepsIfOk p m
  KeepsQueue-IfOk k = record {
    queue = λ s a h. k.queue s;
    config = k.config;
    requeues = λ s. inl (k.queue s);
  }

module _ {W A B : Type 0} {p : Name} {f : A → M (Manager W) SyncError B}
    (k : (a : A) → KeepsIfOk p (f a)) where
  queue-continue :
      (r : Outcome SyncError A) (s : Manager W) (b : B)
      → (continue r f s).0 ≡ ok b
      → (continue r f s).1.outbound_queue ≡ s.outbound_queue
  queue-continue (ok a) s b h = (k a).queue s b h
  queue-continue (err e) s b h = cc

  config-continue : (r : Outcome SyncError A) (s : Manager W) → (continue r f s).1.config ≡ s.config
  config-continue (ok a) s = (k a).config s
  config-continue (err e) s = refl

  requeues-continue :
      (r : Outcome SyncError A) (s : Manager W) (queue : List SyncOperation)
      → s.outbound_queue ≡ queue
      → ((continue r f s).1.outbound_queue ≡ queue)
        ⊎ ((continue r f s).1.outbound_queue ≡ queue ++ (upload p ∷ []))
  requeues-continue (ok a) s queue same = elim ((k a).requeues s) [
    | inl e ↦ inl (e ∙ same)
    | inr e ↦ inr (e ∙ ap (λ q. q ++ (upload p ∷ [])) same)
  ]
  requeues-continue (err e) s queue same = inl same

  KeepsIfOk-bind : {m : M (Manager W) SyncError A} → KeepsQueue m → KeepsIfOk p (m >>= f)
  unfolding ◌>>=◌
  KeepsIfOk-bind {m} kept = record {
    queue = λ s b h. queue-continue (m s).0 (m s).1 b h ∙ kept.queue s;
    config = λ s. config-continue (m s).0 (m s).1 ∙ kept.config s;
    requeues = λ s. requeues-continue (m s).0 (m s).1 s.outbound_queue (kept.queue s);
  }

-- What is left of a queue without its first operation, `n` operations later.
abbrev left_after : ℕ → Option SyncOperation → List SyncOperation → List SyncOperation
left_after n none queue = queue
left_after n (some op) queue = drop n queue

left_after-drop :
    (n : ℕ) (queue : List SyncOperation)
    → left_after n (head_of queue) (tail_of queue) ≡ drop (suc n) queue
left_after-drop n [] = refl
left_after-drop n (op ∷ queue) = refl

module _ {W : Type 0} ⦃store : ObjectStore W⦄ ⦃fs : FsBackend W⦄ ⦃clock : Clock W⦄ where
  put_back-KeepsIfOk : (p : Name) (e : SyncError) → KeepsIfOk {W = W} p (put_back p e)
  unfolding ◌>>=◌
  put_back-KeepsIfOk p e = record {
    queue = λ s a h. cc;
    config = λ s. refl;
    requeues = λ s. inr refl;
  }

  KeepsIfOk-branch :
      {A : Type 0} {p : Name} (t : Bool) {m n : M (Manager W) SyncError A}
      → KeepsIfOk p m
      → KeepsIfOk p n
      → KeepsIfOk p (elim t [ true ↦ m | false ↦ n ])
  KeepsIfOk-branch true k l = k
  KeepsIfOk-branch false k l = l

  after_conflict-KeepsIfOk :
      (p : Name) (done : Outcome SyncError (Unit {0})) → KeepsIfOk {W = W} p (after_conflict p done)
  after_conflict-KeepsIfOk p (ok done) = KeepsQueue-IfOk (KeepsQueue-pure _)
  after_conflict-KeepsIfOk p (err e) =
      KeepsIfOk-branch (is_conflict e) (KeepsQueue-IfOk (KeepsQueue-pure _))
        (put_back-KeepsIfOk p e)

  after_upload-KeepsIfOk :
      (p : Name) (done : Outcome SyncError Name) → KeepsIfOk {W = W} p (after_upload p done)
  after_upload-KeepsIfOk p (ok etag) = KeepsQueue-IfOk (KeepsQueue-pure _)
  after_upload-KeepsIfOk p (err e) =
      KeepsIfOk-branch (is_lost_condition e)
        (KeepsIfOk-bind (after_conflict-KeepsIfOk p)
          (KeepsQueue-try (handle_upload_conflict-KeepsQueue p)))
        (put_back-KeepsIfOk p e)

  send-KeepsIfOk : (p : Name) → KeepsIfOk {W = W} p (send p)
  send-KeepsIfOk p =
      KeepsIfOk-bind
        (λ cond.
          KeepsIfOk-bind (after_upload-KeepsIfOk p)
            (KeepsQueue-try (upload_with_cond-KeepsQueue p cond)))
        (KeepsQueue-gets _)

  flush_upload-KeepsIfOk :
      (p : Name) (realtime locked : Bool) → KeepsIfOk {W = W} p (flush_upload p realtime locked)
  flush_upload-KeepsIfOk p true locked = KeepsQueue-IfOk (KeepsQueue-pure _)
  flush_upload-KeepsIfOk p false true = KeepsQueue-IfOk (KeepsQueue-pure _)
  flush_upload-KeepsIfOk p false false = send-KeepsIfOk p

  pub flush_op-KeepsIfOk : (op : SyncOperation) → KeepsIfOk {W = W} (path op) (flush_op op)
  unfolding flush_op
  flush_op-KeepsIfOk (upload p) =
      KeepsIfOk-bind
        (λ realtime. KeepsIfOk-bind (flush_upload-KeepsIfOk p realtime) (KeepsQueue-gets _))
        (KeepsQueue-gets _)
  flush_op-KeepsIfOk (delete p etag) =
      KeepsQueue-IfOk (search (frame, flush_delete-KeepsQueue) depth 8)

  -- A batch of `n` operations that succeeds has taken `n` from the front of the queue.
  batch_queue :
      (n processed : ℕ) (s : Manager W) (count : ℕ)
      → (flush_batch n processed s).0 ≡ ok count
      → (flush_batch n processed s).1.outbound_queue ≡ drop n s.outbound_queue
  unfolding flush_batch pop_front ◌>>=◌
  batch_queue zero processed s count h = refl
  batch_queue (suc n) processed s count h =
      next (head_of s.outbound_queue) (set_queue tail_of s) (batch_queue n) h
      ∙ left_after-drop n s.outbound_queue
    where
      Batch : (ℕ → M (Manager W) SyncError ℕ) → Type 0
      Batch m =
          (processed : ℕ) (s : Manager W) (count : ℕ)
          → (m processed s).0 ≡ ok count
          → (m processed s).1.outbound_queue ≡ drop n s.outbound_queue

      more :
          (m : ℕ → M (Manager W) SyncError ℕ) (t : Manager W) (x : Outcome SyncError ℕ × Manager W)
          → ((done : ℕ) → x.0 ≡ ok done → x.1.outbound_queue ≡ t.outbound_queue)
          → Batch m
          → (continue x.0 (λ done. m (processed + done)) x.1).0 ≡ ok count
          → (continue x.0 (λ done. m (processed + done)) x.1).1.outbound_queue
            ≡ drop n t.outbound_queue
      more m t (ok done, u) same rest h =
          rest (processed + done) u count h ∙ ap (drop n) (same done refl)
      more m t (err e, u) same rest h = cc

      next :
          (op : Option SyncOperation) (t : Manager W)
          → Batch (flush_batch n)
          → (flush_next (flush_batch n) processed op t).0 ≡ ok count
          → (flush_next (flush_batch n) processed op t).1.outbound_queue
            ≡ left_after n op t.outbound_queue
      next none t rest h = refl
      next (some op) t rest h =
          more (flush_batch n) t (flush_op op t) ((flush_op-KeepsIfOk op).queue t) rest h

  pub flush_outbound-queue :
      (s : Manager W) (count : ℕ)
      → (flush_outbound s).0 ≡ ok count
      → (flush_outbound s).1.outbound_queue ≡ drop s.config.outbound_batch_size s.outbound_queue
  unfolding flush_outbound ◌>>=◌ on_world
  flush_outbound-queue s count h =
      end (flush_batch s.config.outbound_batch_size 0 s)
        (batch_queue s.config.outbound_batch_size 0 s) h
    where
      end :
          (x : Outcome SyncError ℕ × Manager W)
          → ((count : ℕ)
              → x.0 ≡ ok count
              → x.1.outbound_queue ≡ drop s.config.outbound_batch_size s.outbound_queue)
          → (continue x.0 note_flush x.1).0 ≡ ok count
          → (continue x.0 note_flush x.1).1.outbound_queue
            ≡ drop s.config.outbound_batch_size s.outbound_queue
      end (ok n, t) same h = same n refl
      end (err e, t) same h = cc

  batch_config : (n processed : ℕ) (s : Manager W) → (flush_batch n processed s).1.config ≡ s.config
  unfolding flush_batch pop_front ◌>>=◌
  batch_config zero processed s = refl
  batch_config (suc n) processed s = next (head_of s.outbound_queue) (batch_config n)
    where
      Batch : (ℕ → M (Manager W) SyncError ℕ) → Type 0
      Batch m = (processed : ℕ) (t : Manager W) → (m processed t).1.config ≡ t.config

      more :
          (m : ℕ → M (Manager W) SyncError ℕ) (x : Outcome SyncError ℕ × Manager W)
          → x.1.config ≡ s.config
          → Batch m
          → (continue x.0 (λ done. m (processed + done)) x.1).1.config ≡ s.config
      more m (ok done, u) same rest = rest (processed + done) u ∙ same
      more m (err e, u) same rest = same

      next :
          (op : Option SyncOperation)
          → Batch (flush_batch n)
          → (flush_next (flush_batch n) processed op (set_queue tail_of s)).1.config ≡ s.config
      next none rest = refl
      next (some op) rest =
          more (flush_batch n) (flush_op op (set_queue tail_of s))
            ((flush_op-KeepsIfOk op).config (set_queue tail_of s)) rest

  pub flush_outbound-config : (s : Manager W) → (flush_outbound s).1.config ≡ s.config
  unfolding flush_outbound ◌>>=◌ on_world
  flush_outbound-config s =
      end (flush_batch s.config.outbound_batch_size 0 s)
        (batch_config s.config.outbound_batch_size 0 s)
    where
      end :
          (x : Outcome SyncError ℕ × Manager W)
          → x.1.config ≡ s.config
          → (continue x.0 note_flush x.1).1.config ≡ s.config
      end (ok n, t) same = same
      end (err e, t) same = same

  pub flush_outbound-none_fit :
      (s : Manager W) → s.config.outbound_batch_size ≡ 0 → (flush_outbound s).0 ≡ ok 0
  unfolding flush_outbound flush_batch ◌>>=◌ on_world
  flush_outbound-none_fit s none_fit = rw none_fit refl
