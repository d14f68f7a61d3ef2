-- ===== src/Sync/Manager/Frame.antt =====
-- Calls of the manager that leave its queue and its configuration alone.
use monaka_fs.Prelude.{ℕ, ◌≡◌, refl, ◌∙◌, Bool, true, false, Option, none, some}
use monaka_fs.Key.{Name}
use monaka_fs.Sync.Types.{Precondition, S3Error, is_precondition_failed, is_not_implemented}
use monaka_fs.Sync.Exec.{Outcome, ok, err, M, ◌>>=◌, pure, fail, gets, try, modify, continue}
use monaka_fs.Sync.Clock.{Clock}
use monaka_fs.Sync.Store.{ObjectStore, Body}
use monaka_fs.Sync.Backend.{FsBackend}
use monaka_fs.Sync.Manager.{Manager, on_world}
use monaka_fs.Sync.Manager.Upload.{
  upload_with_cond, note_upload, note_download, refreshed_by, refresh_from,
  refresh_local_from_remote, lose, decide, handle_upload_conflict,
}
use monaka_fs.Sync.Manager.Flush.{
  delete_plain, delete_conflict, delete_failed, after_delete, flush_delete,
}

module _ {W E A : Type 0} where
  pub record KeepsQueue (m : M (Manager W) E A) : Type 0 where
    pub queue : (s : Manager W) → (m s).1.outbound_queue ≡ s.outbound_queue
    pub config : (s : Manager W) → (m s).1.config ≡ s.config

module _ {W E : Type 0} where
  pub KeepsQueue-pure : {A : Type 0} (a : A) → KeepsQueue {W = W} {E = E} (pure a)
  unfolding pure
  KeepsQueue-pure a = record { queue = λ s. refl; config = λ s. refl }

  pub KeepsQueue-fail : {A : Type 0} (e : E) → KeepsQueue {W = W} {A = A} (fail e)
  unfolding fail
  KeepsQueue-fail e = record { queue = λ s. refl; config = λ s. refl }

  pub KeepsQueue-gets : {A : Type 0} (f : Manager W → A) → KeepsQueue {E = E} (gets f)
  unfolding gets
  KeepsQueue-gets f = record { queue = λ s. refl; config = λ s. refl }

  pub KeepsQueue-try :
      {F A : Type 0} {m : M (Manager W) F A} → KeepsQueue m → KeepsQueue {E = E} (try m)
  unfolding try
  KeepsQueue-try k = record { queue = k.queue; config = k.config }

  pub KeepsQueue-on_world : {A : Type 0} (m : M W E A) → KeepsQueue (on_world m)
  unfolding on_world
  KeepsQueue-on_world m = record { queue = λ s. refl; config = λ s. refl }

  pub KeepsQueue-modify :
      (f : Manager W → Manager W)
      → ((s : Manager W) → (f s).outbound_queue ≡ s.outbound_queue)
      → ((s : Manager W) → (f s).config ≡ s.config)
      → KeepsQueue {E = E} (modify f)
  unfolding modify
  KeepsQueue-modify f q c = record { queue = q; config = c }

  module _ {A B : Type 0} {f : A → M (Manager W) E B} (k : (a : A) → KeepsQueue (f a)) where
    queue-continue :
        (r : Outcome E A) (s : Manager W) → (continue r f s).1.outbound_queue ≡ s.outbound_queue
    queue-continue (ok a) s = (k a).queue s
    queue-continue (err e) s = refl

    config-continue : (r : Outcome E A) (s : Manager W) → (continue r f s).1.config ≡ s.config
    config-continue (ok a) s = (k a).config s
    config-continue (err e) s = refl

    pub KeepsQueue-bind : {m : M (Manager W) E A} → KeepsQueue m → KeepsQueue (m >>= f)
    unfolding ◌>>=◌
    KeepsQueue-bind {m} p = record {
      queue = λ s. queue-continue (m s).0 (m s).1 ∙ p.queue s;
      config = λ s. config-continue (m s).0 (m s).1 ∙ p.config s;
    }

module _ {W : Type 0} where
  pub note_upload-KeepsQueue :
      {E : Type 0} (p etag : Name) (size local now : ℕ)
      → KeepsQueue {W = W} {E = E} (modify (note_upload p etag size local now))
  unfolding note_upload
  note_upload-KeepsQueue p etag size local now = KeepsQueue-modify _ (λ s. refl) (λ s. refl)

  pub note_download-KeepsQueue :
      {E : Type 0} (p etag : Name) (stamp size : ℕ)
      → KeepsQueue {W = W} {E = E} (modify (note_download p etag stamp size))
  unfolding note_download
  note_download-KeepsQueue p etag stamp size = KeepsQueue-modify _ (λ s. refl) (λ s. refl)

pub ruleset frame = (
  KeepsQueue-bind, KeepsQueue-pure, KeepsQueue-fail, KeepsQueue-gets, KeepsQueue-try,
  KeepsQueue-on_world, note_upload-KeepsQueue, note_download-KeepsQueue,
)

module _ {W : Type 0} ⦃store : ObjectStore W⦄ ⦃fs : FsBackend W⦄ ⦃clock : Clock W⦄ where
  pub upload_with_cond-KeepsQueue :
      (p : Name) (cond : Precondition) → KeepsQueue {W = W} (upload_with_cond p cond)
  unfolding upload_with_cond
  upload_with_cond-KeepsQueue p cond = search frame depth 16

module _ {W : Type 0} ⦃store : ObjectStore W⦄ ⦃fs : FsBackend W⦄ where
  refreshed_by-KeepsQueue :
      (p : Name) (content : Body) (etag : Name) (stamp : ℕ) (done : Outcome S3Error (Unit {0}))
      {E : Type 0}
      → KeepsQueue {W = W} {E = E} (refreshed_by p content etag stamp done)
  refreshed_by-KeepsQueue p content etag stamp (ok done) = search (frame, KeepsQueue-modify) depth 8
  refreshed_by-KeepsQueue p content etag stamp (err e) = KeepsQueue-pure _

  refresh_from-KeepsQueue :
      (p : Name) (found : Outcome S3Error (Option (Body × (Name × ℕ)))) {E : Type 0}
      → KeepsQueue {W = W} {E = E} (refresh_from p found)
  refresh_from-KeepsQueue p (ok (some (content, (etag, stamp)))) =
      search (frame, refreshed_by-KeepsQueue) depth 8
  refresh_from-KeepsQueue p (ok none) = search (frame, KeepsQueue-modify) depth 8
  refresh_from-KeepsQueue p (err e) = KeepsQueue-pure _

  pub refresh_local-KeepsQueue :
      (p : Name) {E : Type 0} → KeepsQueue {W = W} {E = E} (refresh_local_from_remote p)
  unfolding refresh_local_from_remote
  refresh_local-KeepsQueue p = search (frame, refresh_from-KeepsQueue) depth 8

  pub lose-KeepsQueue : (p : Name) {A : Type 0} → KeepsQueue {W = W} {A = A} (lose p)
  lose-KeepsQueue p = search (frame, refresh_local-KeepsQueue) depth 8

  delete_plain-KeepsQueue : (p : Name) {E : Type 0} → KeepsQueue {W = W} {E = E} (delete_plain p)
  delete_plain-KeepsQueue p = search frame depth 8

  delete_conflict-KeepsQueue :
      (p : Name) (lock : Bool) {E : Type 0} → KeepsQueue {W = W} {E = E} (delete_conflict p lock)
  delete_conflict-KeepsQueue p true = search (frame, refresh_local-KeepsQueue) depth 8
  delete_conflict-KeepsQueue p false = delete_plain-KeepsQueue p

  delete_failed-KeepsQueue :
      (p : Name) (t u : Bool) {E : Type 0} → KeepsQueue {W = W} {E = E} (delete_failed p t u)
  delete_failed-KeepsQueue p true u = search (frame, delete_conflict-KeepsQueue) depth 8
  delete_failed-KeepsQueue p false true = delete_plain-KeepsQueue p
  delete_failed-KeepsQueue p false false = KeepsQueue-pure _

  after_delete-KeepsQueue :
      (p : Name) (done : Outcome S3Error (Unit {0})) {E : Type 0}
      → KeepsQueue {W = W} {E = E} (after_delete p done)
  after_delete-KeepsQueue p (ok done) = KeepsQueue-pure _
  after_delete-KeepsQueue p (err e) =
      delete_failed-KeepsQueue p (is_precondition_failed e) (is_not_implemented e)

  pub flush_delete-KeepsQueue :
      (p : Name) (etag : Option Name) {E : Type 0}
      → KeepsQueue {W = W} {E = E} (flush_delete p etag)
  unfolding flush_delete
  flush_delete-KeepsQueue p etag = search (frame, after_delete-KeepsQueue) depth 8

module _ {W : Type 0} ⦃store : ObjectStore W⦄ ⦃fs : FsBackend W⦄ ⦃clock : Clock W⦄ where
  decide-KeepsQueue : (p : Name) (lock : Bool) → KeepsQueue {W = W} (decide p lock)
  decide-KeepsQueue p true = lose-KeepsQueue p
  decide-KeepsQueue p false = search (frame, upload_with_cond-KeepsQueue) depth 8

  pub handle_upload_conflict-KeepsQueue : (p : Name) → KeepsQueue {W = W} (handle_upload_conflict p)
  unfolding handle_upload_conflict
  handle_upload_conflict-KeepsQueue p = search (frame, decide-KeepsQueue) depth 8
