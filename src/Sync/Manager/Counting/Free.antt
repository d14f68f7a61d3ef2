-- ===== src/Sync/Manager/Counting/Free.antt =====
-- Ending one lease at the shutdown (`release_one`): a path without a lease stays without.
use monaka_fs.Prelude.{
  ℕ, ◌≡◌, refl, ◌∙◌, ap, inl, inr, Bool, true, false, Option, none, some, arith, Bool-cases,
}
use monaka_fs.Key.{Name, name_key, name_eq, name_eq_iff}
use monaka_fs.Map
use monaka_fs.Map.{Map, keys, get-insert, get-remove}
use monaka_fs.Sync.Types.{Precondition, S3Error, SyncError}
use monaka_fs.Sync.Exec.{Outcome, ok, err, M, ◌>>=◌, pure, fail, gets, try, modify, continue}
use monaka_fs.Sync.Clock.{Clock}
use monaka_fs.Sync.Store.{ObjectStore, Body}
use monaka_fs.Sync.Backend.{FsBackend}
use monaka_fs.Sync.FileMetadata.{MetadataCache}
use monaka_fs.Sync.Lease.Table.{WriteLease, LeaseTable, update, update_at}
use monaka_fs.Sync.Manager.{Manager, on_world, lease_of, set_lease, set_cache}
use monaka_fs.Sync.Manager.Upload.{
  is_lost_condition, upload_with_cond, note_upload, note_download, refreshed_by, refresh_from,
  refresh_local_from_remote, lose,
}
use monaka_fs.Sync.Manager.Closing.{
  remove_lease, after_delete, flush_pending_delete, after_flush, flush_lease, end_lease,
  release_one,
}

-- The call leaves a path without a lease if it has none.
pub record KeepsFree {W E A : Type 0} (q : Name) (m : M (Manager W) E A) : Type 0 where
  pub free : (s : Manager W) → lease_of s q ≡ none → lease_of (m s).1 q ≡ none

get-update_free :
    (table : LeaseTable) (p q : Name) (f : WriteLease → WriteLease)
    → Map.get table q ≡ none
    → Map.get (update table p f) q ≡ none
unfolding update
get-update_free table p q f free = found (Map.get table p) refl
  where
    found : (l : Option WriteLease) → Map.get table p ≡ l → Map.get (update_at table p f l) q ≡ none
    found none e = free
    found (some l) e = elim (Bool-cases (name_eq p q)) [
      | inl same ↦ absurd (cc (e, free, ap (Map.get table) ((name_eq_iff p q).0 same)))
      | inr other ↦ get-insert table p q (f l) ∙ rw other free
    ]

module _ {W E : Type 0} {q : Name} where
  KeepsFree-pure : {A : Type 0} (a : A) → KeepsFree {W = W} {E = E} q (pure a)
  unfolding pure
  KeepsFree-pure a = record { free = λ s h. h }

  KeepsFree-fail : {A : Type 0} (e : E) → KeepsFree {W = W} {A = A} q (fail e)
  unfolding fail
  KeepsFree-fail e = record { free = λ s h. h }

  KeepsFree-gets : {A : Type 0} (f : Manager W → A) → KeepsFree {E = E} q (gets f)
  unfolding gets
  KeepsFree-gets f = record { free = λ s h. h }

  KeepsFree-try :
      {F A : Type 0} {m : M (Manager W) F A} → KeepsFree q m → KeepsFree {E = E} q (try m)
  unfolding try
  KeepsFree-try k = record { free = λ s h. k.free s h }

  KeepsFree-on_world : {A : Type 0} (m : M W E A) → KeepsFree q (on_world m)
  unfolding on_world
  KeepsFree-on_world m = record { free = λ s h. h }

  KeepsFree-set_cache :
      (f : MetadataCache → MetadataCache) → KeepsFree {W = W} {E = E} q (modify (set_cache f))
  unfolding modify
  KeepsFree-set_cache f = record { free = λ s h. h }

  KeepsFree-set_lease :
      (p : Name) (f : WriteLease → WriteLease)
      → KeepsFree {W = W} {E = E} q (modify (set_lease p f))
  unfolding modify
  KeepsFree-set_lease p f = record { free = λ s h. get-update_free s.leases p q f h }

  KeepsFree-bind :
      {A B : Type 0} {f : A → M (Manager W) E B} {m : M (Manager W) E A}
      → ((a : A) → KeepsFree q (f a))
      → KeepsFree q m
      → KeepsFree q (m >>= f)
  unfolding ◌>>=◌
  KeepsFree-bind {A = A} {f = f} {m = m} k p = record { free = λ s h. next (m s) (p.free s h) }
    where
      next :
          (x : Outcome E A × Manager W)
          → lease_of x.1 q ≡ none
          → lease_of (continue x.0 f x.1).1 q ≡ none
      next (ok a, t) h = (k a).free t h
      next (err e, t) h = h

ruleset free_rules = (
  KeepsFree-bind, KeepsFree-pure, KeepsFree-fail, KeepsFree-gets, KeepsFree-try, KeepsFree-on_world,
  KeepsFree-set_cache, KeepsFree-set_lease,
)

module _ {W : Type 0} ⦃store : ObjectStore W⦄ ⦃fs : FsBackend W⦄ {q : Name} where
  note_download-KeepsFree :
      (p etag : Name) (stamp size : ℕ) {E : Type 0}
      → KeepsFree {W = W} {E = E} q (modify (note_download p etag stamp size))
  unfolding note_download modify
  note_download-KeepsFree p etag stamp size = record { free = λ s h. h }

  refreshed_by-KeepsFree :
      (p : Name) (content : Body) (etag : Name) (stamp : ℕ) (done : Outcome S3Error (Unit {0}))
      {E : Type 0}
      → KeepsFree {W = W} {E = E} q (refreshed_by p content etag stamp done)
  refreshed_by-KeepsFree p content etag stamp (ok done) =
      search (free_rules, note_download-KeepsFree) depth 8
  refreshed_by-KeepsFree p content etag stamp (err e) = KeepsFree-pure _

  refresh_from-KeepsFree :
      (p : Name) (found : Outcome S3Error (Option (Body × (Name × ℕ)))) {E : Type 0}
      → KeepsFree {W = W} {E = E} q (refresh_from p found)
  refresh_from-KeepsFree p (ok (some (content, (etag, stamp)))) =
      search (free_rules, refreshed_by-KeepsFree) depth 8
  refresh_from-KeepsFree p (ok none) = search free_rules depth 8
  refresh_from-KeepsFree p (err e) = KeepsFree-pure _

  lose-KeepsFree : (p : Name) {A : Type 0} → KeepsFree {W = W} {A = A} q (lose p)
  unfolding refresh_local_from_remote
  lose-KeepsFree p = search (free_rules, refresh_from-KeepsFree) depth 8

module _ {W : Type 0} ⦃store : ObjectStore W⦄ ⦃fs : FsBackend W⦄ ⦃clock : Clock W⦄ {q : Name} where
  note_upload-KeepsFree :
      (p etag : Name) (size local now : ℕ) {E : Type 0}
      → KeepsFree {W = W} {E = E} q (modify (note_upload p etag size local now))
  unfolding note_upload modify
  note_upload-KeepsFree p etag size local now = record {
    free = λ s h. get-update_free s.leases p q _ h;
  }

  upload_with_cond-KeepsFree :
      (p : Name) (cond : Precondition) → KeepsFree {W = W} q (upload_with_cond p cond)
  unfolding upload_with_cond
  upload_with_cond-KeepsFree p cond = search (free_rules, note_upload-KeepsFree) depth 16

  KeepsFree-branch :
      {E A : Type 0} (t : Bool) {m n : M (Manager W) E A}
      → KeepsFree q m
      → KeepsFree q n
      → KeepsFree q (elim t [ true ↦ m | false ↦ n ])
  KeepsFree-branch true k l = k
  KeepsFree-branch false k l = l

  after_delete-KeepsFree :
      (p : Name) (done : Outcome SyncError (Unit {0})) → KeepsFree {W = W} q (after_delete p done)
  after_delete-KeepsFree p (ok done) = KeepsFree-set_cache _
  after_delete-KeepsFree p (err e) =
      KeepsFree-branch (is_lost_condition e) (lose-KeepsFree p) (KeepsFree-fail e)

  pending_delete-KeepsFree :
      (p : Name) (base : Option Name) → KeepsFree {W = W} q (flush_pending_delete p base)
  pending_delete-KeepsFree p none = KeepsFree-set_cache _
  pending_delete-KeepsFree p (some base) = search (free_rules, after_delete-KeepsFree) depth 8

  after_flush-KeepsFree :
      (p : Name) (done : Outcome SyncError Name) → KeepsFree {W = W} q (after_flush p done)
  after_flush-KeepsFree p (ok etag) = KeepsFree-pure _
  after_flush-KeepsFree p (err e) =
      KeepsFree-branch (is_lost_condition e) (lose-KeepsFree p) (KeepsFree-fail e)

  flush_lease-KeepsFree : (p : Name) (l : WriteLease) → KeepsFree {W = W} q (flush_lease p l)
  unfolding flush_lease
  flush_lease-KeepsFree p l =
      KeepsFree-branch l.pending_delete (pending_delete-KeepsFree p l.base_etag) (
        KeepsFree-branch l.dirty
          (search (free_rules, after_flush-KeepsFree, upload_with_cond-KeepsFree) depth 8)
          (KeepsFree-pure _))

  remove_lease-KeepsFree :
      (p : Name) {E : Type 0} → KeepsFree {W = W} {E = E} q (modify (remove_lease p))
  unfolding remove_lease modify
  remove_lease-KeepsFree p = record { free = λ s h. ground (arith, get-remove s.leases p q) }

  pub release_one-KeepsFree :
      (p : Name) (l : Option WriteLease) (first : Option SyncError) {E : Type 0}
      → KeepsFree {W = W} {E = E} q (release_one p l first)
  unfolding end_lease
  release_one-KeepsFree p none first = KeepsFree-pure _
  release_one-KeepsFree p (some l) first =
      search (free_rules, flush_lease-KeepsFree, remove_lease-KeepsFree) depth 10
