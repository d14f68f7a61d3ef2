-- ===== src/Sync/Manager/Closing.antt =====
-- sync_manager.rs: closing a file pushes what is pending and gives the lease back; `fsync`, shutdown and
-- the renewal of leases.
use monaka_fs.Prelude.{ℕ, ◌-◌, Bool, true, false, ◌||◌, List, [], ◌∷◌, Option, none, some, ltb}
use monaka_fs.Key.{Name, name_key}
use monaka_fs.Sync.Types.{if_match, S3Error, is_precondition_failed, is_not_found, SyncError}
use monaka_fs.Sync.Exec.{Outcome, ok, err, M, ◌>>=◌, ◌>>◌, pure, fail, gets, total, try, modify}
use monaka_fs.Sync.Clock.{Clock}
use monaka_fs.Sync.Store.{ObjectStore, delete_file}
use monaka_fs.Sync.Backend.{FsBackend}
use monaka_fs.Sync.FileMetadata
use monaka_fs.Sync.Lease.{release, renew}
use monaka_fs.Sync.Lease.Table
use monaka_fs.Sync.Lease.Table.{WriteLease, paths_needing_renewal}
use monaka_fs.Sync.Manager.{Manager, on_world, lease_of, set_lease, set_cache, base_cond}
use monaka_fs.Sync.Manager.Upload.{
  on_store, is_lost_condition, upload_with_cond, lose, sync_file_now,
}

abbrev pub count_down : WriteLease → WriteLease
count_down l = record l { refcount = l.refcount - 1 }

-- `first_err.get_or_insert(e)`
abbrev pub first_of : Option SyncError → Outcome SyncError (Unit {0}) → Option SyncError
first_of none (err e) = some e
first_of first r = first

unfoldable pub remove_lease : {W : Type 0} → Name → Manager W → Manager W
remove_lease p s = record s { leases = Table.remove s.leases p }

module _ {W : Type 0} ⦃store : ObjectStore W⦄ ⦃fs : FsBackend W⦄ ⦃clock : Clock W⦄ where
  abbrev pub after_delete : Name → Outcome SyncError (Unit {0}) → M (Manager W) SyncError (Unit {0})
  after_delete p (ok done) = modify (set_cache (λ c. FileMetadata.remove c p))
  after_delete p (err e) = elim (is_lost_condition e) [ true ↦ lose p | false ↦ fail e ]

  abbrev pub flush_pending_delete : Name → Option Name → M (Manager W) SyncError (Unit {0})
  flush_pending_delete p none = modify (set_cache (λ c. FileMetadata.remove c p))
  flush_pending_delete p (some base) = do
    done ← try (on_store (delete_file p (if_match base)))
    after_delete p done

  abbrev pub after_flush : Name → Outcome SyncError Name → M (Manager W) SyncError (Unit {0})
  after_flush p (ok etag) = pure tt
  after_flush p (err e) = elim (is_lost_condition e) [ true ↦ lose p | false ↦ fail e ]

  abbrev pub flush_dirty : Name → Option Name → M (Manager W) SyncError (Unit {0})
  flush_dirty p base = do done ← try (upload_with_cond p (base_cond base)); after_flush p done

  unfoldable pub flush_lease : Name → WriteLease → M (Manager W) SyncError (Unit {0})
  flush_lease p l = elim l.pending_delete [
    | true ↦ flush_pending_delete p l.base_etag
    | false ↦ elim l.dirty [ true ↦ flush_dirty p l.base_etag | false ↦ pure tt ]
  ]

  -- What both closing and shutdown do with a lease: push, release, forget.
  unfoldable pub end_lease :
      Name → WriteLease → {E : Type 0} → M (Manager W) E (Outcome SyncError (Unit {0}))
  end_lease p l = do
    result ← try (flush_lease p l)
    on_world (release p l.lock_etag)
    modify (remove_lease p)
    pure result

  abbrev lift_outcome : {A : Type 0} → Outcome SyncError A → M (Manager W) SyncError A
  lift_outcome r s = (r, s)

  abbrev pub end_last : Name → WriteLease → M (Manager W) SyncError (Unit {0})
  end_last p l = do
    modify (set_lease p (λ l. record l { releasing = true }))
    result ← end_lease p (record l { releasing = true })
    lift_outcome result

  abbrev pub close_one : Name → WriteLease → Bool → M (Manager W) SyncError (Unit {0})
  close_one p l true = modify (set_lease p count_down)
  close_one p l false = end_last p l

  abbrev pub close_as : Name → Option WriteLease → M (Manager W) SyncError (Unit {0})
  close_as p none = pure tt
  close_as p (some l) = close_one p l (ltb 1 l.refcount)

  unfoldable pub on_close : Name → M (Manager W) SyncError (Unit {0})
  on_close p = do l ← gets (λ s. lease_of s p); close_as p l

  abbrev pub fsync_as : Name → Option WriteLease → M (Manager W) SyncError (Unit {0})
  fsync_as p none = sync_file_now p
  fsync_as p (some l) = elim (l.dirty || l.pending_delete) [
    | true ↦ flush_lease p l
    | false ↦ pure tt
  ]

  unfoldable pub on_fsync : Name → M (Manager W) SyncError (Unit {0})
  on_fsync p = do l ← gets (λ s. lease_of s p); fsync_as p l

  abbrev pub release_one :
      Name
      → Option WriteLease
      → Option SyncError
      → {E : Type 0} → M (Manager W) E (Option SyncError)
  release_one p none first = pure first
  release_one p (some l) first = do
    modify (set_lease p (λ l. record l { releasing = true }))
    result ← end_lease p (record l { releasing = true })
    pure (first_of first result)

  unfoldable pub release_each :
      List Name → Option SyncError → {E : Type 0} → M (Manager W) E (Option SyncError)
  release_each [] first = pure first
  release_each (p ∷ ps) first = do
    l ← gets (λ s. lease_of s p)
    first' ← release_one p l first
    release_each ps first'

  abbrev pub first_error : Option SyncError → M (Manager W) SyncError (Unit {0})
  first_error none = pure tt
  first_error (some e) = fail e

  unfoldable pub release_all_leases : M (Manager W) SyncError (Unit {0})
  release_all_leases = do
    ps ← gets (λ s. Table.paths s.leases)
    first ← release_each ps none
    first_error first

module _ {W : Type 0} ⦃store : ObjectStore W⦄ ⦃clock : Clock W⦄ where
  abbrev pub after_renew :
      Name → Outcome S3Error (Name × ℕ) → {E : Type 0} → M (Manager W) E (Unit {0})
  after_renew p (ok (new_etag, expires_at)) =
      modify (set_lease p (λ l. record l { lock_etag = new_etag; expires_at = expires_at }))
  after_renew p (err e) = elim (is_precondition_failed e || is_not_found e) [
    | true ↦ modify (set_lease p (λ l. record l { lost = true }))
    | false ↦ pure tt
  ]

  abbrev pub renew_one : Name → WriteLease → {E : Type 0} → M (Manager W) E (Unit {0})
  renew_one p l s =
      (on_world (try (renew p s.instance_id l.epoch l.lock_etag s.config.lock_lease)) >>= λ renewed.
      after_renew p renewed)
        s

  abbrev pub renew_as : Name → Option WriteLease → {E : Type 0} → M (Manager W) E (Unit {0})
  renew_as p none = pure tt
  renew_as p (some l) = renew_one p l

  unfoldable pub renew_each : List Name → {E : Type 0} → M (Manager W) E (Unit {0})
  renew_each [] = pure tt
  renew_each (p ∷ ps) = do l ← gets (λ s. lease_of s p); renew_as p l; renew_each ps

  unfoldable pub renew_leases : {E : Type 0} → M (Manager W) E (Unit {0})
  renew_leases = do
    now ← on_world (total clock.now)
    due ← gets (λ s. paths_needing_renewal s.leases now s.config.lock_lease)
    renew_each due
