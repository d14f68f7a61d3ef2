-- ===== src/Sync/Manager/Leases.antt =====
-- sync_manager.rs: opening a file for writing takes its lease.
use monaka_fs.Prelude.{
  ℕ, zero, suc, ◌+◌, ◌%◌, ◌^◌, Bool, true, false, List, [], ◌∷◌, Option, none, some, if◌then◌else◌,
}
use monaka_fs.Key.{Name, name_key, name_eq}
use monaka_fs.Sync.Types.{SyncError, conflict}
use monaka_fs.Sync.Exec.{Outcome, ok, err, M, ◌>>=◌, ◌>>◌, pure, fail, gets, try, modify}
use monaka_fs.Sync.Clock.{Clock}
use monaka_fs.Sync.Store.{ObjectStore}
use monaka_fs.Sync.Config.{SyncOperation, upload, delete}
use monaka_fs.Sync.Backend.{FsBackend}
use monaka_fs.Sync.Lease.{Acquired, acquire, release}
use monaka_fs.Sync.Lease.Table
use monaka_fs.Sync.Lease.Table.{WriteLease, paths_needing_renewal}
use monaka_fs.Sync.Manager.{Manager, on_world, lease_of, set_lease, set_queue, cond_for_upload}
use monaka_fs.Sync.Manager.Upload.{
  is_lost_condition, upload_with_cond, refresh_local_from_remote, head_and_refresh,
}

-- What the table says of a file that is to be opened for writing.
pub data Entry : Type 0 where
  joined : Entry
  releasing : Entry
  free : Entry

abbrev pub count_up : WriteLease → WriteLease
count_up l = record l { refcount = (l.refcount + 1) % 2 ^ 64 }

-- `retain` without the uploads of the path, and whether there was one.
abbrev is_upload_of : Name → SyncOperation → Bool
is_upload_of p (upload q) = name_eq q p
is_upload_of p (delete q etag) = false

unfoldable pub without_uploads : Name → List SyncOperation → List SyncOperation
without_uploads p [] = []
without_uploads p (op ∷ queue) =
    let rest = without_uploads p queue in if is_upload_of p op then rest else op ∷ rest

unfoldable pub has_upload : Name → List SyncOperation → Bool
has_upload p [] = false
has_upload p (op ∷ queue) =
    let rest = has_upload p queue in if is_upload_of p op then true else rest

abbrev pub new_lease : Acquired → Option Name → WriteLease
new_lease a base = record {
  base_etag = base;
  lock_etag = a.lock_etag;
  epoch = a.epoch;
  expires_at = a.expires_at;
  refcount = 1;
  dirty = false;
  pending_delete = false;
  lost = false;
  releasing = false;
}

module _ {W : Type 0} where
  abbrev pub join_as : Name → Option WriteLease → {E : Type 0} → M (Manager W) E Entry
  join_as p none = pure free
  join_as p (some l) = elim l.releasing [
    | true ↦ pure releasing
    | false ↦ modify (set_lease p count_up) >> pure joined
  ]

  unfoldable pub join : Name → {E : Type 0} → M (Manager W) E Entry
  join p = do l ← gets (λ s. lease_of s p); join_as p l

  abbrev insert_lease : Name → WriteLease → Manager W → Manager W
  insert_lease p l s = record s { leases = Table.insert s.leases p l }

module _ {W : Type 0} ⦃clock : Clock W⦄ where
  -- The loop in front: `none` if the lease was being released all the time, else whether it is joined.
  unfoldable pub open_loop : ℕ → Name → M (Manager W) SyncError (Option Bool)
  unfolding join
  open_loop zero p = pure none
  open_loop (suc tries) p = do
    entry ← join p
    (elim entry [
      | joined ↦ pure (some true)
      | free ↦ pure (some false)
      | releasing ↦ on_world (λ w. (ok tt, clock.sleep 10 w)) >> open_loop tries p
    ])

module _ {W : Type 0} ⦃store : ObjectStore W⦄ ⦃fs : FsBackend W⦄ ⦃clock : Clock W⦄ where
  -- Give back what was acquired, then fail.
  abbrev give_up : Name → Acquired → SyncError → {A : Type 0} → M (Manager W) SyncError A
  give_up p a e = do on_world (release p a.lock_etag); fail e

  -- The end of the pending upload, in a lease that was just acquired.
  abbrev after_pending :
      Name → Acquired → Outcome SyncError Name → M (Manager W) SyncError (Option Name)
  after_pending p a (ok etag) = pure (some etag)
  after_pending p a (err e) = elim (is_lost_condition e) [
    | true ↦ refresh_local_from_remote p >>= λ refreshed. give_up p a (conflict p refreshed)
    | false ↦ give_up p a e
  ]

  abbrev after_head :
      Name
      → Acquired
      → Outcome SyncError (Option Name × Bool)
      → M (Manager W) SyncError (Option Name)
  after_head p a (ok (base, refreshed)) = pure base
  after_head p a (err e) = give_up p a e

  -- The base of the lease.
  abbrev pub base_for : Name → Acquired → Bool → M (Manager W) SyncError (Option Name)
  base_for p a true = do
    cond ← gets (cond_for_upload p)
    done ← try (upload_with_cond p cond)
    after_pending p a done
  base_for p a false = do done ← try (head_and_refresh p); after_head p a done

  -- The new lease: a pending upload goes out first.
  abbrev pub enter : Name → Acquired → M (Manager W) SyncError (Option (Unit {0}))
  enter p a = do
    queue ← gets (λ s. s.outbound_queue)
    modify (set_queue (without_uploads p))
    base ← base_for p a (has_upload p queue)
    modify (insert_lease p (new_lease a base))
    pure (some tt)

  -- If the table has an entry by now, that one is joined.
  abbrev pub enter_or_join :
      Name → Acquired → Option WriteLease → M (Manager W) SyncError (Option (Unit {0}))
  enter_or_join p a none = enter p a
  enter_or_join p a (some l) = do
    modify (set_lease p count_up)
    on_world (release p a.lock_etag)
    pure (some tt)

  abbrev pub after_acquire : Name → Option Acquired → M (Manager W) SyncError (Option (Unit {0}))
  after_acquire p none = pure none
  after_acquire p (some a) = do l ← gets (λ s. lease_of s p); enter_or_join p a l

  unfoldable pub acquire_for : Name → M (Manager W) SyncError (Option (Unit {0}))
  acquire_for p s =
      (do
        a ← on_world (acquire p s.instance_id s.config.lock_lease s.config.lock_timeout)
        after_acquire p a)
        s

  abbrev pub after_loop : Name → Option Bool → M (Manager W) SyncError (Option (Unit {0}))
  after_loop p none = pure none
  after_loop p (some true) = pure (some tt)
  after_loop p (some false) = acquire_for p

  -- `none` is a call that still waits.
  unfoldable pub on_open_write : ℕ → Name → M (Manager W) SyncError (Option (Unit {0}))
  on_open_write tries p s = elim s.config.file_lock [
    | false ↦ (ok (some tt), s)
    | true ↦ (open_loop tries p >>= after_loop p) s
  ]
