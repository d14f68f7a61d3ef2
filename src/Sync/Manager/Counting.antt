-- ===== src/Sync/Manager/Counting.antt =====
-- The count of a lease: what opening and closing a file do to it.
pub mod Free
pub mod Gone
use monaka_fs.Prelude.{
  ℕ, zero, suc, ◌+◌, ◌-◌, ◌%◌, ◌^◌, ◌≤◌, ◌<◌, ◌≡◌, refl, sym, ◌∙◌, ap, inl, inr, Bool, true, false,
  List, [], ◌∷◌, Option, none, some, arith, ltb, lt→ltb, if◌then◌else◌, Bool-cases, Option-cases,
}
use monaka_fs.Key.{Name, name_key, name_eq, name_eq_iff}
use monaka_fs.Map
use monaka_fs.Map.{get-insert, get-insert_self, get-remove}
use monaka_fs.Sync.Types.{SyncError}
use monaka_fs.Sync.Exec.{Outcome, ok, err, M, ◌>>=◌, ◌>>◌, continue}
use monaka_fs.Sync.Clock.{Clock}
use monaka_fs.Sync.Store.{ObjectStore}
use monaka_fs.Sync.Config.{SyncConfig}
use monaka_fs.Sync.Backend.{FsBackend}
use monaka_fs.Sync.Lease.{release}
use monaka_fs.Sync.Lease.Table
use monaka_fs.Sync.Lease.Table.{WriteLease, LeaseTable, update}
use monaka_fs.Sync.Manager.{Manager, on_world, lease_of, set_lease}
use monaka_fs.Sync.Manager.Leases.{count_up, join_as, join, open_loop, after_loop, on_open_write}
use monaka_fs.Sync.Manager.Closing.{
  count_down, remove_lease, flush_lease, end_lease, close_one, close_as, on_close,
}

pub get-update :
    (table : LeaseTable) (p q : Name) (f : WriteLease → WriteLease) (l : WriteLease)
    → Map.get table p ≡ some l
    → Map.get (update table p f) q ≡ (if name_eq p q then some (f l) else Map.get table q)
unfolding update
get-update table p q f l found = rw (update, found) (get-insert table p q (f l))

pub get-remove_self : (table : LeaseTable) (p : Name) → Map.get (Map.remove table p) p ≡ none
get-remove_self table p = ground (arith, get-remove table p p, name_eq_iff p p)

-- The lease with one writer fewer: none, if there was one writer at most.
abbrev left_by : WriteLease → ℕ → Option WriteLease
left_by l zero = none
left_by l (suc zero) = none
left_by l (suc (suc n)) = some (record l { refcount = suc n })

-- What is left of a lease when its file is closed.
abbrev pub after_close : Option WriteLease → Option WriteLease
after_close none = none
after_close (some l) = left_by l l.refcount

count_down-count_up : (l : WriteLease) → l.refcount + 1 < 2 ^ 64 → count_down (count_up l) ≡ l
count_down-count_up l room =
    let e : (l.refcount + 1) % 2 ^ 64 - 1 ≡ l.refcount = omega arith in
    ap (λ n. record l { refcount = n }) e

count_down-left_by :
    (l : WriteLease) (n : ℕ)
    → l.refcount ≡ n
    → (if ltb 1 l.refcount then some (count_down l) else none) ≡ left_by l n
count_down-left_by l zero e = rw e refl
count_down-left_by l (suc zero) e = rw e refl
count_down-left_by l (suc (suc n)) e = ground (arith, e)

get-update_self :
    (table : LeaseTable) (p : Name) (f : WriteLease → WriteLease) (l : WriteLease)
    → Map.get table p ≡ some l
    → Map.get (update table p f) p ≡ some (f l)
get-update_self table p f l found =
    get-update table p p f l found ∙ rw ((name_eq_iff p p).1 refl) refl

get-update_twice :
    (table : LeaseTable) (p q : Name) (l : WriteLease)
    → Map.get table p ≡ some l
    → l.refcount + 1 < 2 ^ 64
    → Map.get (update (update table p count_up) p count_down) q ≡ Map.get table q
get-update_twice table p q l found room =
    get-update (update table p count_up) p q count_down (count_up l)
      (get-update_self table p count_up l found)
    ∙ elim (Bool-cases (name_eq p q)) [
      | inl e ↦
          rw (e, count_down-count_up l room)
            (sym found ∙ ap (Map.get table) ((name_eq_iff p q).0 e))
      | inr e ↦ rw e (get-update table p q count_up l found ∙ rw e refl)
    ]

module _ {W : Type 0} ⦃store : ObjectStore W⦄ ⦃fs : FsBackend W⦄ ⦃clock : Clock W⦄ where
  joins :
      (tries : ℕ) (p : Name) (s : Manager W) (l : WriteLease)
      → s.config.file_lock ≡ true
      → lease_of s p ≡ some l
      → l.releasing ≡ false
      → on_open_write (suc tries) p s ≡ (ok (some tt), set_lease p count_up s)
  unfolding on_open_write open_loop join ◌>>=◌
  joins tries p s l lock found held = rw (lock, found, held) refl

  leaves :
      (p : Name) (s : Manager W) (l : WriteLease)
      → lease_of s p ≡ some l
      → 1 < l.refcount
      → on_close p s ≡ (ok tt, set_lease p count_down s)
  unfolding on_close ◌>>=◌
  leaves p s l found shared = rw (found, lt→ltb 1 l.refcount shared) refl

  -- Opening a file for writing that is leased already, and then closing it, takes no call of the store
  -- and leaves all as it was: the count of the lease goes up and down again. The lease is not being
  -- released, its count is positive and has room, and leases are enabled.
  pub on_close-on_open_write :
      (tries : ℕ) (p : Name) (s : Manager W) (l : WriteLease)
      → s.config.file_lock ≡ true
      → lease_of s p ≡ some l
      → l.releasing ≡ false
      → 0 < l.refcount
      → l.refcount + 1 < 2 ^ 64
      → (on_open_write (suc tries) p s).0 ≡ ok (some tt)
        × (on_close p (on_open_write (suc tries) p s).1).0 ≡ ok tt
        × ((q : Name) → lease_of (on_close p (on_open_write (suc tries) p s).1).1 q ≡ lease_of s q)
        × (on_close p (on_open_write (suc tries) p s).1).1.world ≡ s.world
        × (on_close p (on_open_write (suc tries) p s).1).1.outbound_queue ≡ s.outbound_queue
        × (on_close p (on_open_write (suc tries) p s).1).1.metadata_cache ≡ s.metadata_cache
  on_close-on_open_write tries p s l lock found held positive room =
      rw (joins tries p s l lock found held, left)
        (refl, refl, λ q. get-update_twice s.leases p q l found room, refl, refl, refl)
    where
      left :
          on_close p (set_lease p count_up s)
          ≡ (ok tt, set_lease p count_down (set_lease p count_up s))
      left =
          leaves p (set_lease p count_up s) (count_up l)
            (get-update_self s.leases p count_up l found) (omega arith)

  close_as-lease :
      (p : Name) (l : Option WriteLease) (s : Manager W)
      → lease_of s p ≡ l
      → lease_of (close_as p l s).1 p ≡ after_close l
  unfolding end_lease remove_lease ◌>>=◌ on_world release
  close_as-lease p none s found = found
  close_as-lease p (some l) s found =
      counted (ltb 1 l.refcount) ∙ count_down-left_by l l.refcount refl
    where
      counted :
          (shared : Bool)
          → lease_of (close_one p l shared s).1 p ≡ (if shared then some (count_down l) else none)
      counted true = get-update_self s.leases p count_down l found
      counted false = get-remove_self _ p

  -- Closing a file takes one from the count of its lease, and the last close removes the lease, whether
  -- what was pending could be pushed or not; a file without a lease stays without.
  pub on_close-lease :
      (p : Name) (s : Manager W) → lease_of (on_close p s).1 p ≡ after_close (lease_of s p)
  unfolding on_close ◌>>=◌
  on_close-lease p s = close_as-lease p (lease_of s p) s refl
