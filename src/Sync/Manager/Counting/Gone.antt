-- ===== src/Sync/Manager/Counting/Gone.antt =====
-- `release_all_leases`, by induction on the paths that it goes through.
use monaka_fs.Prelude.{
  ◌≡◌, ◌⊎◌, refl, ◌∙◌, ap, inl, inr, true, List, [], ◌∷◌, Option, none, some, Bool-cases,
}
use monaka_fs.Key.{Name, name_key, name_eq, name_eq_iff}
use monaka_fs.Map
use monaka_fs.Map.{Map, keys, get-insert, get-remove}
use monaka_fs.Sync.Types.{SyncError}
use monaka_fs.Sync.Exec.{Outcome, ok, err, ◌>>=◌, continue}
use monaka_fs.Sync.Clock.{Clock}
use monaka_fs.Sync.Store.{ObjectStore}
use monaka_fs.Sync.Backend.{FsBackend}
use monaka_fs.Sync.Lease.{release}
use monaka_fs.Sync.Lease.Table.{WriteLease}
use monaka_fs.Sync.Manager.{Manager, on_world, lease_of}
use monaka_fs.Sync.Manager.Closing.{
  remove_lease, end_lease, release_one, release_each, first_error, release_all_leases,
}
use monaka_fs.Sync.Manager.Poll.{mem}
use monaka_fs.Sync.Manager.Counting.{get-remove_self}
use monaka_fs.Sync.Manager.Queue.{name_eq-sym}
use monaka_fs.Sync.Manager.Counting.Free.{release_one-KeepsFree}

keys-mem : {V : Type 0} (m : Map Name V) (q : Name) → (mem q (keys m) ≡ true) ⊎ (Map.get m q ≡ none)
unfolding mem Map.get
keys-mem [] q = inr refl
keys-mem ((k, v) ∷ m) q = elim (Bool-cases (name_eq q k)) [
  | inl e ↦ inl (rw e refl)
  | inr e ↦ elim (keys-mem m q) [ inl h ↦ inl (rw e h) | inr h ↦ inr (rw (name_eq-sym q k e) h) ]
]

module _ {W : Type 0} ⦃store : ObjectStore W⦄ ⦃fs : FsBackend W⦄ ⦃clock : Clock W⦄ where
  release_one-free :
      (p : Name) (l : Option WriteLease) (first : Option SyncError) (s : Manager W)
      → lease_of s p ≡ l
      → lease_of (release_one p l first {E = SyncError} s).1 p ≡ none
  unfolding end_lease remove_lease ◌>>=◌ on_world release
  release_one-free p none first s e = e
  release_one-free p (some l) first s e = get-remove_self _ p

  -- After the lease of `p`: what was on the list is `p`, is on the rest, or has no lease.
  release_one-rest :
      (p : Name) (ps : List Name) (l : Option WriteLease) (first : Option SyncError) (q : Name)
      (s : Manager W)
      → lease_of s p ≡ l
      → (mem q (p ∷ ps) ≡ true) ⊎ (lease_of s q ≡ none)
      → (mem q ps ≡ true) ⊎ (lease_of (release_one p l first {E = SyncError} s).1 q ≡ none)
  unfolding mem
  release_one-rest p ps l first q s e (inr h) = inr ((release_one-KeepsFree p l first).free s h)
  release_one-rest p ps l first q s e (inl h) = elim (Bool-cases (name_eq q p)) [
    | inl same ↦ inr (
        ap (Map.get (release_one p l first {E = SyncError} s).1.leases) ((name_eq_iff q p).0 same)
        ∙ release_one-free p l first s e)
    | inr other ↦ inl (rw other at h)
  ]

  release_each-free :
      (ps : List Name) (first : Option SyncError) (q : Name) (s : Manager W)
      → (mem q ps ≡ true) ⊎ (lease_of s q ≡ none)
      → lease_of (release_each ps first {E = SyncError} s).1 q ≡ none
  unfolding release_each mem end_lease on_world release ◌>>=◌
  release_each-free [] first q s (inl h) = cc
  release_each-free [] first q s (inr h) = h
  release_each-free (p ∷ ps) first q s h =
      went (lease_of s p) (release_one-rest p ps (lease_of s p) first q s refl h)
        (λ first' t. release_each-free ps first' q t)
    where
      went :
          (l : Option WriteLease)
          → (mem q ps ≡ true) ⊎ (lease_of (release_one p l first {E = SyncError} s).1 q ≡ none)
          → ((first' : Option SyncError) (t : Manager W)
              → (mem q ps ≡ true) ⊎ (lease_of t q ≡ none)
              → lease_of (release_each ps first' {E = SyncError} t).1 q ≡ none)
          → lease_of
              ((release_one p l first {E = SyncError} >>= λ first'. release_each ps first') s).1
              q
            ≡ none
      went none h more = more first s h
      went (some l) h more = more _ _ h

  -- After the shutdown has released all leases, no path has one, whatever could be pushed before.
  pub release_all_leases-free :
      (s : Manager W) (q : Name) → lease_of (release_all_leases s).1 q ≡ none
  unfolding release_all_leases ◌>>=◌
  release_all_leases-free s q =
      ended (release_each (keys s.leases) none s)
        (release_each-free (keys s.leases) none q s (keys-mem s.leases q))
    where
      ended :
          (x : Outcome SyncError (Option SyncError) × Manager W)
          → lease_of x.1 q ≡ none
          → lease_of (continue x.0 first_error x.1).1 q ≡ none
      ended (ok none, t) h = h
      ended (ok (some e), t) h = h
      ended (err e, t) h = h
