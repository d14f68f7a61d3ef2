-- ===== src/Sync/Manager/Sparing.antt =====
-- What the poll leaves alone.
use monaka_fs.Prelude.{
  ℕ, ◌≡◌, refl, ◌∙◌, ap₂, inl, inr, Bool, true, false, ◌&&◌, ◌||◌, List, [], ◌∷◌, Option, none,
  some, Bool-cases,
}
use monaka_fs.Key.{Name, name_key, name_eq, name_eq_iff}
use monaka_fs.Map.{get-insert, get-remove}
use monaka_fs.Sync.Types.{S3ObjectInfo}
use monaka_fs.Sync.Exec.{Outcome, ok, err, M, ◌>>=◌, pure, fail, gets, try, modify, continue}
use monaka_fs.Sync.Store.{ObjectStore, Body}
use monaka_fs.Sync.Backend.{FsBackend}
use monaka_fs.Sync.FileMetadata.{
  MetadataCache, update_after_download, add_dir, remove_dir, remove, get,
}
use monaka_fs.Sync.Manager.{Manager, on_world, set_cache}
use monaka_fs.Sync.Manager.Upload.{note_download}
use monaka_fs.Sync.Manager.Poll.{
  SyncStats, is_ours, take_body, download_file, delete_local_file, add_marker, download_if,
  is_wanted, poll_kind, drop_missing, poll_object, poll_objects, mem, drop_if, poll_deleted,
  drop_dir, poll_dirs, poll_inbound,
}

module _ {W : Type 0} (p : Name) where
  -- What the manager knows of the file is the same, and so are leases and queue.
  pub record Same (s t : Manager W) : Type 0 where
    pub known : get t.metadata_cache p ≡ get s.metadata_cache p
    pub leases : t.leases ≡ s.leases
    pub queue : t.outbound_queue ≡ s.outbound_queue

-- The call spares a file that is local.
record Spares {W E A : Type 0} (p : Name) (m : M (Manager W) E A) : Type 0 where
  pub same : (s : Manager W) → is_ours s p ≡ true → Same p s (m s).1

module _ {W : Type 0} {p : Name} where
  Same-refl : (s : Manager W) → Same p s s
  Same-refl s = record { known = refl; leases = refl; queue = refl }

  Same-trans : (s t u : Manager W) → Same p s t → Same p t u → Same p s u
  Same-trans s t u a b = record {
    known = b.known ∙ a.known;
    leases = b.leases ∙ a.leases;
    queue = b.queue ∙ a.queue;
  }

  is_ours-Same : (s t : Manager W) → Same p s t → is_ours s p ≡ true → is_ours t p ≡ true
  is_ours-Same s t a h =
      ap₂ (λ leases queue. is_ours (record s { leases = leases; outbound_queue = queue }) p)
        a.leases a.queue
      ∙ h

module _ {W E : Type 0} {p : Name} where
  Spares-pure : {A : Type 0} (a : A) → Spares {W = W} {E = E} p (pure a)
  unfolding pure
  Spares-pure a = record { same = λ s h. Same-refl s }

  Spares-fail : {A : Type 0} (e : E) → Spares {W = W} {A = A} p (fail e)
  unfolding fail
  Spares-fail e = record { same = λ s h. Same-refl s }

  Spares-gets : {A : Type 0} (f : Manager W → A) → Spares {E = E} p (gets f)
  unfolding gets
  Spares-gets f = record { same = λ s h. Same-refl s }

  Spares-try : {F A : Type 0} {m : M (Manager W) F A} → Spares p m → Spares {E = E} p (try m)
  unfolding try
  Spares-try k = record { same = λ s h. k.same s h }

  Spares-on_world : {A : Type 0} (m : M W E A) → Spares p (on_world m)
  unfolding on_world
  Spares-on_world m = record { same = λ s h. record { known = refl; leases = refl; queue = refl } }

  Spares-set_cache :
      (f : MetadataCache → MetadataCache)
      → ((c : MetadataCache) → get (f c) p ≡ get c p)
      → Spares {W = W} {E = E} p (modify (set_cache f))
  unfolding modify
  Spares-set_cache f k = record {
    same = λ s h. record { known = k s.metadata_cache; leases = refl; queue = refl };
  }

  Spares-bind :
      {A B : Type 0} {f : A → M (Manager W) E B} {m : M (Manager W) E A}
      → ((a : A) → Spares p (f a))
      → Spares p m
      → Spares p (m >>= f)
  unfolding ◌>>=◌
  Spares-bind {A = A} {f = f} {m = m} k first = record {
    same = λ s h. next s h (m s) (first.same s h);
  }
    where
      next :
          (s : Manager W)
          → is_ours s p ≡ true
          → (x : Outcome E A × Manager W) → Same p s x.1
          → Same p s (continue x.0 f x.1).1
      next s h (ok a, t) same = Same-trans s t _ same ((k a).same t (is_ours-Same s t same h))
      next s h (err e, t) same = same

  -- A test of the state, whose answer is known where the file is local.
  Spares-test :
      {B : Type 0} (test : Manager W → Bool) (f : Bool → M (Manager W) E B) (t : Bool)
      → ((s : Manager W) → is_ours s p ≡ true → test s ≡ t)
      → Spares p (f t)
      → Spares p (gets test >>= f)
  unfolding ◌>>=◌
  Spares-test test f t answer k = record { same = λ s h. rw (answer s h) (k.same s h) }

ruleset spares = (Spares-bind, Spares-pure, Spares-fail, Spares-gets, Spares-try, Spares-on_world)

and_false : (b : Bool) → (b && false) ≡ false
and_false true = refl
and_false false = refl

or_true : (b : Bool) → (b || true) ≡ true
or_true true = refl
or_true false = refl

is_wanted-local :
    {W : Type 0} (obj : S3ObjectInfo) (p : Name) (s : Manager W)
    → name_eq obj.path p ≡ true
    → is_ours s p ≡ true
    → is_wanted obj s ≡ false
unfolding is_wanted
is_wanted-local obj p s e h = rw ((name_eq_iff obj.path p).0 e, h) (and_false _)

is_kept-local :
    {W : Type 0} (remote : List Name) (q p : Name) (s : Manager W)
    → name_eq q p ≡ true
    → is_ours s p ≡ true
    → (mem q remote || is_ours s q) ≡ true
is_kept-local remote q p s e h = rw ((name_eq_iff q p).0 e, h) (or_true _)

module _ {W : Type 0} ⦃store : ObjectStore W⦄ ⦃fs : FsBackend W⦄ {p : Name} where
  note_download-Spares :
      (q etag : Name) (stamp size : ℕ)
      → name_eq q p ≡ false
      → {E : Type 0} → Spares {W = W} {E = E} p (modify (note_download q etag stamp size))
  unfolding note_download update_after_download get
  note_download-Spares q etag stamp size other =
      Spares-set_cache _ (λ c. get-insert c.files q p _ ∙ rw other refl)

  download_file-Spares :
      (obj : S3ObjectInfo) → name_eq obj.path p ≡ false → Spares {W = W} p (download_file obj)
  unfolding download_file
  download_file-Spares obj other = Spares-bind taken (Spares-on_world _)
    where
      taken : (found : Option (Body × (Name × ℕ))) → Spares {W = W} p (take_body obj.path found)
      taken none = Spares-fail _
      taken (some (content, (etag, stamp))) =
          Spares-bind (λ done. note_download-Spares obj.path etag stamp _ other) (Spares-on_world _)

  delete_local-Spares : (q : Name) → name_eq q p ≡ false → Spares {W = W} p (delete_local_file q)
  unfolding delete_local_file get remove
  delete_local-Spares q other =
      Spares-bind (λ done. Spares-set_cache _ (λ c. get-remove c.files q p ∙ rw other refl))
        (Spares-on_world _)

  add_marker-Spares :
      (obj : S3ObjectInfo) (known : Bool) {E : Type 0}
      → Spares {W = W} {E = E} p (add_marker obj known)
  unfolding add_dir get
  add_marker-Spares obj true = Spares-pure _
  add_marker-Spares obj false =
      Spares-bind (λ done. Spares-set_cache _ (λ c. refl)) (Spares-on_world _)

  poll_file-Spares :
      (obj : S3ObjectInfo) (stats : SyncStats) {E : Type 0}
      → Spares {W = W} {E = E} p (gets (is_wanted obj) >>= λ wanted. download_if obj wanted stats)
  poll_file-Spares obj stats = elim (Bool-cases (name_eq obj.path p)) [
    | inl e ↦ Spares-test _ _ false (λ s h. is_wanted-local obj p s e h) (Spares-pure _)
    | inr e ↦ Spares-bind (wanted e) (Spares-gets _)
  ]
    where
      wanted :
          name_eq obj.path p ≡ false
          → {E : Type 0} → (w : Bool) → Spares {W = W} {E = E} p (download_if obj w stats)
      wanted e false = Spares-pure _
      wanted e true = Spares-bind (λ done. Spares-pure _) (Spares-try (download_file-Spares obj e))

  drop_dir-Spares :
      (dir : Name) (known : Bool) {E : Type 0} → Spares {W = W} {E = E} p (drop_dir dir known)
  unfolding remove_dir get
  drop_dir-Spares dir true = Spares-pure _
  drop_dir-Spares dir false =
      Spares-bind (λ done. Spares-set_cache _ (λ c. refl)) (Spares-on_world _)

  poll_object-Spares :
      (obj : S3ObjectInfo) (stats : SyncStats) {E : Type 0}
      → Spares {W = W} {E = E} p (poll_object obj stats)
  unfolding poll_object
  poll_object-Spares obj stats = kind obj.is_dir
    where
      kind : (dir : Bool) {E : Type 0} → Spares {W = W} {E = E} p (poll_kind dir obj stats)
      kind true =
          Spares-bind (λ known. Spares-bind (λ done. Spares-pure _) (add_marker-Spares obj known))
            (Spares-gets _)
      kind false = poll_file-Spares obj stats

  poll_objects-Spares :
      (objects : List S3ObjectInfo) (stats : SyncStats) {E : Type 0}
      → Spares {W = W} {E = E} p (poll_objects objects stats)
  unfolding poll_objects
  poll_objects-Spares [] stats = Spares-pure _
  poll_objects-Spares (obj ∷ objects) stats =
      Spares-bind (λ stats'. poll_objects-Spares objects stats') (poll_object-Spares obj stats)

  drop_one-Spares :
      (remote : List Name) (q : Name) (stats : SyncStats) {E : Type 0}
      → Spares {W = W} {E = E} p (drop_missing remote q stats)
  drop_one-Spares remote q stats = elim (Bool-cases (name_eq q p)) [
    | inl e ↦ Spares-test _ _ true (λ s h. is_kept-local remote q p s e h) (Spares-pure _)
    | inr e ↦ Spares-bind (kept e) (Spares-gets _)
  ]
    where
      kept :
          name_eq q p ≡ false
          → {E : Type 0} → (k : Bool) → Spares {W = W} {E = E} p (drop_if q k stats)
      kept e true = Spares-pure _
      kept e false = Spares-bind (λ done. Spares-pure _) (Spares-try (delete_local-Spares q e))

  poll_dirs-Spares :
      (remote dirs : List Name) {E : Type 0} → Spares {W = W} {E = E} p (poll_dirs remote dirs)
  unfolding poll_dirs
  poll_dirs-Spares remote [] = Spares-pure _
  poll_dirs-Spares remote (dir ∷ dirs) =
      Spares-bind (λ done. poll_dirs-Spares remote dirs) (drop_dir-Spares dir (mem dir remote))

  poll_deleted-Spares :
      (remote paths : List Name) (stats : SyncStats) {E : Type 0}
      → Spares {W = W} {E = E} p (poll_deleted remote paths stats)
  unfolding poll_deleted
  poll_deleted-Spares remote [] stats = Spares-pure _
  poll_deleted-Spares remote (q ∷ qs) stats =
      Spares-bind (λ stats'. poll_deleted-Spares remote qs stats') (drop_one-Spares remote q stats)

  poll_inbound-Spares : Spares {W = W} p poll_inbound
  unfolding poll_inbound
  poll_inbound-Spares =
      search (spares, poll_objects-Spares, poll_deleted-Spares, poll_dirs-Spares) depth 12

module _ {W : Type 0} ⦃store : ObjectStore W⦄ ⦃fs : FsBackend W⦄ where
  -- The poll spares a file that is leased or has an operation in the queue: what the cache knows of the
  -- file stays, and so do all leases and the queue, whatever the store lists and whatever fails.
  pub poll_inbound-Same :
      (p : Name) (s : Manager W) → is_ours s p ≡ true → Same p s (poll_inbound s).1
  poll_inbound-Same p s h = poll_inbound-Spares.same s h
