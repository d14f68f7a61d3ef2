-- ===== src/Fs/Invariant/Opens.antt =====
-- The ways to open a file, and `close`, keep the state well formed.
use monaka_fs.Prelude.{
  ℕ, ◌+◌, ◌^◌, ◌<◌, ◌≡◌, refl, sym, inl, inr, ◌⊎◌, Option-cases, ap, true, false, List, [], ◌∷◌,
  none, some, arith, ◌==◌, ◌||◌,
}
use mathlib.Core.Path.{subst}
use monaka_fs.Key.{Name, nat_key}
use monaka_fs.Map
use monaka_fs.Path
use monaka_fs.Path.{starts_with_slash, components, split, non_empty, parents, last}
use monaka_fs.Error.{Result, ok, err, not_found, already_exists}
use monaka_fs.Time.{TimeProvider}
use monaka_fs.Inode.{
  FileContent, FileHandle, file, dir, is_file, has, access_mode, o_rdonly, o_wronly, o_rdwr,
  o_creat, o_excl, o_trunc,
}
use monaka_fs.Storage
use monaka_fs.Storage.View.{IsValid}
use monaka_fs.Storage.Truncate.{truncate_lem, truncate-IsValid}
use monaka_fs.Fs.{Fs, InodeRef, fd_remove, find_inode}
use monaka_fs.Fs.Exec.{◌>>=◌}
use monaka_fs.Fs.Create.{create_inode}
use monaka_fs.Fs.Open.{
  created, found_or_created, find_or_create, check_access, truncate_content, truncate_on_open,
  open_from, open_comps, open_comps_at, open_under, open_at, open_path_with_flags, close,
}
use monaka_fs.Fs.Invariant.{Table, has_dir, IsWellFormed, IsRef}
use monaka_fs.Fs.Invariant.Tables.{fd_remove-IsWellFormed}
use monaka_fs.Fs.Invariant.Rules.{
  Post, Post-fail, Post-pure, Ensures, Any, Ensures-pure, Ensures-fail, Ensures-if, Ensures-bind,
  Ensures-query, Ensures-weaken, IsRef-inode_get,
}
use monaka_fs.Fs.Invariant.Lookups.{IsRef-get_root, IsRef-find_inode, IsRef-walk, enter-eq}
use monaka_fs.Fs.Invariant.Steps.{
  storage-IsValid, UpToDate, create_inode-Ensures, store_file-Ensures, open_handle-Ensures,
}

contains-IsRef :
    {T : Type 0} (s : Fs T) (r : InodeRef) → IsRef s r → Map.contains_key s.inode_table r.key ≡ true
contains-IsRef s r h = ground arith

contains-has_dir :
    (table : Table) (id : ℕ) → has_dir table id ≡ true → Map.contains_key table id ≡ true
contains-has_dir table id h = ground arith

module _ {T : Type 0} ⦃time : TimeProvider T⦄ where
  created-Post :
      (b : ℕ) (parent : InodeRef) (name : Name) (flags : ℕ) (r : Result InodeRef) (s : Fs T)
      → Post b UpToDate (r, s)
      → Post b UpToDate (created parent name flags r s)
  unfolding ◌>>=◌
  created-Post b parent name flags (ok r) s p = p
  created-Post b parent name flags (err already_exists) s p =
      (Ensures-if (has flags o_excl) (λ h. Ensures-fail _ p.wf p.spent)
        (λ h. record {
          post = record {
            wf = p.wf;
            spent = p.spent;
            result = λ q e. IsRef-find_inode s parent name q e;
          };
        })).post
  created-Post b parent name flags (err _) s p = Post-fail _ _ _ s p.wf p.spent

  module _ (s : Fs T) (w : IsWellFormed s) where
    found_or_created-Ensures :
        (parent : InodeRef) (name : Name) (flags : ℕ) (r : Result InodeRef)
        → IsRef s parent
        → s.next_inode + 1 < 2 ^ 64
        → ((q : InodeRef) → r ≡ ok q → IsRef s q)
        → Ensures (s.next_inode + 1) UpToDate (found_or_created parent name flags r) s
    found_or_created-Ensures parent name flags (ok r) ref room h =
        Ensures-pure r w (omega arith) (h r refl)
    found_or_created-Ensures parent name flags (err not_found) ref room h =
        Ensures-if (has flags o_creat)
          (λ e. record {
            post =
                created-Post _ parent name flags (create_inode parent name false s).0
                  (create_inode parent name false s).1
                  (create_inode-Ensures s w parent ref name false room).post;
          })
          (λ e. Ensures-fail _ w (omega arith))
    found_or_created-Ensures parent name flags (err _) ref room h = Ensures-fail _ w (omega arith)

    find_or_create-Ensures :
        (parent : InodeRef) (name : Name) (flags : ℕ)
        → IsRef s parent
        → s.next_inode + 1 < 2 ^ 64
        → Ensures (s.next_inode + 1) UpToDate (find_or_create parent name flags) s
    unfolding find_or_create
    find_or_create-Ensures parent name flags ref room = record {
      post =
          (found_or_created-Ensures parent name flags (find_inode s parent name) ref room
            (λ q e. IsRef-find_inode s parent name q e)).post;
    }

    check_access-Ensures :
        (r : InodeRef) (flags : ℕ)
        → IsRef s r
        → Ensures s.next_inode (λ a s'. IsRef s' r) (check_access r flags) s
    unfolding check_access
    check_access-Ensures r flags ref =
        Ensures-if (is_file r.inode.content) (λ e. Ensures-pure tt w (omega arith) ref)
          λ e.
            Ensures-if (access_mode flags == o_wronly || access_mode flags == o_rdwr)
              (λ e. Ensures-fail _ w (omega arith))
              λ e.
                Ensures-if (has flags o_trunc) (λ e. Ensures-fail _ w (omega arith))
                  λ e. Ensures-pure tt w (omega arith) ref

    truncate_content-Ensures :
        (r : InodeRef) (c : FileContent)
        → IsRef s r
        → r.inode.content ≡ c
        → Ensures s.next_inode
            (λ a s'. Map.contains_key s'.inode_table r.key ≡ true)
            (truncate_content r c)
            s
    truncate_content-Ensures r (dir entries) ref e =
        Ensures-pure tt w (omega arith) (contains-IsRef s r ref)
    truncate_content-Ensures r (file storage) ref e =
        store_file-Ensures s w r ref (Storage.truncate storage 0) 0 (ap is_file e)
          (truncate-IsValid storage 0 valid (omega arith)) (sym (truncate_lem storage 0 valid).0)
      where
        valid : IsValid storage
        valid = (storage-IsValid s r storage w ref e).0

    truncate_on_open-Ensures :
        (r : InodeRef) (flags : ℕ)
        → IsRef s r
        → Ensures s.next_inode
            (λ a s'. Map.contains_key s'.inode_table r.key ≡ true)
            (truncate_on_open r flags)
            s
    unfolding truncate_on_open
    truncate_on_open-Ensures r flags ref =
        Ensures-if (has flags o_trunc)
          (λ e.
            Ensures-if (access_mode flags == o_rdonly) (λ e. Ensures-fail _ w (omega arith))
              (λ e. truncate_content-Ensures r r.inode.content ref refl))
          (λ e. Ensures-pure tt w (omega arith) (contains-IsRef s r ref))

  -- Opening keeps the state well formed and uses one inode id at most.
  pub open_from-Ensures :
      (s : Fs T) (start : InodeRef) (comps : List Name) (flags : ℕ)
      → IsWellFormed s
      → IsRef s start
      → s.next_inode + 1 < 2 ^ 64
      → Ensures (s.next_inode + 1) Any (open_from start comps flags) s
  unfolding open_from
  open_from-Ensures s start comps flags w ref room =
      Ensures-query _ _ w (omega arith) λ parent walked.
        Ensures-bind _ _ (omega arith)
          (find_or_create-Ensures s w parent (last comps) flags
            (IsRef-walk s start (parents comps) parent ref walked) room)
          λ r s1 w1 le1 ref1.
            Ensures-bind _ _ le1 (check_access-Ensures s1 w1 r flags ref1) λ _ s2 w2 le2 ref2.
              Ensures-bind _ _ (omega arith) (truncate_on_open-Ensures s2 w2 r flags ref2)
                λ _ s3 w3 le3 c. Ensures-weaken _ (omega arith) (
                  open_handle-Ensures s3 r.inode.id flags w3
                    (rw ((w2.inodes r.key r.inode ref2).id) c))

  open_comps_at-Ensures :
      (s : Fs T) (start : InodeRef) (comps : List Name) (flags : ℕ)
      → IsWellFormed s
      → IsRef s start
      → s.next_inode + 1 < 2 ^ 64
      → Ensures (s.next_inode + 1) Any (open_comps_at start comps flags) s
  unfolding open_comps_at
  open_comps_at-Ensures s start [] flags w ref room = Ensures-fail _ w (omega arith)
  open_comps_at-Ensures s start (comp ∷ comps) flags w ref room =
      open_from-Ensures s start (comp ∷ comps) flags w ref room

  open_under-Ensures :
      (s : Fs T) (dir_fd : ℕ) (path : Name) (flags : ℕ)
      → IsWellFormed s
      → s.next_inode + 1 < 2 ^ 64
      → Ensures (s.next_inode + 1) Any (open_under dir_fd path flags) s
  unfolding open_under
  open_under-Ensures s dir_fd path flags w room = Ensures-query _ _ w (omega arith) λ handle h1.
      Ensures-query _ _ w (omega arith) λ start h2.
        Ensures-query _ _ w (omega arith) λ start_dir h3.
          Ensures-if (Path.is_empty path) (λ e. Ensures-fail _ w (omega arith))
            λ e.
              open_comps_at-Ensures s start_dir (non_empty (split path)) flags w
                (subst (IsRef s) (enter-eq start start_dir h3)
                  (IsRef-inode_get s handle.inode_id _ start h2))
                room

  pub open_at-Ensures :
      (s : Fs T) (dir_fd : ℕ) (path : Name) (flags : ℕ)
      → IsWellFormed s
      → s.next_inode + 1 < 2 ^ 64
      → Ensures (s.next_inode + 1) Any (open_at dir_fd path flags) s
  unfolding open_at
  open_at-Ensures s dir_fd path flags w room =
      Ensures-if (starts_with_slash path) (λ e. Ensures-fail _ w (omega arith))
        (λ e. open_under-Ensures s dir_fd path flags w room)

  open_comps-Ensures :
      (s : Fs T) (comps : List Name) (flags : ℕ)
      → IsWellFormed s
      → s.next_inode + 1 < 2 ^ 64
      → Ensures (s.next_inode + 1) Any (open_comps comps flags) s
  unfolding open_comps
  open_comps-Ensures s [] flags w room = record {
    post =
        (Ensures-weaken _ (omega arith) (
          open_handle-Ensures s s.root_inode flags w
            (contains-has_dir s.inode_table s.root_inode w.root))).post;
  }
  open_comps-Ensures s (comp ∷ comps) flags w room =
      Ensures-query _ _ w (omega arith)
        λ root h. open_from-Ensures s root (comp ∷ comps) flags w (IsRef-get_root s root h) room

  pub open_path_with_flags-Ensures :
      (s : Fs T) (path : Name) (flags : ℕ)
      → IsWellFormed s
      → s.next_inode + 1 < 2 ^ 64
      → Ensures (s.next_inode + 1) Any (open_path_with_flags path flags) s
  unfolding open_path_with_flags
  open_path_with_flags-Ensures s path flags w room =
      Ensures-if (Path.is_empty path) (λ e. Ensures-fail _ w (omega arith))
        (λ e. open_comps-Ensures s (components path) flags w room)

pub close-Ensures :
    {T : Type 0} (s : Fs T) (fd : ℕ) → IsWellFormed s → Ensures s.next_inode Any (close fd) s
unfolding close
close-Ensures s fd w = record { post = go (Option-cases (Map.get s.fd_table fd)) }
  where
    go :
        (Map.get s.fd_table fd ≡ none) ⊎ ((h : FileHandle) × (Map.get s.fd_table fd ≡ some h))
        → Post s.next_inode Any (close fd s)
    go (inl e) = rw (e, close) (Post-fail _ Any _ s w (omega arith))
    go (inr (h, e)) =
        rw (e, close)
          (Post-pure _ Any tt _ (fd_remove-IsWellFormed s fd w) (unfold fd_remove in omega arith)
            tt)
