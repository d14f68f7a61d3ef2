-- ===== src/Fs/Behaviour/Making.antt =====
-- `mkdir` of a name that is not there.
use mathlib.Core.Path.{subst}
use monaka_fs.Prelude.{
  ℕ, ◌+◌, ◌<◌, ◌^◌, ◌≡◌, refl, sym, ◌∙◌, ap, inl, inr, true, false, List, [], ◌∷◌, none, some, ◌&&◌,
  ◌%◌, arith, ◌==◌, ==_iff, if◌then◌else◌, Bool-cases,
}
use monaka_fs.Key.{Name, nat_key, name_key, name_eq}
use monaka_fs.Map
use monaka_fs.Map.{Map, get-insert, get-insert_self, get-nil}
use monaka_fs.Path.{components, last}
use monaka_fs.Error.{Result, ok, invalid_argument, already_exists}
use monaka_fs.Time.{TimeProvider}
use monaka_fs.Inode.{Inode, dir}
use monaka_fs.Fs.{Fs, InodeRef, inode_insert, get_root}
use monaka_fs.Fs.Exec.{◌>>=◌, pure, fail, query-ok, >>=-ok}
use monaka_fs.Fs.Create.{
  touched, now, store_entries, allocate_inode, insert_new, create_in, create_inode, fresh_inode,
}
use monaka_fs.Fs.Dirs.{mkdir, mkdir_comps}
use monaka_fs.Fs.Invariant.{IsWellFormed, IsRef}
use monaka_fs.Fs.Invariant.Lookups.{IsRef-get_root, IsRef-walk}
use monaka_fs.Fs.Behaviour.Removal.{entry_of, entries_get, entry_at}
use monaka_fs.Fs.Behaviour.Failures.Rename.{walk-dir, get_root-dir}
use monaka_fs.Fs.Behaviour.Writes.{facts_at}
use monaka_fs.Fs.Behaviour.Renaming.{IsPlace, stamped_facts}
use monaka_fs.Fs.Behaviour.Renaming.Paths.{dir_of}

-- The next inode id is that of a new directory, empty, with the time of now, and under the name in
-- `parent` there is that id; every other entry of every directory that was there is as before. Of the
-- parent's metadata only the time of change is new; every other inode, the descriptors and the root stay.
pub record Made {T : Type 0} ⦃time : TimeProvider T⦄ (s : Fs T) (parent : InodeRef) (name : Name)
    (out : Result (Unit {0}) × Fs T) : Type 0 where
  pub result : out.0 ≡ ok tt
  pub fresh :
      Map.get out.1.inode_table s.next_inode
      ≡ some (record {
        id = s.next_inode;
        metadata = record {
          size = 0;
          created = (time.now s.time_provider).0;
          modified = (time.now s.time_provider).0;
          permissions = 0o755;
          is_dir = true;
        };
        content = dir [];
      })
  pub entries :
      (k : ℕ) (n : Name)
      → (s.next_inode == k) ≡ false
      → entry_at out.1 k n
        ≡ (if (parent.key == k) && name_eq name n then some s.next_inode else entry_at s k n)
  pub parent_facts :
      facts_at out.1 parent.key ≡ some (stamped_facts parent.inode (time.now s.time_provider).0)
  pub other_inodes :
      (k : ℕ)
      → (parent.key == k) ≡ false
      → (s.next_inode == k) ≡ false
      → Map.get out.1.inode_table k ≡ Map.get s.inode_table k
  pub next_inode : out.1.next_inode ≡ s.next_inode + 1
  pub handles : out.1.fd_table ≡ s.fd_table
  pub next_fd : out.1.next_fd ≡ s.next_fd
  pub root : out.1.root_inode ≡ s.root_inode
  pub clock : out.1.time_provider ≡ (time.now s.time_provider).1

module _ {T : Type 0} ⦃time : TimeProvider T⦄ (s : Fs T) (w : IsWellFormed s) (path : Name)
    (root parent : InodeRef) (comp : Name) (comps : List Name)
    (to : IsPlace s path root parent comp comps) (root_is : get_root s ≡ ok root) where
  abbrev name : Name
  name = last (comp ∷ comps)

  abbrev stamp : ℕ
  stamp = (time.now s.time_provider).0

  abbrev stamped : Map Name ℕ → Inode
  stamped entries = record (touched parent.inode stamp) {
    content = dir (Map.insert entries name s.next_inode);
  }

  abbrev left : Map Name ℕ → Fs T
  left entries = record s {
    next_inode = (s.next_inode + 1) % 2 ^ 64;
    time_provider = (time.now s.time_provider).1;
    inode_table =
        Map.insert (Map.insert s.inode_table parent.key (stamped entries)) s.next_inode
          (fresh_inode s.next_inode stamp true);
  }

  parent-IsRef : IsRef s parent
  parent-IsRef = IsRef-walk s root _ parent (IsRef-get_root s root root_is) to.parent_is

  create_inode-left :
      (entries : Map Name ℕ)
      → parent.inode.content ≡ dir entries
      → Map.get entries name ≡ none
      → create_inode parent name true s ≡ (
        ok (record { key = s.next_inode; inode = fresh_inode s.next_inode stamp true }),
        left entries,
      )
  unfolding create_inode insert_new allocate_inode now store_entries inode_insert ◌>>=◌
  create_inode-left entries e free =
      ap (λ c. create_in parent c name true s) e
      ∙ ap
          (λ o.
            (if elim o [ none ↦ false | some id ↦ true ]
                then fail already_exists
                else insert_new parent entries name true)
              s)
          free

  not-parent : (s.next_inode == parent.key) ≡ false
  not-parent = let below = (w.inodes parent.key parent.inode parent-IsRef).below in ground arith

  get-left :
      (entries : Map Name ℕ) (k : ℕ)
      → (s.next_inode == k) ≡ false
      → Map.get (left entries).inode_table k
        ≡ (if parent.key == k then some (stamped entries) else Map.get s.inode_table k)
  get-left entries k h =
      get-insert (Map.insert s.inode_table parent.key (stamped entries)) s.next_inode k
        (fresh_inode s.next_inode stamp true)
      ∙ rw h (get-insert s.inode_table parent.key k (stamped entries))

  entries-left :
      (entries : Map Name ℕ) (k : ℕ) (n : Name)
      → parent.inode.content ≡ dir entries
      → (s.next_inode == k) ≡ false
      → entry_at (left entries) k n
        ≡ (if (parent.key == k) && name_eq name n then some s.next_inode else entry_at s k n)
  entries-left entries k n e h =
      ap (entry_of n) (get-left entries k h) ∙ elim (Bool-cases (parent.key == k)) [
        | inr d ↦ rw d refl
        | inl d ↦
            rw
              (
                d,
                get-insert entries name n s.next_inode,
                sym ((==_iff parent.key k).0 d),
                ap (entry_of n) parent-IsRef,
                ap (entries_get n) e,
              )
              refl
      ]

  Made-left :
      (entries : Map Name ℕ)
      → parent.inode.content ≡ dir entries
      → s.next_inode + 1 < 2 ^ 64
      → Made s parent name (ok tt, left entries)
  Made-left entries e room = record {
    result = refl;
    fresh = get-insert_self _ s.next_inode (fresh_inode s.next_inode stamp true);
    entries = λ k n h. entries-left entries k n e h;
    parent_facts =
        ap (λ x. elim x [ none ↦ none | some i ↦ some (i.id, i.metadata) ])
          (get-left entries parent.key not-parent
            ∙ ap (λ b. if b then some (stamped entries) else Map.get s.inode_table parent.key)
                ((==_iff parent.key parent.key).1 refl));
    other_inodes = λ k d h. get-left entries k h ∙ rw d refl;
    next_inode = omega (arith, room);
    handles = refl;
    next_fd = refl;
    root = refl;
    clock = refl;
  }

  mkdir-create :
      (r : InodeRef) (s' : Fs T)
      → create_inode parent name true s ≡ (ok r, s')
      → mkdir path s ≡ (ok tt, s')
  unfolding mkdir mkdir_comps pure
  mkdir-create r s' made =
      ap (λ b. (if b then fail invalid_argument else mkdir_comps (components path)) s) to.given
      ∙ ap (λ cs. mkdir_comps cs s) to.split
      ∙ query-ok _ _ s root root_is
      ∙ query-ok _ _ s parent to.parent_is
      ∙ >>=-ok _ _ s s' r made

  -- `mkdir` in a well-formed file system with inode ids left, on a path that leads to a name that is not
  -- there: the next inode id is that of a new empty directory with the time of now, and the name leads to
  -- it; every other entry of every directory that was there is as before. Of the parent's metadata only
  -- the time of change is new; every other inode, the descriptors, the root and the next descriptor stay.
  pub mkdir-Made :
      s.next_inode + 1 < 2 ^ 64
      → entry_at s parent.key (last (comp ∷ comps)) ≡ none
      → Made s parent (last (comp ∷ comps)) (mkdir path s)
  mkdir-Made room free =
      let (entries, e) =
        dir_of parent.inode.content
          (walk-dir s root _ parent (get_root-dir s root w root_is) to.parent_is) in
      subst (Made s parent name)
        (sym (
          mkdir-create _ (left entries) (
            create_inode-left entries e
              (sym (ap (entry_of name) parent-IsRef ∙ ap (entries_get name) e) ∙ free))))
        (Made-left entries e room)
