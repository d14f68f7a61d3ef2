-- ===== src/Fs/Behaviour/Removal.antt =====
-- `unlink` and `rmdir`: the entry goes, the inode stays in the table.
use mathlib.Core.Path.{subst}
use monaka_fs.Prelude.{
  ℕ, ◌≡◌, refl, sym, ◌∙◌, ap, inl, inr, true, false, List, [], ◌∷◌, Option, none, some, arith, ◌==◌,
  if◌then◌else◌, Bool-cases, ==_iff,
}
use monaka_fs.Key.{Name, nat_key, name_key, name_eq}
use monaka_fs.Map
use monaka_fs.Map.{Map, get-insert, get-insert_self, get-remove, get-nil}
use monaka_fs.Path
use monaka_fs.Path.{components, parents, last}
use monaka_fs.Error.{Result, ok, invalid_argument}
use monaka_fs.Time.{TimeProvider}
use monaka_fs.Inode.{Inode, FileContent, file, dir, is_file}
use monaka_fs.Fs.{Fs, InodeRef, find_inode, inode_insert}
use monaka_fs.Fs.Exec.{◌>>=◌, fail, query-ok}
use monaka_fs.Fs.Create.{now, store_entries, touched}
use monaka_fs.Fs.Remove.{
  check_file, check_empty_dir, remove_from, remove_entry, remove_comps, unlink, rmdir,
}
use monaka_fs.Fs.Invariant.{IsRef}
use monaka_fs.Fs.Invariant.Lookups.{IsRef-get_root, IsRef-walk, IsRef-find_inode}
use monaka_fs.Fs.Behaviour.Opening.{IsAt}
use monaka_fs.Fs.Behaviour.Failures.Rename.{find_in-entry}

abbrev pub entry_of : Name → Option Inode → Option ℕ
entry_of name none = none
entry_of name (some i) = elim i.content [ file storage ↦ none | dir entries ↦ Map.get entries name ]

abbrev pub entries_get : Name → FileContent → Option ℕ
entries_get name c = elim c [ file storage ↦ none | dir entries ↦ Map.get entries name ]

-- The entry `name` of the directory under an inode id.
abbrev pub entry_at : {T : Type 0} → Fs T → ℕ → Name → Option ℕ
entry_at s id name = entry_of name (Map.get s.inode_table id)

-- The entry is gone, every other entry and every inode but the directory's is as before, the target
-- itself is still in the table, and so are the descriptors.
pub record Removed {T : Type 0} (s : Fs T) (parent r : InodeRef) (name : Name)
    (out : Result (Unit {0}) × Fs T) : Type 0 where
  pub result : out.0 ≡ ok tt
  pub gone : entry_at out.1 parent.key name ≡ none
  pub other_entries :
      (n : Name) → name_eq name n ≡ false → entry_at out.1 parent.key n ≡ entry_at s parent.key n
  pub other_inodes :
      (k : ℕ) → (parent.key == k) ≡ false → Map.get out.1.inode_table k ≡ Map.get s.inode_table k
  pub target_stays : Map.get out.1.inode_table r.key ≡ some r.inode
  pub handles : out.1.fd_table ≡ s.fd_table

module _ {T : Type 0} ⦃time : TimeProvider T⦄ (s : Fs T) (path : Name) (root parent r : InodeRef)
    (comp : Name) (comps : List Name) (at_path : IsAt s path root parent r comp comps) where
  abbrev name : Name
  name = last (comp ∷ comps)

  parent-IsRef : IsRef s parent
  parent-IsRef =
      IsRef-walk s root _ parent (IsRef-get_root s root at_path.root_is) at_path.parent_is

  target-IsRef : IsRef s r
  target-IsRef = IsRef-find_inode s parent name r at_path.target_is

  parent-entry :
      (entries : Map Name ℕ) × (id : ℕ) × (parent.inode.content ≡ dir entries)
      × (Map.get entries name ≡ some id)
  unfolding find_inode
  parent-entry = find_in-entry s parent.inode.content name r at_path.target_is

  abbrev stamped : Map Name ℕ → Inode
  stamped entries = record (touched parent.inode (time.now s.time_provider).0) {
    content = dir (Map.remove entries name);
  }

  abbrev left : Map Name ℕ → Fs T
  left entries = record s {
    inode_table = Map.insert s.inode_table parent.key (stamped entries);
    time_provider = (time.now s.time_provider).1;
  }

  remove_entry-left :
      (entries : Map Name ℕ)
      → parent.inode.content ≡ dir entries
      → remove_entry parent name s ≡ (ok tt, left entries)
  unfolding remove_entry now store_entries inode_insert ◌>>=◌
  remove_entry-left entries e = ap (λ c. remove_from parent c name s) e

  Removed-left :
      (entries : Map Name ℕ)
      → parent.inode.content ≡ dir entries
      → (parent.key == r.key) ≡ false
      → Removed s parent r name (ok tt, left entries)
  Removed-left entries e ne = record {
    result = refl;
    gone =
        ap (entry_of name) (get-insert_self s.inode_table parent.key (stamped entries))
        ∙ ground (arith, get-remove entries name name, name_key.beq_iff name name);
    other_entries = λ n d.
        ap (entry_of n) (get-insert_self s.inode_table parent.key (stamped entries))
        ∙ ground (arith, get-remove entries name n)
        ∙ sym (ap (entry_of n) parent-IsRef ∙ ap (entries_get n) e);
    other_inodes = λ k d. ground (arith, get-insert s.inode_table parent.key k (stamped entries));
    target_stays =
        ground (arith, target-IsRef, get-insert s.inode_table parent.key r.key (stamped entries));
    handles = refl;
  }

  remove_comps-Removed :
      (check : FileContent → Result (Unit {0}))
      → check r.inode.content ≡ ok tt
      → (parent.key == r.key) ≡ false
      → Removed s parent r name (remove_comps check (comp ∷ comps) s)
  unfolding remove_comps
  remove_comps-Removed check c ne =
      let (entries, id, e, g) = parent-entry in
      subst (Removed s parent r name)
        (sym (
          query-ok _ _ s root at_path.root_is
          ∙ query-ok _ _ s parent at_path.parent_is
          ∙ query-ok _ _ s r at_path.target_is
          ∙ query-ok _ _ s tt c
          ∙ remove_entry-left entries e))
        (Removed-left entries e ne)

  keys-differ :
      ((entries : Map Name ℕ) (id : ℕ)
        → r.inode.content ≡ dir entries
        → ¬ (Map.get entries name ≡ some id))
      → (parent.key == r.key) ≡ false
  keys-differ not_entry = elim (Bool-cases (parent.key == r.key)) [
    | inr e ↦ e
    | inl e ↦
        let (entries, id, c, g) = parent-entry in
        absurd (
          not_entry entries id
            (ap (λ x. x.content) (sym (same ((==_iff parent.key r.key).0 e))) ∙ c) g)
  ]
    where
      some-injective : {x y : Inode} → some x ≡ some y → x ≡ y
      some-injective e = cc

      same : parent.key ≡ r.key → parent.inode ≡ r.inode
      same e = some-injective (sym parent-IsRef ∙ ap (Map.get s.inode_table) e ∙ target-IsRef)

  at_comps :
      (check : FileContent → Result (Unit {0}))
      → (if Path.is_empty path then fail invalid_argument else remove_comps check (components path))
          s
        ≡ remove_comps check (comp ∷ comps) s
  at_comps check =
      ap (λ b. (if b then fail invalid_argument else remove_comps check (components path)) s)
        at_path.given
      ∙ ap (λ cs. remove_comps check cs s) at_path.split

  -- On a path that leads to a file `unlink` succeeds: the entry is gone, every other entry of its
  -- directory and every inode but that directory's are as before, the file stays in the inode table with
  -- its data, and the descriptors stay open.
  pub unlink-Removed :
      is_file r.inode.content ≡ true → Removed s parent r (last (comp ∷ comps)) (unlink path s)
  unfolding unlink
  unlink-Removed f = subst (Removed s parent r name) (sym (at_comps check_file)) (
      remove_comps-Removed check_file (ground (arith, f))
        (keys-differ λ entries id c g. cc (ap is_file c)))

  -- On a path that leads to an empty directory `rmdir` succeeds: the entry is gone, every other entry of
  -- the directory that it was in and every inode but that directory's are as before, the removed directory
  -- stays in the inode table, and the descriptors stay.
  pub rmdir-Removed :
      r.inode.content ≡ dir [] → Removed s parent r (last (comp ∷ comps)) (rmdir path s)
  unfolding rmdir
  rmdir-Removed f = subst (Removed s parent r name) (sym (at_comps check_empty_dir)) (
      remove_comps-Removed check_empty_dir (ap check_empty_dir f) (
        keys-differ λ entries id c g. cc (ap (entries_get name) (sym c ∙ f), get-nil {V = ℕ} name)))
