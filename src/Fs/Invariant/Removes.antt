-- ===== src/Fs/Invariant/Removes.antt =====
-- `unlink`, `rmdir` and `rename` keep the state well formed.
use mathlib.Core.Path.{subst}
use monaka_fs.Prelude.{
  ℕ, ◌≡◌, ◌≢◌, refl, ap, inl, inr, true, false, List, [], ◌∷◌, Option, none, some, arith, ◌==◌,
  ◌||◌,
}
use monaka_fs.Key.{Name, nat_key, name_key}
use monaka_fs.Map
use monaka_fs.Map.{Map, get-insert, get-insert_cases, get-remove-some}
use monaka_fs.Path
use monaka_fs.Path.{components, parents, last}
use monaka_fs.Error.{Result}
use monaka_fs.Time.{TimeProvider}
use monaka_fs.Inode.{FileContent, file, dir, is_file}
use monaka_fs.Fs.{Fs, InodeRef}
use monaka_fs.Fs.Create.{now}
use monaka_fs.Fs.Remove.{
  check_file, check_empty_dir, remove_from, remove_entry, remove_comps, unlink, rmdir,
}
use monaka_fs.Fs.Rename.{
  comps_eq, reinsert, rename_in, rename_within, move_to, move_entry, move_from, rename_across,
  rename_comps, rename,
}
use monaka_fs.Fs.Invariant.{Table, IsLinked, IsWellFormed, IsRef}
use monaka_fs.Fs.Invariant.Rules.{
  Ensures, Any, Ensures-pure, Ensures-fail, Ensures-if, Ensures-bind, Ensures-query, Ensures-weaken,
  Ensures-forget,
}
use monaka_fs.Fs.Invariant.Lookups.{IsRef-get_root, IsRef-walk}
use monaka_fs.Fs.Invariant.Steps.{
  with_time-IsWellFormed, store_entries-Ensures, dir-IsLinked, stored,
}

IsLinked-remove :
    (table : Table) (entries : Map Name ℕ) (name : Name)
    → IsLinked table (dir entries)
    → IsLinked table (dir (Map.remove entries name))
IsLinked-remove table entries name h n k e = h n k (get-remove-some entries name n k e)

IsLinked-add :
    (table : Table) (entries : Map Name ℕ) (name : Name) (id : ℕ)
    → IsLinked table (dir entries)
    → Map.contains_key table id ≡ true
    → IsLinked table (dir (Map.insert entries name id))
IsLinked-add table entries name id h c n k e = elim (get-insert_cases entries name n id k e) [
  | inl (p, q) ↦ subst (λ x. Map.contains_key table x ≡ true) q c
  | inr old ↦ h n k old
]

entries-IsLinked :
    {T : Type 0} (s : Fs T) (r : InodeRef) (entries : Map Name ℕ)
    → IsWellFormed s
    → IsRef s r
    → r.inode.content ≡ dir entries
    → IsLinked s.inode_table (dir entries)
entries-IsLinked s r entries w ref e =
    dir-IsLinked s.inode_table r.inode.content entries e (w.inodes r.key r.inode ref).linked

-- A time stamp changes the clock alone.
SameTables : {T : Type 0} → Fs T → ℕ → Fs T → Type 0
SameTables s t s' = (s'.inode_table ≡ s.inode_table) × (s'.next_inode ≡ s.next_inode)

module _ {T : Type 0} ⦃time : TimeProvider T⦄ where
  now-Ensures : (s : Fs T) → IsWellFormed s → Ensures s.next_inode (SameTables s) now s
  unfolding now SameTables
  now-Ensures s w = record {
    post = record {
      wf = with_time-IsWellFormed s w _;
      spent = omega arith;
      result = λ t e. (refl, refl);
    };
  }

  remove_from-Ensures :
      (s : Fs T) (parent : InodeRef) (c : FileContent) (name : Name)
      → IsWellFormed s
      → IsRef s parent
      → parent.inode.content ≡ c
      → Ensures s.next_inode Any (remove_from parent c name) s
  unfolding SameTables
  remove_from-Ensures s parent (file storage) name w ref e = Ensures-fail _ w (omega arith)
  remove_from-Ensures s parent (dir entries) name w ref e =
      Ensures-bind _ _ (omega arith) (now-Ensures s w) λ t s1 w1 le1 same.
        let ref1 : IsRef s1 parent = rw (same.0) ref in
        Ensures-forget _ (
          Ensures-weaken _ le1 (
            store_entries-Ensures s1 w1 parent ref1 (Map.remove entries name) t (ap is_file e) (
              IsLinked-remove s1.inode_table entries name
                (entries-IsLinked s1 parent entries w1 ref1 e))))

  remove_comps-Ensures :
      (s : Fs T) (check : FileContent → Result (Unit {0})) (comps : List Name)
      → IsWellFormed s
      → Ensures s.next_inode Any (remove_comps check comps) s
  unfolding remove_comps remove_entry
  remove_comps-Ensures s check [] w = Ensures-fail _ w (omega arith)
  remove_comps-Ensures s check (comp ∷ comps) w = Ensures-query _ _ w (omega arith) λ root h.
      Ensures-query _ _ w (omega arith) λ parent walked.
        Ensures-query _ _ w (omega arith) λ target found.
          Ensures-query _ _ w (omega arith) λ _ checked.
            remove_from-Ensures s parent parent.inode.content (last (comp ∷ comps)) w
              (IsRef-walk s root _ parent (IsRef-get_root s root h) walked) refl

  pub unlink-Ensures :
      (s : Fs T) (path : Name) → IsWellFormed s → Ensures s.next_inode Any (unlink path) s
  unfolding unlink
  unlink-Ensures s path w =
      Ensures-if (Path.is_empty path) (λ e. Ensures-fail _ w (omega arith))
        (λ e. remove_comps-Ensures s check_file (components path) w)

  pub rmdir-Ensures :
      (s : Fs T) (path : Name) → IsWellFormed s → Ensures s.next_inode Any (rmdir path) s
  unfolding rmdir
  rmdir-Ensures s path w =
      Ensures-if (Path.is_empty path) (λ e. Ensures-fail _ w (omega arith))
        (λ e. remove_comps-Ensures s check_empty_dir (components path) w)

  module _ (s : Fs T) (w : IsWellFormed s) (old_name new_name : Name) (t : ℕ) where
    reinsert-Ensures :
        (parent : InodeRef) (entries : Map Name ℕ) (o : Option ℕ)
        → IsRef s parent
        → parent.inode.content ≡ dir entries
        → Map.get entries old_name ≡ o
        → Ensures s.next_inode Any (reinsert parent entries old_name new_name t o) s
    reinsert-Ensures parent entries none ref e h = Ensures-fail _ w (omega arith)
    reinsert-Ensures parent entries (some id) ref e h = Ensures-forget _ (
        store_entries-Ensures s w parent ref _ t (ap is_file e) (
          IsLinked-add s.inode_table (Map.remove entries old_name) new_name id
            (IsLinked-remove s.inode_table entries old_name linked) (linked old_name id h)))
      where
        linked : IsLinked s.inode_table (dir entries)
        linked = entries-IsLinked s parent entries w ref e

    rename_in-Ensures :
        (parent : InodeRef) (c : FileContent)
        → IsRef s parent
        → parent.inode.content ≡ c
        → Ensures s.next_inode Any (rename_in parent c old_name new_name t) s
    rename_in-Ensures parent (file storage) ref e = Ensures-fail _ w (omega arith)
    rename_in-Ensures parent (dir entries) ref e =
        reinsert-Ensures parent entries (Map.get entries old_name) ref e refl

  move_to-Ensures :
      (s : Fs T) (parent : InodeRef) (c : FileContent) (name : Name) (id t : ℕ)
      → IsWellFormed s
      → IsRef s parent
      → parent.inode.content ≡ c
      → Map.contains_key s.inode_table id ≡ true
      → Ensures s.next_inode Any (move_to parent c name id t) s
  move_to-Ensures s parent (file storage) name id t w ref e c = Ensures-fail _ w (omega arith)
  move_to-Ensures s parent (dir entries) name id t w ref e c = Ensures-forget _ (
      store_entries-Ensures s w parent ref _ t (ap is_file e)
        (IsLinked-add s.inode_table entries name id (entries-IsLinked s parent entries w ref e) c))

  module _ (s : Fs T) (w : IsWellFormed s) (old_parent new_parent : InodeRef)
      (ref : IsRef s old_parent) (ref' : IsRef s new_parent)
      (apart : old_parent.key ≢ new_parent.key) (old_name new_name : Name) (t : ℕ) where
    move_entry-Ensures :
        (entries : Map Name ℕ) (o : Option ℕ)
        → old_parent.inode.content ≡ dir entries
        → Map.get entries old_name ≡ o
        → Ensures s.next_inode Any
            (move_entry old_parent new_parent entries old_name new_name t o)
            s
    move_entry-Ensures entries none e h = Ensures-fail _ w (omega arith)
    move_entry-Ensures entries (some id) e h =
        Ensures-bind _ _ (omega arith)
          (store_entries-Ensures s w old_parent ref _ t (ap is_file e)
            (IsLinked-remove s.inode_table entries old_name linked))
          λ _ s1 w1 le1 same. Ensures-weaken _ le1 (
            move_to-Ensures s1 new_parent new_parent.inode.content new_name id t w1 (kept s1 same)
              refl (still s1 same))
      where
        linked : IsLinked s.inode_table (dir entries)
        linked = entries-IsLinked s old_parent entries w ref e

        kept :
            (s1 : Fs T)
            → s1.inode_table
              ≡ Map.insert s.inode_table old_parent.key
                  (stored old_parent (Map.remove entries old_name) t)
            → IsRef s1 new_parent
        kept s1 same = ground (
          arith,
          same,
          get-insert s.inode_table old_parent.key new_parent.key
              (stored old_parent (Map.remove entries old_name) t),
        )

        still :
            (s1 : Fs T)
            → s1.inode_table
              ≡ Map.insert s.inode_table old_parent.key
                  (stored old_parent (Map.remove entries old_name) t)
            → Map.contains_key s1.inode_table id ≡ true
        still s1 same = ground (
          arith,
          same,
          linked old_name id h,
          get-insert s.inode_table old_parent.key id
              (stored old_parent (Map.remove entries old_name) t),
        )

    rename_across-Ensures :
        Ensures s.next_inode Any (rename_across old_parent new_parent old_name new_name t) s
    unfolding rename_across
    rename_across-Ensures = go old_parent.inode.content refl
      where
        go :
            (c : FileContent)
            → old_parent.inode.content ≡ c
            → Ensures s.next_inode Any (move_from old_parent new_parent c old_name new_name t) s
        go (file storage) e = Ensures-fail _ w (omega arith)
        go (dir entries) e = move_entry-Ensures entries (Map.get entries old_name) e refl

  -- Two references with other ids are to other keys.
  apart :
      (s : Fs T) (a b : InodeRef)
      → IsRef s a
      → IsRef s b
      → (a.inode.id == b.inode.id) ≡ false
      → a.key ≢ b.key
  apart s a b ra rb e k = ground (arith, ra, rb, k, e, ap (λ x. Map.get s.inode_table x) k)

  rename_comps-Ensures :
      (s : Fs T) (old_comps new_comps : List Name)
      → IsWellFormed s
      → Ensures s.next_inode Any (rename_comps old_comps new_comps) s
  unfolding rename_comps rename_within SameTables
  rename_comps-Ensures s old_comps new_comps w = Ensures-query _ _ w (omega arith) λ root h.
      Ensures-query _ _ w (omega arith) λ old_parent h1.
        Ensures-query _ _ w (omega arith) λ source h2.
          Ensures-query _ _ w (omega arith) λ new_parent h3.
            Ensures-query _ _ w (omega arith) λ _ h4.
              Ensures-bind _ _ (omega arith) (now-Ensures s w) λ t s1 w1 le1 same.
                let ref : IsRef s1 old_parent =
                  rw (same.0) (IsRef-walk s root _ old_parent (IsRef-get_root s root h) h1) in
                let ref' : IsRef s1 new_parent =
                  rw (same.0) (IsRef-walk s root _ new_parent (IsRef-get_root s root h) h3) in
                Ensures-weaken _ le1 (
                  Ensures-if (old_parent.inode.id == new_parent.inode.id)
                    (λ e.
                      rename_in-Ensures s1 w1 (last old_comps) (last new_comps) t old_parent
                        old_parent.inode.content ref refl)
                    (λ e.
                      rename_across-Ensures s1 w1 old_parent new_parent ref ref'
                        (apart s1 old_parent new_parent ref ref' e) (last old_comps)
                        (last new_comps) t))

  pub rename-Ensures :
      (s : Fs T) (old_path new_path : Name)
      → IsWellFormed s
      → Ensures s.next_inode Any (rename old_path new_path) s
  unfolding rename
  rename-Ensures s old_path new_path w =
      Ensures-if (Path.is_empty old_path || Path.is_empty new_path)
        (λ e. Ensures-fail _ w (omega arith))
        λ e.
          Ensures-if (comps_eq (components old_path) [] || comps_eq (components new_path) [])
            (λ e. Ensures-fail _ w (omega arith))
            λ e.
              Ensures-if (comps_eq (components old_path) (components new_path))
                (λ e. Ensures-pure tt w (omega arith) tt)
                λ e. rename_comps-Ensures s (components old_path) (components new_path) w
