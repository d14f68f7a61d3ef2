-- ===== src/Fs/Behaviour/Renaming/Paths.antt =====
-- `rename` of what is there to a place that is free or may be replaced.
use mathlib.Core.Path.{subst}
use monaka_fs.Prelude.{
  ℕ, ◌≡◌, refl, sym, ◌∙◌, ap, inl, inr, Bool, true, false, List, ◌∷◌, some, arith, ◌==◌, ==_iff,
  Bool-cases,
}
use monaka_fs.Key.{Name, nat_key, name_key}
use monaka_fs.Map
use monaka_fs.Map.{Map, get-insert, get-insert_self, get-remove}
use monaka_fs.Path.{last}
use monaka_fs.Error.{Result, ok, err}
use monaka_fs.Time.{TimeProvider}
use monaka_fs.Inode.{Inode, FileContent, file, dir, is_file}
use monaka_fs.Fs.{Fs, InodeRef, find_inode}
use monaka_fs.Fs.Exec.{query-ok}
use monaka_fs.Fs.Rename.{comps_eq, check_dest, rename_comps, rename}
use monaka_fs.Fs.Invariant.{IsWellFormed, IsRef}
use monaka_fs.Fs.Invariant.Lookups.{IsRef-get_root, IsRef-walk}
use monaka_fs.Fs.Behaviour.Opening.{IsAt}
use monaka_fs.Fs.Behaviour.Failures.Rename.{find_in-entry, walk-dir, get_root-dir}
use monaka_fs.Fs.Behaviour.Renaming.{IsReplaceable, IsPlace, Moved}
use monaka_fs.Fs.Behaviour.Renaming.Steps.{
  last_steps, last_steps-within, last_steps-across, Moved-within, Moved-across,
}

pub dir_of : (c : FileContent) → is_file c ≡ false → (entries : Map Name ℕ) × (c ≡ dir entries)
dir_of (file storage) h = absurd cc
dir_of (dir entries) h = (entries, refl)

check_dest-IsReplaceable :
    (source_is_dir : Bool) (found : Result InodeRef)
    → IsReplaceable source_is_dir found
    → check_dest source_is_dir found ≡ ok tt
unfolding check_dest
check_dest-IsReplaceable source_is_dir (err e) h = refl
check_dest-IsReplaceable true (ok dest) h = rw (h.0, h.1 refl) refl
check_dest-IsReplaceable false (ok dest) h = rw h.0 refl

module _ {T : Type 0} ⦃time : TimeProvider T⦄ (s : Fs T) (w : IsWellFormed s)
    (old_path new_path : Name) (root old source new : InodeRef) (comp : Name) (comps : List Name)
    (comp' : Name) (comps' : List Name) (from : IsAt s old_path root old source comp comps)
    (to : IsPlace s new_path root new comp' comps') where
  abbrev old_name : Name
  old_name = last (comp ∷ comps)

  abbrev new_name : Name
  new_name = last (comp' ∷ comps')

  old-IsRef : IsRef s old
  old-IsRef = IsRef-walk s root _ old (IsRef-get_root s root from.root_is) from.parent_is

  new-IsRef : IsRef s new
  new-IsRef = IsRef-walk s root _ new (IsRef-get_root s root from.root_is) to.parent_is

  same_ref : old.key ≡ new.key → old ≡ new
  same_ref e =
      ap (λ k. record { key = k; inode = old.inode }) e
      ∙ ap (λ i. record { key = new.key; inode = i })
          (some-injective (sym old-IsRef ∙ ap (Map.get s.inode_table) e ∙ new-IsRef))
    where
      some-injective : {x y : Inode} → some x ≡ some y → x ≡ y
      some-injective e = cc

  ids-keys : (old.inode.id == new.inode.id) ≡ (old.key == new.key)
  ids-keys =
      rw ((w.inodes old.key old.inode old-IsRef).id, (w.inodes new.key new.inode new-IsRef).id) refl

  old-entry :
      (entries : Map Name ℕ) × (id : ℕ) × (old.inode.content ≡ dir entries)
      × (Map.get entries old_name ≡ some id)
  unfolding find_inode
  old-entry = find_in-entry s old.inode.content old_name source from.target_is

  new-entries : (entries : Map Name ℕ) × (new.inode.content ≡ dir entries)
  new-entries =
      dir_of new.inode.content
        (walk-dir s root _ new (get_root-dir s root w from.root_is) to.parent_is)

  last_steps-Moved : Moved s old old_name new new_name (last_steps s old new old_name new_name s)
  last_steps-Moved =
      let (entries, id, e, g) = old-entry in
      let (new_entries, e') = new-entries in
      elim (Bool-cases (old.key == new.key)) [
        | inl h ↦
            subst (Moved s old old_name new new_name)
              (sym (last_steps-within s old new old_name new_name entries id (ids-keys ∙ h) e g))
              (Moved-within s old new old_name new_name entries id old-IsRef
                (same_ref ((==_iff old.key new.key).0 h)) e g)
        | inr h ↦
            subst (Moved s old old_name new new_name)
              (sym (
                last_steps-across s old new old_name new_name entries new_entries id (ids-keys ∙ h)
                  e g e'))
              (Moved-across s old new old_name new_name entries new_entries id old-IsRef new-IsRef h
                e e' g)
      ]

  rename_comps-last_steps :
      IsReplaceable source.inode.metadata.is_dir (find_inode s new new_name)
      → rename_comps (comp ∷ comps) (comp' ∷ comps') s ≡ last_steps s old new old_name new_name s
  unfolding rename_comps
  rename_comps-last_steps free =
      query-ok _ _ s root from.root_is
      ∙ query-ok _ _ s old from.parent_is
      ∙ query-ok _ _ s source from.target_is
      ∙ query-ok _ _ s new to.parent_is
      ∙ query-ok _ _ s tt (check_dest-IsReplaceable _ _ free)

  at_comps :
      comps_eq (comp ∷ comps) (comp' ∷ comps') ≡ false
      → rename old_path new_path s ≡ rename_comps (comp ∷ comps) (comp' ∷ comps') s
  unfolding rename
  at_comps differ = ground (arith, from.given, to.given, from.split, to.split, differ)

  -- `rename` in a well-formed file system, of what the old path leads to, to a path that has other
  -- components and leads to a name in a directory, where nothing is, or a file for a file, or an empty
  -- directory for a directory: it succeeds, the entry is under the new name in place of what was there
  -- and no longer under the old one, and every other entry of every directory is as before. Of the two
  -- directories the metadata change in the time of change only; every other inode, the descriptors, the
  -- root and the next ids stay, and the clock is read once.
  pub rename-Moved :
      comps_eq (comp ∷ comps) (comp' ∷ comps') ≡ false
      → IsReplaceable source.inode.metadata.is_dir (find_inode s new (last (comp' ∷ comps')))
      → Moved s old (last (comp ∷ comps)) new (last (comp' ∷ comps')) (rename old_path new_path s)
  rename-Moved differ free =
      subst (Moved s old old_name new new_name)
        (sym (at_comps differ ∙ rename_comps-last_steps free)) last_steps-Moved
