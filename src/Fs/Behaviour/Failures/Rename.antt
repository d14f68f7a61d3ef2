-- ===== src/Fs/Behaviour/Failures/Rename.antt =====
-- `rename` when it fails: once the lookups and the checks have passed, no step of it fails.
use mathlib.Core.Path.{subst}
use monaka_fs.Prelude.{
  ℕ, ◌≡◌, refl, sym, ap, inl, inr, Bool, true, false, List, [], ◌∷◌, some, arith, ◌||◌,
  if◌then◌else◌, Option-cases,
}
use monaka_fs.Key.{Name, nat_key, name_key}
use monaka_fs.Map
use monaka_fs.Map.{Map}
use monaka_fs.Path
use monaka_fs.Path.{components, parents, last}
use monaka_fs.Error.{ok, invalid_argument}
use monaka_fs.Time.{TimeProvider}
use monaka_fs.Inode.{FileContent, file, dir, is_file}
use monaka_fs.Fs.{Fs, InodeRef, inode_get, find_inode, find_in, find_entry, walk, get_root, enter}
use monaka_fs.Fs.Exec.{M}
use monaka_fs.Fs.Rename.{
  comps_eq, reinsert, rename_in, rename_within, move_to, move_entry, move_from, rename_across,
  rename_comps, rename,
}
use monaka_fs.Fs.Invariant.{IsWellFormed}
use monaka_fs.Fs.Invariant.Lookups.{>>=-succeeds}
use monaka_fs.Fs.Behaviour.Failures.{
  IsClean, IsTotal, IsTotal-pure, IsClean-fail, IsClean-total, IsClean-if, IsTotal-bind,
  IsClean-query,
}
use monaka_fs.Fs.Behaviour.Failures.Calls.{IsTotal-now, IsTotal-store_entries}

enter-dir : (r q : InodeRef) → enter r ≡ ok q → is_file q.inode.content ≡ false
enter-dir r q h = ground arith

module _ {T : Type 0} (s : Fs T) where
  -- A walk from a directory ends at one.
  pub walk-dir :
      (p : InodeRef) (comps : List Name) (r : InodeRef)
      → is_file p.inode.content ≡ false
      → walk s p comps ≡ ok r
      → is_file r.inode.content ≡ false
  unfolding walk
  walk-dir p [] r d h = ground arith
  walk-dir p (c ∷ comps) r d h =
      let (next, h1, found) = >>=-succeeds _ (find_inode s p c) h in
      let (here, h2, entered) = >>=-succeeds _ (enter next) h1 in
      walk-dir here comps r (enter-dir next here entered) h2

  pub get_root-dir :
      (r : InodeRef) → IsWellFormed s → get_root s ≡ ok r → is_file r.inode.content ≡ false
  unfolding get_root inode_get
  get_root-dir r w h = ground (arith, w.root)

  -- A name that is found in a directory is one of its entries.
  pub find_in-entry :
      (c : FileContent) (name : Name) (r : InodeRef)
      → find_in s c name ≡ ok r
      → (entries : Map Name ℕ) × (id : ℕ) × (c ≡ dir entries) × (Map.get entries name ≡ some id)
  find_in-entry (file storage) name r h = absurd cc
  find_in-entry (dir entries) name r h = elim (Option-cases (Map.get entries name)) [
    | inl n ↦ absurd (cc (ap (find_entry s) n))
    | inr (id, e) ↦ (entries, id, refl, e)
  ]

module _ {T : Type 0} ⦃time : TimeProvider T⦄ where
  rename_in-IsTotal :
      (parent : InodeRef) (c : FileContent) (old_name new_name : Name) (t : ℕ)
      → (entries : Map Name ℕ) × (id : ℕ) × (c ≡ dir entries) × (Map.get entries old_name ≡ some id)
      → IsTotal {T = T} (rename_in parent c old_name new_name t)
  rename_in-IsTotal parent c old_name new_name t (entries, id, e, g) =
      subst (λ c. IsTotal {T = T} (rename_in parent c old_name new_name t)) (sym e)
        (subst (λ o. IsTotal {T = T} (reinsert parent entries old_name new_name t o)) (sym g)
          (IsTotal-store_entries parent _ t))

  move_to-IsTotal :
      (parent : InodeRef) (c : FileContent) (name : Name) (id t : ℕ)
      → is_file c ≡ false
      → IsTotal {T = T} (move_to parent c name id t)
  move_to-IsTotal parent (file storage) name id t h = absurd cc
  move_to-IsTotal parent (dir entries) name id t h = IsTotal-store_entries parent _ t

  move_from-IsTotal :
      (parent new_parent : InodeRef) (c : FileContent) (old_name new_name : Name) (t : ℕ)
      → is_file new_parent.inode.content ≡ false
      → (entries : Map Name ℕ) × (id : ℕ) × (c ≡ dir entries) × (Map.get entries old_name ≡ some id)
      → IsTotal {T = T} (move_from parent new_parent c old_name new_name t)
  move_from-IsTotal parent new_parent c old_name new_name t d (entries, id, e, g) =
      subst (λ c. IsTotal {T = T} (move_from parent new_parent c old_name new_name t)) (sym e)
        (subst (λ o. IsTotal {T = T} (move_entry parent new_parent entries old_name new_name t o))
          (sym g)
          (IsTotal-bind _ _ (IsTotal-store_entries parent _ t)
            λ _. move_to-IsTotal new_parent new_parent.inode.content new_name id t d))

  IsTotal-if :
      {A : Type 0} (t : Bool) (m n : M T A) → IsTotal m → IsTotal n → IsTotal (if t then m else n)
  IsTotal-if true m n p q = p
  IsTotal-if false m n p q = q

  rename_comps-IsClean :
      (s : Fs T) (old_comps new_comps : List Name)
      → IsWellFormed s
      → IsClean (rename_comps old_comps new_comps) s
  unfolding rename_comps rename_within rename_across find_inode
  rename_comps-IsClean s old_comps new_comps w = IsClean-query _ _ s λ root h.
      IsClean-query _ _ s λ old_parent _. IsClean-query _ _ s λ source found.
        IsClean-query _ _ s λ new_parent walked. IsClean-query _ _ s λ _ _.
          let entry = find_in-entry s old_parent.inode.content _ source found in
          let is_dir = walk-dir s root _ new_parent (get_root-dir s root w h) walked in
          IsClean-total _ s (
            IsTotal-bind _ _ IsTotal-now λ t.
              IsTotal-if _ _ _ (rename_in-IsTotal old_parent _ _ _ t entry)
                (move_from-IsTotal old_parent new_parent _ _ _ t is_dir entry))

  pub rename-IsClean :
      (s : Fs T) (old_path new_path : Name) → IsWellFormed s → IsClean (rename old_path new_path) s
  unfolding rename
  rename-IsClean s old_path new_path w =
      let old_comps = components old_path in
      let new_comps = components new_path in
      IsClean-if (Path.is_empty old_path || Path.is_empty new_path) _ _ s
        (IsClean-fail invalid_argument s)
        (IsClean-if (comps_eq old_comps [] || comps_eq new_comps []) _ _ s
          (IsClean-fail invalid_argument s)
          (IsClean-if (comps_eq old_comps new_comps) _ _ s (IsClean-total _ s (IsTotal-pure tt))
            (rename_comps-IsClean s old_comps new_comps w)))
