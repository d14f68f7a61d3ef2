-- ===== src/Fs/Invariant/Lookups.antt =====
-- The references that the lookups return are up to date.
use monaka_fs.Prelude.{ℕ, ◌≡◌, refl, List, [], ◌∷◌, Option, none, some, arith}
use monaka_fs.Key.{Name, name_key}
use monaka_fs.Map
use monaka_fs.Error.{Result, ok, err, ◌>>=◌}
use monaka_fs.Inode.{FileContent, file, dir}
use monaka_fs.Fs.{Fs, InodeRef, find_entry, find_in, find_inode, enter, walk, resolve, get_root}
use monaka_fs.Fs.Invariant.{IsRef}
use monaka_fs.Fs.Invariant.Rules.{IsRef-inode_get}

-- Inversion of a successful step of a lookup.
pub >>=-succeeds :
    {A B : Type 0} {y : B} (k : A → Result B) (r : Result A)
    → (r >>= k) ≡ ok y
    → (x : A) × (k x ≡ ok y) × (r ≡ ok x)
>>=-succeeds k (err e) h = cc
>>=-succeeds k (ok x) h = (x, h, refl)

pub enter-eq : (r q : InodeRef) → enter r ≡ ok q → r ≡ q
enter-eq r q h = ground arith

module _ {T : Type 0} (s : Fs T) where
  pub IsRef-get_root : (r : InodeRef) → get_root s ≡ ok r → IsRef s r
  unfolding get_root
  IsRef-get_root r h = IsRef-inode_get s s.root_inode _ r h

  IsRef-find_in :
      (c : FileContent) (name : Name) (r : InodeRef) → find_in s c name ≡ ok r → IsRef s r
  IsRef-find_in (file storage) name r h = cc
  IsRef-find_in (dir entries) name r h = go (Map.get entries name) h
    where
      go : (o : Option ℕ) → find_entry s o ≡ ok r → IsRef s r
      go none h = cc
      go (some id) h = IsRef-inode_get s id _ r h

  pub IsRef-find_inode :
      (p : InodeRef) (name : Name) (r : InodeRef) → find_inode s p name ≡ ok r → IsRef s r
  unfolding find_inode
  IsRef-find_inode p name r h = IsRef-find_in p.inode.content name r h

  pub IsRef-walk :
      (p : InodeRef) (comps : List Name) (r : InodeRef)
      → IsRef s p
      → walk s p comps ≡ ok r
      → IsRef s r
  unfolding walk
  IsRef-walk p [] r ref h = ground arith
  IsRef-walk p (c ∷ comps) r ref h =
      let (next, h1, found) = >>=-succeeds _ (find_inode s p c) h in
      let (here, h2, entered) = >>=-succeeds _ (enter next) h1 in
      IsRef-walk here comps r (rw (enter-eq next here entered) at (IsRef-find_inode p c next found))
        h2

  pub IsRef-resolve :
      (p : InodeRef) (comps : List Name) (r : InodeRef)
      → IsRef s p
      → resolve s p comps ≡ ok r
      → IsRef s r
  unfolding resolve
  IsRef-resolve p [] r ref h = ground arith
  IsRef-resolve p (c ∷ comps) r ref h =
      let (next, h1, found) = >>=-succeeds _ (find_inode s p c) h in
      IsRef-resolve next comps r (IsRef-find_inode p c next found) h1
