-- ===== src/Fs/Behaviour/Renaming.antt =====
-- What `rename` does to the entries and the inodes.
pub mod Steps
pub mod Paths
use mathlib.Core.Path.{subst}
use monaka_fs.Prelude.{
  ℕ, ◌≡◌, refl, sym, ◌∙◌, ap, inl, inr, Bool, true, false, List, [], ◌∷◌, Option, none, some, ◌&&◌,
  ◌||◌, arith, ◌==◌, ==_iff, if◌then◌else◌, Bool-cases,
}
use monaka_fs.Key.{Name, nat_key, name_key, name_eq, name_eq_iff}
use monaka_fs.Map
use monaka_fs.Map.{Map, get-insert, get-insert_self, get-remove}
use monaka_fs.Path
use monaka_fs.Path.{components, parents, last}
use monaka_fs.Error.{Result, ok, err, invalid_argument}
use monaka_fs.Time.{TimeProvider}
use monaka_fs.Inode.{Inode, FileContent, file, dir, Metadata, is_file}
use monaka_fs.Fs.{Fs, InodeRef, inode_insert, find_inode, walk, get_root}
use monaka_fs.Fs.Exec.{M, ◌>>=◌, ◌>>◌, pure, fail, query-ok}
use monaka_fs.Fs.Create.{touched, now, store_entries}
use monaka_fs.Fs.Rename.{
  comps_eq, is_full_dir, check_dest, reinsert, rename_in, rename_within, move_to, move_entry,
  move_from, rename_across, rename_comps, rename,
}
use monaka_fs.Fs.Invariant.{IsWellFormed, IsRef}
use monaka_fs.Fs.Invariant.Lookups.{IsRef-get_root, IsRef-walk}
use monaka_fs.Fs.Behaviour.Opening.{IsAt}
use monaka_fs.Fs.Behaviour.Removal.{entry_of, entries_get, entry_at}
use monaka_fs.Fs.Behaviour.Failures.Rename.{find_in-entry, walk-dir, get_root-dir}
use monaka_fs.Fs.Behaviour.Writes.{facts_at}

-- What may be at the destination: nothing, a file for a file, an empty directory for a directory.
abbrev pub IsReplaceable : Bool → Result InodeRef → Type 0
IsReplaceable source_is_dir (err e) = Unit
IsReplaceable source_is_dir (ok dest) =
    (dest.inode.metadata.is_dir ≡ source_is_dir)
    × (source_is_dir ≡ true → dest.inode.content ≡ dir [])

-- The path leads to the name in the directory; nothing need be there.
pub record IsPlace {T : Type 0} (s : Fs T) (path : Name) (root parent : InodeRef) (comp : Name)
    (comps : List Name) : Type 0 where
  pub given : Path.is_empty path ≡ false
  pub split : components path ≡ comp ∷ comps
  pub parent_is : walk s root (parents (comp ∷ comps)) ≡ ok parent

-- What the metadata of a directory are after a change at the time `t`.
abbrev pub stamped_facts : Inode → ℕ → ℕ × Metadata
stamped_facts i t = (i.id, record i.metadata { modified = t })

-- The entry under the old name is under the new one, in place of what was there, and nothing is under
-- the old one; every other entry of every directory is as before. Of the two directories the metadata
-- change in the time of change only; every other inode, the descriptors, the root and the next ids stay,
-- and the clock is as `now` leaves it.
pub record Moved {T : Type 0} ⦃time : TimeProvider T⦄ (s : Fs T) (old : InodeRef) (old_name : Name)
    (new : InodeRef) (new_name : Name) (out : Result (Unit {0}) × Fs T) : Type 0 where
  pub result : out.0 ≡ ok tt
  pub entries :
      (k : ℕ) (n : Name)
      → entry_at out.1 k n ≡ (
          if (new.key == k) && name_eq new_name n
          then entry_at s old.key old_name
          else if (old.key == k) && name_eq old_name n
          then none
          else entry_at s k n)
  pub old_facts :
      facts_at out.1 old.key ≡ some (stamped_facts old.inode (time.now s.time_provider).0)
  pub new_facts :
      facts_at out.1 new.key ≡ some (stamped_facts new.inode (time.now s.time_provider).0)
  pub other_inodes :
      (k : ℕ)
      → (old.key == k) ≡ false
      → (new.key == k) ≡ false
      → Map.get out.1.inode_table k ≡ Map.get s.inode_table k
  pub handles : out.1.fd_table ≡ s.fd_table
  pub next_inode : out.1.next_inode ≡ s.next_inode
  pub next_fd : out.1.next_fd ≡ s.next_fd
  pub root : out.1.root_inode ≡ s.root_inode
  pub clock : out.1.time_provider ≡ (time.now s.time_provider).1
