-- ===== src/Fs/Behaviour/Examples.antt =====
-- A file system with the directory `/a`: making `/a/b`, and renaming `/a` to `/a/b`, a name in itself.
use mathlib.Core.Path.{subst}
use monaka_fs.Prelude.{◌≡◌, refl, [], ◌∷◌, arith}
use monaka_fs.Key.{Name, nat_key, name_key}
use monaka_fs.Map
use monaka_fs.Path.{components, trim_start, split, non_empty}
use monaka_fs.Error.{ok}
use monaka_fs.Time
use monaka_fs.Time.{MonotonicCounter, monotonic}
use monaka_fs.Inode.{Inode, dir, new_dir}
use monaka_fs.Fs.{
  Fs, InodeRef, with_time_provider, empty_with, inode_insert, inode_get, find_inode, walk, get_root,
}
use monaka_fs.Fs.Exec.{◌>>=◌}
use monaka_fs.Fs.Create.{create_inode, insert_new, allocate_inode, now, store_entries}
use monaka_fs.Fs.Dirs
use monaka_fs.Fs.Behaviour.Making.{Made, mkdir-Made}
use monaka_fs.Fs.Rename.{rename}
use monaka_fs.Fs.Invariant.{IsWellFormed}
use monaka_fs.Fs.Invariant.Calls.{after, mkdir, after-IsWellFormed, with_time_provider-IsWellFormed}
use monaka_fs.Fs.Behaviour.Opening.{IsAt}
use monaka_fs.Fs.Behaviour.Renaming.{IsPlace, Moved}
use monaka_fs.Fs.Behaviour.Renaming.Paths.{rename-Moved}

abbrev a : Name
a = b'a' ∷ []

abbrev b : Name
b = b'b' ∷ []

abbrev path_a : Name
path_a = b'/' ∷ b'a' ∷ []

abbrev path_ab : Name
path_ab = b'/' ∷ b'a' ∷ b'/' ∷ b'b' ∷ []

abbrev start : Fs MonotonicCounter
start = with_time_provider Time.new

next_inode-start : start.next_inode ≡ 1
unfolding with_time_provider empty_with inode_insert
next_inode-start = refl

abbrev root_dir : Inode
root_dir = record {
  id = 0;
  metadata = record (new_dir 0).metadata { created = 0; modified = 1 };
  content = dir ((a, 1) ∷ []);
}

abbrev a_dir : Inode
a_dir = record {
  id = 1;
  metadata = record (new_dir 1).metadata { created = 1; modified = 1 };
  content = dir [];
}

abbrev made : Fs MonotonicCounter
made = record {
  next_inode = 2;
  next_fd = 3;
  fd_table = [];
  inode_table = (0, root_dir) ∷ (1, a_dir) ∷ [];
  root_inode = 0;
  time_provider = record { counter = 2 };
}

made-after : after start (mkdir path_a) ≡ made
unfolding Dirs.mkdir Dirs.mkdir_comps with_time_provider empty_with inode_insert inode_get
    find_inode walk get_root create_inode insert_new allocate_inode now store_entries components
    trim_start split non_empty Map.get Map.insert ◌>>=◌
made-after = refl

made-IsWellFormed : IsWellFormed made
made-IsWellFormed =
    subst IsWellFormed made-after
      (after-IsWellFormed start (mkdir path_a) (with_time_provider-IsWellFormed Time.new) tt
        (omega (arith, next_inode-start))).0

abbrev root_ref : InodeRef
root_ref = record { key = 0; inode = root_dir }

abbrev a_ref : InodeRef
a_ref = record { key = 1; inode = a_dir }

a-IsAt : IsAt made path_a root_ref root_ref a_ref a []
unfolding components trim_start split non_empty get_root inode_get walk find_inode Map.get
a-IsAt = record { given = refl; split = refl; root_is = refl; parent_is = refl; target_is = refl }

b-IsPlace : IsPlace made path_ab root_ref a_ref a (b ∷ [])
unfolding components trim_start split non_empty get_root inode_get walk find_inode Map.get ◌>>=◌
b-IsPlace = record { given = refl; split = refl; parent_is = refl }

rename-Moved_example : Moved made root_ref a a_ref b (rename path_a path_ab made)
unfolding find_inode Map.get
rename-Moved_example =
    rename-Moved made made-IsWellFormed path_a path_ab root_ref root_ref a_ref a_ref a [] a (b ∷ [])
      a-IsAt b-IsPlace refl tt

root-found : get_root made ≡ ok root_ref
unfolding get_root inode_get Map.get
root-found = refl

mkdir-Made_example : Made made a_ref b (Dirs.mkdir path_ab made)
unfolding Map.get
mkdir-Made_example =
    mkdir-Made made made-IsWellFormed path_ab root_ref a_ref a (b ∷ []) b-IsPlace root-found
      (omega arith) refl
