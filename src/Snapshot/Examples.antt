-- ===== src/Snapshot/Examples.antt =====
-- A file with data, and a file system with a directory and an open file, saved and loaded.
use monaka_fs.Prelude.{ℕ, ◌≡◌, refl, [], ◌∷◌, arith}
use monaka_fs.Map
use monaka_fs.Map.Sorted.{IsSorted}
use monaka_fs.Time
use monaka_fs.Time.{MonotonicCounter, monotonic}
use monaka_fs.Storage
use monaka_fs.Storage.{BlockStorage}
use monaka_fs.Storage.View.{IsValid}
use monaka_fs.Storage.Write.{write-IsValid}
use monaka_fs.Storage.Refine.{contents, new-IsValid}
use monaka_fs.Fs.{
  Fs, with_time_provider, empty_with, inode_insert, inode_get, find_inode, walk, get_root,
}
use monaka_fs.Fs.Exec.{◌>>=◌}
use monaka_fs.Fs.Create.{
  create_inode, insert_new, allocate_inode, allocate_fd, open_handle, now, store_entries,
}
use monaka_fs.Fs.Open
use monaka_fs.Path.{components, trim_start, split, non_empty}
use monaka_fs.Fs.Invariant.{IsWellFormed}
use monaka_fs.Fs.Invariant.Calls.{
  after, open_path_with_flags, after-IsWellFormed, with_time_provider-IsWellFormed,
}
use monaka_fs.Snapshot.{save_file, load_file}
use monaka_fs.Snapshot.File.{load_file-save_file}
use monaka_fs.Snapshot.Roundtrip.{loaded, view_at, from_snapshot-to_snapshot}

abbrev saved : BlockStorage
saved = (Storage.write Storage.new 5000 (1 ∷ 2 ∷ [])).1

load_file-save_file_example :
    IsValid (load_file (save_file saved))
    × (contents (load_file (save_file saved)) ≡ contents saved)
load_file-save_file_example =
    load_file-save_file saved
      (write-IsValid Storage.new 5000 (1 ∷ 2 ∷ []) new-IsValid (omega arith))

abbrev start : Fs MonotonicCounter
start = with_time_provider Time.new

next_inode-start : start.next_inode ≡ 1
unfolding with_time_provider empty_with inode_insert
next_inode-start = refl

-- With a file `/f`, which is open.
abbrev made : Fs MonotonicCounter
made = after start (open_path_with_flags (b'/' ∷ b'f' ∷ []) 0x42)

made-IsWellFormed : IsWellFormed made
made-IsWellFormed =
    (after-IsWellFormed start (open_path_with_flags (b'/' ∷ b'f' ∷ []) 0x42)
      (with_time_provider-IsWellFormed Time.new) tt (omega (arith, next_inode-start))).0

made-IsSorted : IsSorted made.inode_table
unfolding Open.open_path_with_flags Open.open_comps Open.open_from Open.find_or_create
    Open.check_access Open.truncate_on_open with_time_provider empty_with inode_insert inode_get
    find_inode walk get_root create_inode insert_new allocate_inode allocate_fd open_handle now
    store_entries components trim_start split non_empty Map.get Map.insert ◌>>=◌
made-IsSorted = (omega arith, tt)

from_snapshot-to_snapshot_example :
    IsWellFormed (loaded made Time.new made-IsSorted)
    × ((loaded made Time.new made-IsSorted).next_inode ≡ made.next_inode)
    × ((loaded made Time.new made-IsSorted).root_inode ≡ made.root_inode)
    × ((loaded made Time.new made-IsSorted).fd_table ≡ [])
    × ((k : ℕ)
        → view_at (loaded made Time.new made-IsSorted).inode_table k ≡ view_at made.inode_table k)
from_snapshot-to_snapshot_example =
    from_snapshot-to_snapshot made Time.new made-IsSorted made-IsWellFormed
