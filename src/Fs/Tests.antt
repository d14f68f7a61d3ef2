-- ===== src/Fs/Tests.antt =====
-- Runs of the file system.
use Prim.Native.Char.{code}
use Prim.Native.String.{String}
use monaka_fs.Prelude.{ℕ, ◌≡◌, refl, [], ◌∷◌, overwrite}
use monaka_fs.Key.{Name}
use monaka_fs.Map
use monaka_fs.Path.{components, trim_start, split, non_empty}
use monaka_fs.Error.{ok}
use monaka_fs.Time
use monaka_fs.Time.{MonotonicCounter, monotonic}
use monaka_fs.Storage
use monaka_fs.Storage.{Bytes}
use monaka_fs.Fs.{
  Fs, with_time_provider, empty_with, inode_insert, inode_get, fd_with, fd_insert, fd_remove,
  set_position, find_inode, walk, resolve, get_root,
}
use monaka_fs.Fs.Exec.{M, ◌>>=◌, ◌>>◌}
use monaka_fs.Fs.Create.{
  create_inode, insert_new, allocate_inode, allocate_fd, open_handle, now, store_entries,
  store_file,
}
use monaka_fs.Fs.Open.{
  open_path, open_path_with_flags, open_from, open_comps, find_or_create, check_access,
  truncate_on_open, close,
}
use monaka_fs.Fs.Io
use monaka_fs.Fs.Seek
use monaka_fs.Fs.Dirs
use monaka_fs.Fs.Dirs.{mkdir, mkdir_p, mkdir_p_comps}
use monaka_fs.Fs.Remove
use monaka_fs.Fs.Rename

abbrev p : String → Name
p String.[] = []
p (String.◌∷◌ c s) = code c ∷ p s

abbrev start : Fs MonotonicCounter
start = with_time_provider Time.new

abbrev script : M MonotonicCounter (ℕ × Bytes)
script = do
  mkdir_p (p "/a/b")
  fd ← open_path (p "/a/b/c")
  n ← Io.write fd (7 ∷ 8 ∷ 9 ∷ [])
  m ← Seek.seek fd 1 0
  Rename.rename (p "/a/b") (p "d")
  fd2 ← open_path (p "d//c")
  Remove.unlink (p "/d/c")
  Io.read fd2 (0 ∷ 0 ∷ 0 ∷ 0 ∷ [])

-- What a run computes with, under one name.
model : Unit {0}
unfolding mkdir mkdir_p mkdir_p_comps open_path open_comps Io.write Io.write_storage Seek.seek
    Seek.new_position Rename.rename Rename.rename_comps Rename.check_dest Rename.rename_within
    Rename.rename_across Remove.unlink Remove.remove_comps Remove.remove_entry Io.read
    Io.read_storage with_time_provider empty_with inode_insert inode_get fd_with fd_insert fd_remove
    set_position find_inode walk resolve get_root create_inode insert_new allocate_inode allocate_fd
    open_handle now store_entries store_file open_path_with_flags open_from find_or_create
    check_access truncate_on_open close Map.get Map.insert Map.remove components trim_start split
    non_empty Dirs.make_all Dirs.find_or_make Storage.read Storage.read_loop Storage.copy_out
    Storage.write Storage.write_loop Storage.write_round Storage.finish_write Storage.grow
    Storage.allocated overwrite ◌>>=◌
model = tt

script_runs : (script start).0 ≡ ok (3, 7 ∷ 8 ∷ 9 ∷ 0 ∷ [])
unfolding model
script_runs = refl
