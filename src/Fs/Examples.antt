-- ===== src/Fs/Examples.antt =====
-- The theorems on the file system at small ones: the fresh one, and one with a directory `/a`, a
-- file `/f` that two descriptors are open on, and a file `/g`.
use monaka_fs.Prelude.{ℕ, ◌≡◌, refl, [], ◌∷◌, some, arith, length}
use monaka_fs.Key.{Name, nat_key, name_key}
use monaka_fs.Map
use monaka_fs.Path.{components, trim_start, split, non_empty}
use monaka_fs.Error.{ok, err, not_found, invalid_argument}
use monaka_fs.Time
use monaka_fs.Time.{MonotonicCounter, monotonic}
use monaka_fs.Inode.{Inode, FileHandle, dir, new_file, new_dir, o_rdwr}
use monaka_fs.Storage
use monaka_fs.Storage.{Bytes}
use monaka_fs.Storage.Refine.{new-IsValid}
use monaka_fs.Fs.{
  Fs, InodeRef, with_time_provider, empty_with, inode_insert, inode_get, find_inode, walk, get_root,
  set_position,
}
use monaka_fs.Fs.Exec.{◌>>=◌}
use monaka_fs.Fs.Io
use monaka_fs.Fs.Open
use monaka_fs.Fs.Seek
use monaka_fs.Fs.Remove
use monaka_fs.Fs.Invariant.{IsWellFormed}
use monaka_fs.Fs.Invariant.Calls.{
  Call, Keeps, after, Reach, here, next, after-IsWellFormed, Reach-IsWellFormed,
  with_time_provider-IsWellFormed,
}
use monaka_fs.Fs.Invariant.Calls as Calls
use monaka_fs.Fs.Behaviour.Writes.{IsOpen, Wrote, write-Wrote, write_at-Wrote, append_write-Wrote}
use monaka_fs.Fs.Behaviour.Reads.{read_at-write_at}
use monaka_fs.Fs.Behaviour.Opening.{IsAt, opened, open_existing}
use monaka_fs.Fs.Behaviour.Removal.{Removed, unlink-Removed, rmdir-Removed}
use monaka_fs.Fs.Behaviour.Position.{forward, backward, seek-forward, seek-backward}
use monaka_fs.Fs.Behaviour.Failures.All.{outcome, after-err}

abbrev start : Fs MonotonicCounter
start = with_time_provider Time.new

-- `"/a"`, `"/f"` and `"/g"`
abbrev path_a : Name
path_a = b'/' ∷ b'a' ∷ []

abbrev path_f : Name
path_f = b'/' ∷ b'f' ∷ []

start-IsWellFormed : IsWellFormed start
start-IsWellFormed = with_time_provider-IsWellFormed Time.new

next_inode-start : start.next_inode ≡ 1
unfolding with_time_provider empty_with inode_insert
next_inode-start = refl

after-IsWellFormed_example : Keeps start (Calls.mkdir path_a)
after-IsWellFormed_example =
    after-IsWellFormed start (Calls.mkdir path_a) start-IsWellFormed tt
      (omega (arith, next_inode-start))

reached : Reach start 1 (after start (Calls.mkdir path_a))
reached = next here (Calls.mkdir path_a) tt refl refl

Reach-IsWellFormed_example : IsWellFormed (after start (Calls.mkdir path_a))
Reach-IsWellFormed_example = Reach-IsWellFormed Time.new (omega arith) reached

unlink_fails : outcome start (Calls.unlink path_a) ≡ some not_found
unfolding Remove.unlink Remove.remove_comps with_time_provider empty_with inode_insert inode_get
    find_inode walk get_root components trim_start split non_empty Map.get Map.insert ◌>>=◌
unlink_fails = refl

after-err_example : after start (Calls.unlink path_a) ≡ start
after-err_example =
    after-err start (Calls.unlink path_a) not_found start-IsWellFormed refl unlink_fails

abbrev root_dir : Inode
root_dir = record (new_dir 0) { content = dir (((b'a' ∷ []), 1) ∷ ((b'f' ∷ []), 2) ∷ []) }

abbrev ready : Fs MonotonicCounter
ready = record {
  next_inode = 3;
  next_fd = 5;
  fd_table =
      (3, record { inode_id = 2; position = 0; flags = o_rdwr })
      ∷ (4, record { inode_id = 2; position = 7; flags = o_rdwr })
      ∷ [];
  inode_table = (0, root_dir) ∷ (1, new_dir 1) ∷ (2, new_file 2) ∷ [];
  root_inode = 0;
  time_provider = Time.new;
}

abbrev handle3 : FileHandle
handle3 = record { inode_id = 2; position = 0; flags = o_rdwr }

abbrev handle4 : FileHandle
handle4 = record { inode_id = 2; position = 7; flags = o_rdwr }

open3 : IsOpen ready 3 handle3 (new_file 2) Storage.new
unfolding Map.get
open3 = record { handle = refl; inode = refl; content = refl }

open4 : IsOpen ready 4 handle4 (new_file 2) Storage.new
unfolding Map.get
open4 = record { handle = refl; inode = refl; content = refl }

abbrev written : Bytes
written = 5 ∷ 6 ∷ []

write-Wrote_example :
    Wrote ready 4 handle4 (new_file 2) Storage.new 7 written (Io.write 4 written ready)
write-Wrote_example =
    write-Wrote ready 4 handle4 (new_file 2) Storage.new open4 new-IsValid written refl
      (omega arith)

write_at-Wrote_example :
    Wrote ready 3 handle3 (new_file 2) Storage.new 5000 written (Io.write_at 3 5000 written ready)
write_at-Wrote_example =
    write_at-Wrote ready 3 handle3 (new_file 2) Storage.new open3 new-IsValid 5000 written refl
      (omega arith)

append_write-Wrote_example :
    Wrote ready 4 handle4 (new_file 2) Storage.new 0 written (Io.append_write 4 written ready)
append_write-Wrote_example =
    append_write-Wrote ready 4 handle4 (new_file 2) Storage.new open4 new-IsValid written refl
      (omega arith)

-- Written by descriptor 3, read by descriptor 4.
read_at-write_at_example :
    (Io.read_at 4 4095 (0 ∷ 0 ∷ []) (Io.write_at 3 4095 written ready).1).0
    ≡ ok (length written, written)
read_at-write_at_example =
    read_at-write_at ready 3 handle3 (new_file 2) Storage.new open3 new-IsValid 4 handle4 4095
      written (0 ∷ 0 ∷ []) open4 refl refl refl (omega arith) refl

seek-forward_example : Seek.seek 4 (forward 3) 1 ready ≡ (ok 10, set_position ready 4 10)
seek-forward_example =
    seek-forward ready 4 handle4 (new_file 2) Storage.new open4 1 3 (omega arith) (omega arith)

seek-backward_example : Seek.seek 4 (backward 8) 1 ready ≡ (err invalid_argument, ready)
seek-backward_example =
    seek-backward ready 4 handle4 (new_file 2) Storage.new open4 1 8 (omega arith) (omega arith)
      (omega arith) (omega arith)

abbrev root_ref : InodeRef
root_ref = record { key = 0; inode = root_dir }

IsAt-path_f :
    IsAt ready path_f root_ref root_ref (record { key = 2; inode = new_file 2 }) (b'f' ∷ []) []
unfolding components trim_start split non_empty get_root inode_get walk find_inode Map.get
IsAt-path_f = record {
  given = refl;
  split = refl;
  root_is = refl;
  parent_is = refl;
  target_is = refl;
}

IsAt-path_a :
    IsAt ready path_a root_ref root_ref (record { key = 1; inode = new_dir 1 }) (b'a' ∷ []) []
unfolding components trim_start split non_empty get_root inode_get walk find_inode Map.get
IsAt-path_a = record {
  given = refl;
  split = refl;
  root_is = refl;
  parent_is = refl;
  target_is = refl;
}

-- `O_RDWR | O_CREAT | O_EXCL`
abbrev exclusive : ℕ
exclusive = 0xC2

open_existing_example :
    Open.open_path_with_flags path_f exclusive ready ≡ (ok 5, opened ready 2 exclusive)
open_existing_example =
    open_existing ready path_f root_ref root_ref (record { key = 2; inode = new_file 2 })
      (b'f' ∷ []) [] IsAt-path_f exclusive refl refl

unlink-Removed_example :
    Removed ready root_ref
      (record { key = 2; inode = new_file 2 })
      (b'f' ∷ [])
      (Remove.unlink path_f ready)
unlink-Removed_example =
    unlink-Removed ready path_f root_ref root_ref (record { key = 2; inode = new_file 2 })
      (b'f' ∷ []) [] IsAt-path_f refl

rmdir-Removed_example :
    Removed ready root_ref
      (record { key = 1; inode = new_dir 1 })
      (b'a' ∷ [])
      (Remove.rmdir path_a ready)
rmdir-Removed_example =
    rmdir-Removed ready path_a root_ref root_ref (record { key = 1; inode = new_dir 1 }) (b'a' ∷ [])
      [] IsAt-path_a refl
