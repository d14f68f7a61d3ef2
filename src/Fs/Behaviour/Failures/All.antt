-- ===== src/Fs/Behaviour/Failures/All.antt =====
-- The failures of the calls, as data.
use monaka_fs.Prelude.{◌≡◌, Bool, true, false, Option, none, some}
use monaka_fs.Error.{Result, ok, err, FsError}
use monaka_fs.Time.{TimeProvider}
use monaka_fs.Fs.{Fs}
use monaka_fs.Fs.Exec.{M}
use monaka_fs.Fs.Open
use monaka_fs.Fs.Io
use monaka_fs.Fs.Seek
use monaka_fs.Fs.Dirs
use monaka_fs.Fs.Remove
use monaka_fs.Fs.Rename
use monaka_fs.Fs.Invariant.{IsWellFormed}
use monaka_fs.Fs.Invariant.Calls.{
  Call, open_at, open_path_with_flags, close, write, write_at, append_write, read, read_at,
  ftruncate, seek, mkdir, mkdir_p, unlink, rmdir, rename, after,
}
use monaka_fs.Fs.Behaviour.Failures.{IsClean}
use monaka_fs.Fs.Behaviour.Failures.Calls.{
  write-IsClean, write_at-IsClean, append_write-IsClean, ftruncate-IsClean, mkdir-IsClean,
  unlink-IsClean, rmdir-IsClean, read-IsClean, read_at-IsClean, seek-IsClean, close-IsClean,
}
use monaka_fs.Fs.Behaviour.Failures.Rename.{rename-IsClean}

abbrev pub error_of : {A : Type 0} → Result A → Option FsError
error_of (ok a) = none
error_of (err e) = some e

-- The calls that do one thing. The others may have made a file or directories when they fail.
abbrev pub is_atomic : Call → Bool
is_atomic (open_at fd path flags) = false
is_atomic (open_path_with_flags path flags) = false
is_atomic (mkdir_p path) = false
is_atomic _ = true

module _ {T : Type 0} ⦃time : TimeProvider T⦄ where
  -- The error that a call returns.
  abbrev pub outcome : Fs T → Call → Option FsError
  outcome s (open_at fd path flags) = error_of (Open.open_at fd path flags s).0
  outcome s (open_path_with_flags path flags) = error_of (Open.open_path_with_flags path flags s).0
  outcome s (close fd) = error_of (Open.close fd s).0
  outcome s (write fd buf) = error_of (Io.write fd buf s).0
  outcome s (write_at fd offset buf) = error_of (Io.write_at fd offset buf s).0
  outcome s (append_write fd buf) = error_of (Io.append_write fd buf s).0
  outcome s (read fd out) = error_of (Io.read fd out s).0
  outcome s (read_at fd offset out) = error_of (Io.read_at fd offset out s).0
  outcome s (ftruncate fd size) = error_of (Io.ftruncate fd size s).0
  outcome s (seek fd offset whence) = error_of (Seek.seek fd offset whence s).0
  outcome s (mkdir path) = error_of (Dirs.mkdir path s).0
  outcome s (mkdir_p path) = error_of (Dirs.mkdir_p path s).0
  outcome s (unlink path) = error_of (Remove.unlink path s).0
  outcome s (rmdir path) = error_of (Remove.rmdir path s).0
  outcome s (rename old_path new_path) = error_of (Rename.rename old_path new_path s).0

  failed :
      {A : Type 0} (m : M T A) (s : Fs T) (e : FsError)
      → IsClean m s
      → error_of (m s).0 ≡ some e
      → (m s).1 ≡ s
  failed {A} m s e c h = c.clean e (inversion (m s).0 h)
    where
      inversion : (r : Result A) → error_of r ≡ some e → r ≡ err e
      inversion (ok a) h = cc
      inversion (err x) h = cc

  -- A call, other than the two ways to open a file and `mkdir_p`, that fails on a well-formed file
  -- system leaves it exactly as it was, with its clock and its positions.
  pub after-err :
      (s : Fs T) (c : Call) (e : FsError)
      → IsWellFormed s
      → is_atomic c ≡ true
      → outcome s c ≡ some e
      → after s c ≡ s
  after-err s (open_at fd path flags) e w a h = absurd cc
  after-err s (open_path_with_flags path flags) e w a h = absurd cc
  after-err s (mkdir_p path) e w a h = absurd cc
  after-err s (close fd) e w a h = failed _ s e (close-IsClean s fd) h
  after-err s (write fd buf) e w a h = failed _ s e (write-IsClean s fd buf) h
  after-err s (write_at fd offset buf) e w a h = failed _ s e (write_at-IsClean s fd offset buf) h
  after-err s (append_write fd buf) e w a h = failed _ s e (append_write-IsClean s fd buf) h
  after-err s (read fd out) e w a h = failed _ s e (read-IsClean s fd out) h
  after-err s (read_at fd offset out) e w a h = failed _ s e (read_at-IsClean s fd offset out) h
  after-err s (ftruncate fd size) e w a h = failed _ s e (ftruncate-IsClean s fd size) h
  after-err s (seek fd offset whence) e w a h = failed _ s e (seek-IsClean s fd offset whence) h
  after-err s (mkdir path) e w a h = failed _ s e (mkdir-IsClean s path) h
  after-err s (unlink path) e w a h = failed _ s e (unlink-IsClean s path) h
  after-err s (rmdir path) e w a h = failed _ s e (rmdir-IsClean s path) h
  after-err s (rename old_path new_path) e w a h =
      failed _ s e (rename-IsClean s old_path new_path w) h
