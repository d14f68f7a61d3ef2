-- ===== src/Fs/Invariant/Calls.antt =====
-- The public calls that change the file system, as data, and the states that they reach.
use monaka_fs.Prelude.{ℕ, ◌+◌, ◌^◌, ◌≤◌, ◌<◌, ◌≡◌, refl, inl, inr, true, [], arith, length}
use monaka_fs.Key.{Name, nat_key, name_key}
use mathlib.Core.Path.{subst₂}
use monaka_fs.Map
use monaka_fs.Map.{get-insert_self, get-insert_cases, get-nil}
use monaka_fs.Path.{components}
use monaka_fs.Time.{TimeProvider}
use monaka_fs.Inode.{Inode, FileHandle, dir}
use monaka_fs.Storage.{Bytes}
use monaka_fs.Fs.{Fs, with_time_provider, empty_with, inode_insert}
use monaka_fs.Fs.Exec.{M}
use monaka_fs.Fs.Io.{write_pos}
use monaka_fs.Fs.Open
use monaka_fs.Fs.Io
use monaka_fs.Fs.Seek
use monaka_fs.Fs.Dirs
use monaka_fs.Fs.Remove
use monaka_fs.Fs.Rename
use monaka_fs.Fs.Invariant.{IsGood, IsWellFormed}
use monaka_fs.Fs.Invariant.Rules.{Ensures, Any}
use monaka_fs.Fs.Invariant.Opens.{open_at-Ensures, open_path_with_flags-Ensures, close-Ensures}
use monaka_fs.Fs.Invariant.Makes.{mkdir-Ensures, mkdir_p-Ensures}
use monaka_fs.Fs.Invariant.Removes.{unlink-Ensures, rmdir-Ensures, rename-Ensures}
use monaka_fs.Fs.Invariant.Transfers.{
  RoomAt, write-Ensures, write_at-Ensures, append_write-Ensures, ftruncate-Ensures, read-Ensures,
  read_at-Ensures, seek-Ensures,
}

pub data Call : Type 0 where
  open_at : ℕ → Name → ℕ → Call
  open_path_with_flags : Name → ℕ → Call
  close : ℕ → Call
  write : ℕ → Bytes → Call
  write_at : ℕ → ℕ → Bytes → Call
  append_write : ℕ → Bytes → Call
  read : ℕ → Bytes → Call
  read_at : ℕ → ℕ → Bytes → Call
  ftruncate : ℕ → ℕ → Call
  seek : ℕ → ℕ → ℕ → Call
  mkdir : Name → Call
  mkdir_p : Name → Call
  unlink : Name → Call
  rmdir : Name → Call
  rename : Name → Name → Call

-- The most inode ids that a call uses.
abbrev pub cost : Call → ℕ
cost (open_at fd path flags) = 1
cost (open_path_with_flags path flags) = 1
cost (mkdir path) = 1
cost (mkdir_p path) = length (components path)
cost _ = 0

-- What a write or a truncation adds stays in the address space.
abbrev pub Fits : {T : Type 0} → Fs T → Call → Type 0
Fits s (write fd buf) = RoomAt s fd write_pos (length buf)
Fits s (write_at fd offset buf) = RoomAt s fd (λ h storage. offset) (length buf)
Fits s (append_write fd buf) = RoomAt s fd (λ h storage. storage.size) (length buf)
Fits s (ftruncate fd size) = size < 2 ^ 64
Fits s _ = Unit

module _ {T : Type 0} ⦃time : TimeProvider T⦄ where
  -- The state after a call, whether it succeeds or not.
  abbrev pub after : Fs T → Call → Fs T
  after s (open_at fd path flags) = (Open.open_at fd path flags s).1
  after s (open_path_with_flags path flags) = (Open.open_path_with_flags path flags s).1
  after s (close fd) = (Open.close fd s).1
  after s (write fd buf) = (Io.write fd buf s).1
  after s (write_at fd offset buf) = (Io.write_at fd offset buf s).1
  after s (append_write fd buf) = (Io.append_write fd buf s).1
  after s (read fd out) = (Io.read fd out s).1
  after s (read_at fd offset out) = (Io.read_at fd offset out s).1
  after s (ftruncate fd size) = (Io.ftruncate fd size s).1
  after s (seek fd offset whence) = (Seek.seek fd offset whence s).1
  after s (mkdir path) = (Dirs.mkdir path s).1
  after s (mkdir_p path) = (Dirs.mkdir_p path s).1
  after s (unlink path) = (Remove.unlink path s).1
  after s (rmdir path) = (Remove.rmdir path s).1
  after s (rename old_path new_path) = (Rename.rename old_path new_path s).1

  -- The states that calls reach from `s`, with the inode ids that they may use.
  pub data Reach (s : Fs T) : ℕ → Fs T → Type 0 where
    here : Reach s 0 s
    next :
        {n m : ℕ} {t u : Fs T}
        → Reach s n t
        → (c : Call) → Fits t c
        → m ≡ n + cost c
        → u ≡ after t c
        → Reach s m u

  abbrev pub Keeps : Fs T → Call → Type 0
  Keeps s c = IsWellFormed (after s c) × ((after s c).next_inode ≤ s.next_inode + cost c)

  keeps :
      {A : Type 0} {b : ℕ} (m : M T A) (s : Fs T) (n : ℕ)
      → b ≤ n
      → Ensures b Any m s
      → IsWellFormed (m s).1 × ((m s).1.next_inode ≤ n)
  keeps m s n le p = (p.post.wf, omega (arith, p.post.spent))

  -- Every call, whether it succeeds or not, keeps a well-formed state well formed and uses at most the
  -- inode ids that it costs, if these stay below 2 ^ 64 and what it writes does.
  pub after-IsWellFormed :
      (s : Fs T) (c : Call) → IsWellFormed s → Fits s c → s.next_inode + cost c < 2 ^ 64 → Keeps s c
  after-IsWellFormed s (open_at fd path flags) w f room =
      keeps _ s _ (omega arith) (open_at-Ensures s fd path flags w room)
  after-IsWellFormed s (open_path_with_flags path flags) w f room =
      keeps _ s _ (omega arith) (open_path_with_flags-Ensures s path flags w room)
  after-IsWellFormed s (close fd) w f room = keeps _ s _ (omega arith) (close-Ensures s fd w)
  after-IsWellFormed s (write fd buf) w f room =
      keeps _ s _ (omega arith) (write-Ensures s fd w buf f)
  after-IsWellFormed s (write_at fd offset buf) w f room =
      keeps _ s _ (omega arith) (write_at-Ensures s fd w offset buf f)
  after-IsWellFormed s (append_write fd buf) w f room =
      keeps _ s _ (omega arith) (append_write-Ensures s fd w buf f)
  after-IsWellFormed s (read fd out) w f room = keeps _ s _ (omega arith) (read-Ensures s w fd out)
  after-IsWellFormed s (read_at fd offset out) w f room =
      keeps _ s _ (omega arith) (read_at-Ensures s w fd offset out)
  after-IsWellFormed s (ftruncate fd size) w f room =
      keeps _ s _ (omega arith) (ftruncate-Ensures s fd w size f)
  after-IsWellFormed s (seek fd offset whence) w f room =
      keeps _ s _ (omega arith) (seek-Ensures s w fd offset whence)
  after-IsWellFormed s (mkdir path) w f room =
      keeps _ s _ (omega arith) (mkdir-Ensures s path w room)
  after-IsWellFormed s (mkdir_p path) w f room =
      keeps _ s _ (omega arith) (mkdir_p-Ensures s path w room)
  after-IsWellFormed s (unlink path) w f room = keeps _ s _ (omega arith) (unlink-Ensures s path w)
  after-IsWellFormed s (rmdir path) w f room = keeps _ s _ (omega arith) (rmdir-Ensures s path w)
  after-IsWellFormed s (rename old_path new_path) w f room =
      keeps _ s _ (omega arith) (rename-Ensures s old_path new_path w)

  Reach-keeps :
      (s : Fs T) {n : ℕ} {t : Fs T}
      → IsWellFormed s
      → s.next_inode + n < 2 ^ 64
      → Reach s n t
      → IsWellFormed t × (t.next_inode ≤ s.next_inode + n)
  Reach-keeps s w room here = (w, omega arith)
  Reach-keeps s w room (next {n} {m} {t} {u} r c f e e') =
      let (wt, le) = Reach-keeps s w (omega arith) r in
      let k = after-IsWellFormed t c wt f (omega arith) in (rw e' (k.0), rw e' (omega (arith, k.1)))

  pub with_time_provider-IsWellFormed : (provider : T) → IsWellFormed (with_time_provider provider)
  unfolding with_time_provider empty_with inode_insert
  with_time_provider-IsWellFormed provider = record {
    root = ground (arith, get-insert_self {K = ℕ} [] 0 root);
    inodes = λ k i e. elim (get-insert_cases [] 0 k root i e) [
      | inl (p, q) ↦
          subst₂ (λ a b. IsGood (Map.insert [] 0 root) 1 a b) p q
            (record {
              id = refl;
              below = omega arith;
              agrees = refl;
              linked = λ name id h. cc (get-nil {V = ℕ} name);
            })
      | inr old ↦ cc (get-nil {V = Inode} k)
    ];
    handles = λ fd h e. cc (get-nil {V = FileHandle} fd);
  }
    where
      root : Inode
      root = record {
        id = 0;
        metadata = record {
          size = 0;
          created = (time.now provider).0;
          modified = (time.now provider).0;
          permissions = 0o755;
          is_dir = true;
        };
        content = dir [];
      }

  -- From the fresh file system, calls that use fewer than 2 ^ 64 - 1 inode ids and whose writes stay
  -- in the address space reach well-formed states alone.
  pub Reach-IsWellFormed :
      (provider : T) {n : ℕ} {t : Fs T}
      → n + 1 < 2 ^ 64
      → Reach (with_time_provider provider) n t
      → IsWellFormed t
  Reach-IsWellFormed provider {n} room r =
      (Reach-keeps (with_time_provider provider) {n = n} (with_time_provider-IsWellFormed provider)
        (unfold with_time_provider empty_with inode_insert in omega arith) r).0
