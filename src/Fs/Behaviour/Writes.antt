-- ===== src/Fs/Behaviour/Writes.antt =====
-- `write`, `write_at` and `append_write` against the plain file, and what else they change.
use monaka_fs.Prelude.{
  ℕ, ◌+◌, ◌^◌, ◌<◌, ◌≡◌, refl, sym, ◌∙◌, ap, false, Option, none, some, arith, ◌==◌, if◌then◌else◌,
  length,
}
use mathlib.Core.Path.{subst}
use monaka_fs.Key.{nat_key}
use monaka_fs.Map
use monaka_fs.Map.{get-insert, get-insert_self}
use monaka_fs.Error.{Result, ok}
use monaka_fs.Time.{TimeProvider}
use monaka_fs.Inode.{Metadata, Inode, FileHandle, file, dir, has, o_append, access_mode, o_rdonly}
use monaka_fs.Storage
use monaka_fs.Storage.{BlockStorage, Bytes, add_size}
use monaka_fs.Storage.View.{IsValid}
use monaka_fs.Storage.Write.{write_lem}
use monaka_fs.Storage.Refine.{contents, File_ext}
use monaka_fs.Storage.File
use monaka_fs.Storage.File.{File}
use monaka_fs.Fs.{Fs, InodeRef, fd_with, set_position, inode_get, inode_insert}
use monaka_fs.Fs.Exec.{M, ◌>>=◌, ◌>>◌}
use monaka_fs.Fs.Create.{now, store_file}
use monaka_fs.Fs.Io.{
  on_file, check_mode, write_pos, write_storage, write, write_at, append_write, handle_of, inode_of,
}

-- The descriptor is open on the file that the inode holds.
pub record IsOpen {T : Type 0} (s : Fs T) (fd : ℕ) (h : FileHandle) (i : Inode)
    (storage : BlockStorage) : Type 0 where
  pub handle : Map.get s.fd_table fd ≡ some h
  pub inode : Map.get s.inode_table h.inode_id ≡ some i
  pub content : i.content ≡ file storage

-- The plain file under an inode id.
abbrev pub file_at : {T : Type 0} → Fs T → ℕ → Option File
file_at s id = elim (Map.get s.inode_table id) [
  | none ↦ none
  | some i ↦ elim i.content [ file storage ↦ some (contents storage) | dir entries ↦ none ]
]

-- The id and the metadata under an inode id.
abbrev pub facts_at : {T : Type 0} → Fs T → ℕ → Option (ℕ × Metadata)
facts_at s id = elim (Map.get s.inode_table id) [ none ↦ none | some i ↦ some (i.id, i.metadata) ]

-- All of `buf` is written at `pos`: the file is the plain file after that write, and the position of
-- the descriptor is the end of the data. Of the inode's metadata the size becomes that of the plain
-- file and `modified` the time that the clock gives; its other fields, every other inode and
-- descriptor, the root and the next ids stay, and the clock is as `now` leaves it.
pub record Wrote {T : Type 0} ⦃time : TimeProvider T⦄ (s : Fs T) (fd : ℕ) (h : FileHandle)
    (i : Inode) (storage : BlockStorage) (pos : ℕ) (buf : Bytes) (out : Result ℕ × Fs T)
    : Type 0 where
  pub result : out.0 ≡ ok (length buf)
  pub stored : file_at out.1 h.inode_id ≡ some (File.write (contents storage) pos buf)
  pub facts :
      facts_at out.1 h.inode_id
      ≡ some (
        i.id,
        record i.metadata {
          size = (File.write (contents storage) pos buf).size;
          modified = (time.now s.time_provider).0;
        },
      )
  pub clock : out.1.time_provider ≡ (time.now s.time_provider).1
  pub next_inode : out.1.next_inode ≡ s.next_inode
  pub next_fd : out.1.next_fd ≡ s.next_fd
  pub root : out.1.root_inode ≡ s.root_inode
  pub other_files :
      (k : ℕ) → (h.inode_id == k) ≡ false → Map.get out.1.inode_table k ≡ Map.get s.inode_table k
  pub handle : Map.get out.1.fd_table fd ≡ some (record h { position = pos + length buf })
  pub other_handles : (k : ℕ) → (fd == k) ≡ false → Map.get out.1.fd_table k ≡ Map.get s.fd_table k

contents-write :
    (storage : BlockStorage) (pos : ℕ) (buf : Bytes)
    → IsValid storage
    → pos + length buf < 2 ^ 64
    → contents (Storage.write storage pos buf).1 ≡ File.write (contents storage) pos buf
contents-write storage pos buf v h =
    File_ext _ _ (write_lem storage pos buf v h).1 (write_lem storage pos buf v h).2

pub set_position-open :
    {T : Type 0} (s : Fs T) (fd pos : ℕ) (h : FileHandle)
    → Map.get s.fd_table fd ≡ some h
    → set_position s fd pos
      ≡ record s { fd_table = Map.insert s.fd_table fd (record h { position = pos }) }
unfolding set_position
set_position-open s fd pos h e = ground arith

-- The reference that a call takes from the table.
abbrev pub ref_of : FileHandle → Inode → InodeRef
ref_of h i = record { key = h.inode_id; inode = i }

module _ {T : Type 0} (s : Fs T) (fd : ℕ) (h : FileHandle) (i : Inode) (storage : BlockStorage)
    (o : IsOpen s fd h i storage) where
  pub mode_call :
      {A : Type 0} (denied : ℕ) (body : FileHandle → InodeRef → BlockStorage → M T A)
      → (access_mode h.flags == denied) ≡ false
      → (do
        handle ← handle_of fd
        check_mode handle denied
        r ← inode_of handle
        on_file r.inode.content λ st. body handle r st)
          s
        ≡ body h (ref_of h i) storage s
  unfolding fd_with inode_get ◌>>=◌
  mode_call denied body mode =
      ground (arith, o.handle, o.inode, mode)
      ∙ ap (λ c. on_file c (body h (ref_of h i)) s) o.content

module _ {T : Type 0} ⦃time : TimeProvider T⦄ (s : Fs T) (fd : ℕ) (h : FileHandle) (i : Inode)
    (storage : BlockStorage) (o : IsOpen s fd h i storage) (v : IsValid storage) where
  abbrev pub done : ℕ → Bytes → ℕ × BlockStorage
  done pos buf = Storage.write storage pos buf

  -- What `write_storage` leaves.
  abbrev pub stored_inode : ℕ → Bytes → ℕ → Inode
  stored_inode pos buf t = record {
    id = i.id;
    metadata = record i.metadata { size = (done pos buf).1.size; modified = t };
    content = file (done pos buf).1;
  }

  abbrev pub left : ℕ → Bytes → Fs T
  left pos buf = record s {
    inode_table =
        Map.insert s.inode_table h.inode_id (stored_inode pos buf (time.now s.time_provider).0);
    time_provider = (time.now s.time_provider).1;
    fd_table = Map.insert s.fd_table fd (record h { position = add_size pos (done pos buf).0 });
  }

  pub write_storage-left :
      (pos : ℕ) (buf : Bytes)
      → write_storage fd (ref_of h i) storage pos buf s ≡ (ok (done pos buf).0, left pos buf)
  unfolding write_storage store_file now inode_insert ◌>>=◌
  write_storage-left pos buf =
      ap (λ t. (ok (done pos buf).0, t))
        (set_position-open
          (record s {
            inode_table =
                Map.insert s.inode_table h.inode_id
                  (stored_inode pos buf (time.now s.time_provider).0);
            time_provider = (time.now s.time_provider).1;
          })
          fd (add_size pos (done pos buf).0) h o.handle)

  Wrote-left :
      (pos : ℕ) (buf : Bytes)
      → pos + length buf < 2 ^ 64
      → Wrote s fd h i storage pos buf (ok (done pos buf).0, left pos buf)
  Wrote-left pos buf room =
      let count = (write_lem storage pos buf v room).0 in
      let t = (time.now s.time_provider).0 in
      record {
        result = ap ok count;
        stored =
            ap
              (λ x. elim x [
                | none ↦ none
                | some j ↦ elim j.content [
                  | file storage ↦ some (contents storage)
                  | dir entries ↦ none
                ]
              ])
              (get-insert_self s.inode_table h.inode_id (stored_inode pos buf t))
            ∙ ap some (contents-write storage pos buf v room);
        facts =
            ap (λ x. elim x [ none ↦ none | some j ↦ some (j.id, j.metadata) ])
              (get-insert_self s.inode_table h.inode_id (stored_inode pos buf t))
            ∙ ap (λ f. some (i.id, record i.metadata { size = f.size; modified = t }))
                (contents-write storage pos buf v room);
        clock = refl;
        next_inode = refl;
        next_fd = refl;
        root = refl;
        other_files =
            λ k ne. ground (arith, get-insert s.inode_table h.inode_id k (stored_inode pos buf t));
        handle =
            get-insert_self s.fd_table fd (record h { position = add_size pos (done pos buf).0 })
            ∙ ap (λ n. some (record h { position = n })) (omega (arith, count));
        other_handles = λ k ne. ground (
          arith,
          get-insert s.fd_table fd k (record h { position = add_size pos (done pos buf).0 }),
        );
      }

  write_storage_lem :
      (pos : ℕ) (buf : Bytes)
      → pos + length buf < 2 ^ 64
      → Wrote s fd h i storage pos buf (write_storage fd (ref_of h i) storage pos buf s)
  write_storage_lem pos buf room =
      subst (Wrote s fd h i storage pos buf) (sym (write_storage-left pos buf))
        (Wrote-left pos buf room)

  pub write_at-left :
      (offset : ℕ) (buf : Bytes)
      → (access_mode h.flags == o_rdonly) ≡ false
      → write_at fd offset buf s ≡ (ok (done offset buf).0, left offset buf)
  unfolding write_at
  write_at-left offset buf mode =
      mode_call s fd h i storage o o_rdonly (λ handle r st. write_storage fd r st offset buf) mode
      ∙ write_storage-left offset buf

  -- `write`, on a descriptor that is open for writing on a valid file, with data that ends below
  -- 2 ^ 64, writes all of it at its position, or at the end of the file under `O_APPEND`: the file is
  -- the plain file after that write, the position is the end of the data, and of the rest only the size
  -- and the time of change in the inode's metadata, and the clock, change.
  pub write-Wrote :
      (buf : Bytes)
      → (access_mode h.flags == o_rdonly) ≡ false
      → (if has h.flags o_append then storage.size else h.position) + length buf < 2 ^ 64
      → Wrote s fd h i storage
          (if has h.flags o_append then storage.size else h.position)
          buf
          (write fd buf s)
  unfolding write
  write-Wrote buf mode room =
      subst (Wrote s fd h i storage (if has h.flags o_append then storage.size else h.position) buf)
        (sym (
          mode_call s fd h i storage o o_rdonly
            (λ handle r st. write_storage fd r st (write_pos handle st) buf) mode))
        (write_storage_lem (if has h.flags o_append then storage.size else h.position) buf room)

  -- `write_at`, on a descriptor that is open for writing on a valid file, with data that ends below
  -- 2 ^ 64, writes all of it at the offset, whatever `O_APPEND` says, and moves the position to the end
  -- of the data; of the rest only the size and the time of change in the inode's metadata, and the
  -- clock, change.
  pub write_at-Wrote :
      (offset : ℕ) (buf : Bytes)
      → (access_mode h.flags == o_rdonly) ≡ false
      → offset + length buf < 2 ^ 64
      → Wrote s fd h i storage offset buf (write_at fd offset buf s)
  unfolding write_at
  write_at-Wrote offset buf mode room =
      subst (Wrote s fd h i storage offset buf)
        (sym (
          mode_call s fd h i storage o o_rdonly (λ handle r st. write_storage fd r st offset buf)
            mode))
        (write_storage_lem offset buf room)

  -- `append_write`, on a descriptor that is open for writing on a valid file, with data that ends
  -- below 2 ^ 64, writes all of it at the end of the file and moves the position there; of the rest only
  -- the size and the time of change in the inode's metadata, and the clock, change.
  pub append_write-Wrote :
      (buf : Bytes)
      → (access_mode h.flags == o_rdonly) ≡ false
      → storage.size + length buf < 2 ^ 64
      → Wrote s fd h i storage storage.size buf (append_write fd buf s)
  unfolding append_write
  append_write-Wrote buf mode room =
      subst (Wrote s fd h i storage storage.size buf)
        (sym (
          mode_call s fd h i storage o o_rdonly (λ handle r st. write_storage fd r st st.size buf)
            mode))
        (write_storage_lem storage.size buf room)
