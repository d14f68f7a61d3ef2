-- ===== src/Fs/Behaviour/Reads.antt =====
-- What `read` and `read_at` return, and what a descriptor sees of what another one wrote.
use monaka_fs.Prelude.{
  ℕ, ◌+◌, ◌^◌, ◌<◌, ◌≡◌, refl, sym, ◌∙◌, ap, inl, inr, false, some, arith, ◌==◌, length, Bool-cases,
  ==_iff,
}
use monaka_fs.Key.{nat_key}
use monaka_fs.Map
use monaka_fs.Map.{get-insert, get-insert_self}
use monaka_fs.Error.{ok}
use monaka_fs.Time.{TimeProvider}
use monaka_fs.Inode.{Inode, FileHandle, access_mode, o_rdonly, o_wronly}
use monaka_fs.Storage
use monaka_fs.Storage.{BlockStorage, Bytes, add_size}
use monaka_fs.Storage.View.{IsValid}
use monaka_fs.Storage.Refine.{read-write}
use monaka_fs.Fs.{Fs, set_position}
use monaka_fs.Fs.Exec.{◌>>=◌}
use monaka_fs.Fs.Io.{read_storage, read, read_at, write_at}
use monaka_fs.Fs.Behaviour.Writes.{IsOpen, mode_call, left, stored_inode, write_at-left}

module _ {T : Type 0} (s : Fs T) (fd : ℕ) (h : FileHandle) (i : Inode) (storage : BlockStorage)
    (o : IsOpen s fd h i storage) where
  -- `read`, on a descriptor that is open for reading on a file, reads at its position, which it
  -- moves behind the bytes read, and changes nothing else.
  pub read_call :
      (out : Bytes)
      → (access_mode h.flags == o_wronly) ≡ false
      → let done = Storage.read storage h.position out in
        read fd out s ≡ (ok done, set_position s fd (add_size h.position done.0))
  unfolding read read_storage ◌>>=◌
  read_call out mode =
      mode_call s fd h i storage o o_wronly (λ handle r st. read_storage fd st handle.position out)
        mode

  pub read_at_call :
      (offset : ℕ) (out : Bytes)
      → (access_mode h.flags == o_wronly) ≡ false
      → let done = Storage.read storage offset out in
        read_at fd offset out s ≡ (ok done, set_position s fd (add_size offset done.0))
  unfolding read_at read_storage ◌>>=◌
  read_at_call offset out mode =
      mode_call s fd h i storage o o_wronly (λ handle r st. read_storage fd st offset out) mode

module _ {T : Type 0} ⦃time : TimeProvider T⦄ (s : Fs T) (fd : ℕ) (h : FileHandle) (i : Inode)
    (storage : BlockStorage) (o : IsOpen s fd h i storage) (v : IsValid storage) where
  -- After a write another descriptor of the same file is open on what was written; it may be the
  -- descriptor of the write, which has moved.
  IsOpen-left :
      (fd2 : ℕ) (h2 : FileHandle) (offset : ℕ) (buf : Bytes)
      → IsOpen s fd2 h2 i storage
      → h2.inode_id ≡ h.inode_id
      → (h3 : FileHandle) × IsOpen
          (left s fd h i storage o v offset buf)
          fd2
          h3
          (stored_inode s fd h i storage o v offset buf (time.now s.time_provider).0)
          (Storage.write storage offset buf).1
        × (h3.flags ≡ h2.flags)
  IsOpen-left fd2 h2 offset buf o2 same = elim (Bool-cases (fd == fd2)) [
    | inl e ↦ (
      record h { position = add_size offset (Storage.write storage offset buf).0 },
      record {
        handle = ground (
          arith,
          get-insert s.fd_table fd fd2
              (record h { position = add_size offset (Storage.write storage offset buf).0 }),
        );
        inode = get-insert_self s.inode_table h.inode_id _;
        content = refl;
      },
      same_flags ((==_iff fd fd2).0 e),
    )
    | inr e ↦ (
      h2,
      record {
        handle = ground (
          arith,
          o2.handle,
          get-insert s.fd_table fd fd2
              (record h { position = add_size offset (Storage.write storage offset buf).0 }),
        );
        inode =
            ap (Map.get (left s fd h i storage o v offset buf).inode_table) same
            ∙ get-insert_self s.inode_table h.inode_id _;
        content = refl;
      },
      refl,
    )
  ]
    where
      some-injective : {x y : FileHandle} → some x ≡ some y → x ≡ y
      some-injective e = cc

      same_flags : fd ≡ fd2 → h.flags ≡ h2.flags
      same_flags e =
          ap (λ x. x.flags) (some-injective (sym o.handle ∙ ap (Map.get s.fd_table) e ∙ o2.handle))

  -- What a descriptor that is open for writing writes to a valid file at an offset, ending below
  -- 2 ^ 64, any descriptor that is open for reading on that file, the same one or another, reads at
  -- that offset right after, all of it, into a buffer of that length.
  pub read_at-write_at :
      (fd2 : ℕ) (h2 : FileHandle) (offset : ℕ) (buf out : Bytes)
      → IsOpen s fd2 h2 i storage
      → h2.inode_id ≡ h.inode_id
      → (access_mode h.flags == o_rdonly) ≡ false
      → (access_mode h2.flags == o_wronly) ≡ false
      → offset + length buf < 2 ^ 64
      → length out ≡ length buf
      → (read_at fd2 offset out (write_at fd offset buf s).1).0 ≡ ok (length buf, buf)
  read_at-write_at fd2 h2 offset buf out o2 same mode mode2 room len =
      let (h3, o3, flags) = IsOpen-left fd2 h2 offset buf o2 same in
      ap (λ w. (read_at fd2 offset out w.1).0) (write_at-left s fd h i storage o v offset buf mode)
      ∙ ap (λ w. w.0)
          (read_at_call _ fd2 h3 _ _ o3 offset out
            (ap (λ f. access_mode f == o_wronly) flags ∙ mode2))
      ∙ ap ok (read-write storage offset buf out v room len)
