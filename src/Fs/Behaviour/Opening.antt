-- ===== src/Fs/Behaviour/Opening.antt =====
-- Opening by path a file that is there.
use monaka_fs.Prelude.{ℕ, ◌+◌, ◌%◌, ◌^◌, ◌≡◌, ◌∙◌, ap, true, false, List, ◌∷◌, arith, if◌then◌else◌}
use monaka_fs.Key.{Name, nat_key, name_key}
use monaka_fs.Map
use monaka_fs.Map.{Map}
use monaka_fs.Path
use monaka_fs.Path.{components, parents, last}
use monaka_fs.Error.{ok, invalid_argument}
use monaka_fs.Time.{TimeProvider}
use monaka_fs.Inode.{has, is_file, o_trunc}
use monaka_fs.Fs.{Fs, InodeRef, find_inode, walk, get_root, fd_insert}
use monaka_fs.Fs.Exec.{◌>>=◌, ◌>>◌, pure, fail, query-ok, >>=-ok}
use monaka_fs.Fs.Create.{allocate_fd, open_handle}
use monaka_fs.Fs.Open.{
  find_or_create, found_or_created, check_access, truncate_on_open, open_from, open_comps,
  open_path_with_flags,
}

-- The path leads to the inode.
pub record IsAt {T : Type 0} (s : Fs T) (path : Name) (root parent r : InodeRef) (comp : Name)
    (comps : List Name) : Type 0 where
  pub given : Path.is_empty path ≡ false
  pub split : components path ≡ comp ∷ comps
  pub root_is : get_root s ≡ ok root
  pub parent_is : walk s root (parents (comp ∷ comps)) ≡ ok parent
  pub target_is : find_inode s parent (last (comp ∷ comps)) ≡ ok r

-- The state after a descriptor was opened on the inode.
abbrev pub opened : {T : Type 0} → Fs T → ℕ → ℕ → Fs T
opened s id flags = record s {
  next_fd = (s.next_fd + 1) % 2 ^ 32;
  fd_table =
      Map.insert s.fd_table s.next_fd (record { inode_id = id; position = 0; flags = flags });
}

module _ {T : Type 0} ⦃time : TimeProvider T⦄ (s : Fs T) (path : Name) (root parent r : InodeRef)
    (comp : Name) (comps : List Name) (at_path : IsAt s path root parent r comp comps)
    (flags : ℕ) where
  open_tail :
      is_file r.inode.content ≡ true
      → has flags o_trunc ≡ false
      → (do check_access r flags; truncate_on_open r flags; open_handle r.inode.id flags) s
        ≡ (ok s.next_fd, opened s r.inode.id flags)
  unfolding check_access truncate_on_open open_handle allocate_fd fd_insert ◌>>=◌
  open_tail f t = ground (arith, f, t)

  find_or_create_existing : find_or_create parent (last (comp ∷ comps)) flags s ≡ (ok r, s)
  unfolding find_or_create pure
  find_or_create_existing =
      ap (λ x. found_or_created parent (last (comp ∷ comps)) flags x s) at_path.target_is

  open_from_existing :
      is_file r.inode.content ≡ true
      → has flags o_trunc ≡ false
      → open_from root (comp ∷ comps) flags s ≡ (ok s.next_fd, opened s r.inode.id flags)
  unfolding open_from
  open_from_existing f t =
      query-ok _ _ s parent at_path.parent_is
      ∙ >>=-ok _ _ s s r find_or_create_existing
      ∙ open_tail f t

  -- Opening by path a file that is there, without `O_TRUNC`, returns the next descriptor, open at
  -- position 0, and changes nothing else, whatever the other flags say: `O_CREAT` with `O_EXCL`
  -- is no exception.
  pub open_existing :
      is_file r.inode.content ≡ true
      → has flags o_trunc ≡ false
      → open_path_with_flags path flags s ≡ (ok s.next_fd, opened s r.inode.id flags)
  unfolding open_path_with_flags open_comps
  open_existing f t =
      ap (λ b. (if b then fail invalid_argument else open_comps (components path) flags) s)
        at_path.given
      ∙ ap (λ cs. open_comps cs flags s) at_path.split
      ∙ query-ok _ _ s root at_path.root_is
      ∙ open_from_existing f t
