-- ===== src/Fs/Invariant/Makes.antt =====
-- `mkdir` and `mkdir_p` keep the state well formed.
use monaka_fs.Prelude.{ℕ, ◌+◌, ◌^◌, ◌<◌, ◌≡◌, refl, true, List, [], ◌∷◌, arith, length}
use mathlib.Core.Path.{subst}
use monaka_fs.Key.{Name}
use monaka_fs.Path
use monaka_fs.Path.{components, parents, last}
use monaka_fs.Error.{Result, ok, err, not_found, already_exists}
use monaka_fs.Time.{TimeProvider}
use monaka_fs.Fs.{Fs, InodeRef, find_inode}
use monaka_fs.Fs.Exec.{◌>>=◌}
use monaka_fs.Fs.Create.{create_inode}
use monaka_fs.Fs.Dirs.{
  mkdir_comps, mkdir, made, found_or_made, find_or_make, make_all, mkdir_p_comps, mkdir_p,
}
use monaka_fs.Fs.Invariant.{IsWellFormed, IsRef}
use monaka_fs.Fs.Invariant.Rules.{
  Post, Post-fail, Ensures, Any, Ensures-pure, Ensures-fail, Ensures-if, Ensures-bind,
  Ensures-query, Ensures-weaken,
}
use monaka_fs.Fs.Invariant.Lookups.{IsRef-get_root, IsRef-find_inode, IsRef-walk, enter-eq}
use monaka_fs.Fs.Invariant.Steps.{UpToDate, create_inode-Ensures}

module _ {T : Type 0} ⦃time : TimeProvider T⦄ where
  mkdir_comps-Ensures :
      (s : Fs T) (comps : List Name)
      → IsWellFormed s
      → s.next_inode + 1 < 2 ^ 64
      → Ensures (s.next_inode + 1) Any (mkdir_comps comps) s
  unfolding mkdir_comps
  mkdir_comps-Ensures s [] w room = Ensures-fail _ w (omega arith)
  mkdir_comps-Ensures s (comp ∷ comps) w room = Ensures-query _ _ w (omega arith) λ root h.
      Ensures-query _ _ w (omega arith) λ parent walked.
        Ensures-bind _ _ (omega arith)
          (create_inode-Ensures s w parent
            (IsRef-walk s root _ parent (IsRef-get_root s root h) walked) (last (comp ∷ comps)) true
            room)
          λ r s1 w1 le1 ref1. Ensures-pure tt w1 le1 tt

  pub mkdir-Ensures :
      (s : Fs T) (path : Name)
      → IsWellFormed s
      → s.next_inode + 1 < 2 ^ 64
      → Ensures (s.next_inode + 1) Any (mkdir path) s
  unfolding mkdir
  mkdir-Ensures s path w room =
      Ensures-if (Path.is_empty path) (λ e. Ensures-fail _ w (omega arith))
        (λ e. mkdir_comps-Ensures s (components path) w room)

  made-Post :
      (b : ℕ) (parent : InodeRef) (name : Name) (r : Result InodeRef) (s : Fs T)
      → Post b UpToDate (r, s)
      → Post b UpToDate (made parent name r s)
  unfolding ◌>>=◌
  made-Post b parent name (ok r) s p = p
  made-Post b parent name (err already_exists) s p = record {
    wf = p.wf;
    spent = p.spent;
    result = λ q e. IsRef-find_inode s parent name q e;
  }
  made-Post b parent name (err _) s p = Post-fail _ _ _ s p.wf p.spent

  find_or_make-Ensures :
      (s : Fs T) (current : InodeRef) (comp : Name)
      → IsWellFormed s
      → IsRef s current
      → s.next_inode + 1 < 2 ^ 64
      → Ensures (s.next_inode + 1) UpToDate (find_or_make current comp) s
  unfolding find_or_make ◌>>=◌
  find_or_make-Ensures s current comp w ref room = record {
    post = go (find_inode s current comp) (λ q e. IsRef-find_inode s current comp q e);
  }
    where
      go :
          (r : Result InodeRef)
          → ((q : InodeRef) → r ≡ ok q → IsRef s q)
          → Post (s.next_inode + 1) UpToDate (found_or_made current comp r s)
      go (ok r) h = record {
        wf = w;
        spent = omega arith;
        result = λ q e. subst (IsRef s) (enter-eq r q e) (h r refl);
      }
      go (err not_found) h =
          made-Post _ current comp (create_inode current comp true s).0
            (create_inode current comp true s).1
            (create_inode-Ensures s w current ref comp true room).post
      go (err _) h = Post-fail _ _ _ s w (omega arith)

  make_all-Ensures :
      (s : Fs T) (current : InodeRef) (comps : List Name)
      → IsWellFormed s
      → IsRef s current
      → s.next_inode + length comps < 2 ^ 64
      → Ensures (s.next_inode + length comps) Any (make_all current comps) s
  unfolding make_all
  make_all-Ensures s current [] w ref room = Ensures-pure tt w (omega arith) tt
  make_all-Ensures s current (comp ∷ comps) w ref room =
      Ensures-bind _ _ (omega arith) (find_or_make-Ensures s current comp w ref (omega arith))
        λ r s1 w1 le1 ref1.
          Ensures-weaken _ (omega arith) (make_all-Ensures s1 r comps w1 ref1 (omega arith))

  mkdir_p_comps-Ensures :
      (s : Fs T) (comps : List Name)
      → IsWellFormed s
      → s.next_inode + length comps < 2 ^ 64
      → Ensures (s.next_inode + length comps) Any (mkdir_p_comps comps) s
  unfolding mkdir_p_comps
  mkdir_p_comps-Ensures s [] w room = Ensures-pure tt w (omega arith) tt
  mkdir_p_comps-Ensures s (comp ∷ comps) w room =
      Ensures-query _ _ w (omega arith)
        λ root h. make_all-Ensures s root (comp ∷ comps) w (IsRef-get_root s root h) room

  pub mkdir_p-Ensures :
      (s : Fs T) (path : Name)
      → IsWellFormed s
      → s.next_inode + length (components path) < 2 ^ 64
      → Ensures (s.next_inode + length (components path)) Any (mkdir_p path) s
  unfolding mkdir_p
  mkdir_p-Ensures s path w room =
      Ensures-if (Path.is_empty path) (λ e. Ensures-fail _ w (omega arith))
        (λ e. mkdir_p_comps-Ensures s (components path) w room)
