-- ===== src/Snapshot/Roundtrip.antt =====
-- Saving the file system and loading it, table entry by table entry.
use monaka_fs.Prelude.{
  ℕ, ◌≡◌, refl, sym, ◌∙◌, ap, inl, inr, true, false, not, List, [], ◌∷◌, Option, none, some, arith,
  ◌==◌, Bool-cases, Option-cases,
}
use mathlib.Core.Path.{subst₂}
use monaka_fs.Key.{Name, nat_key, name_key}
use monaka_fs.Map
use monaka_fs.Map.{Map, get, get-insert, get-nil}
use monaka_fs.Map.Sorted.{IsSorted, get-Above, Above-IsSorted}
use monaka_fs.Inode.{Inode, FileContent, file, dir, Metadata, FileHandle, is_file}
use monaka_fs.Storage.File.{File}
use monaka_fs.Storage.Refine.{contents}
use monaka_fs.Fs.{Fs, empty_with, inode_insert}
use monaka_fs.Fs.Invariant.{Table, IsWellFormed, IsGood, Agrees, IsLinked, has_dir}
use monaka_fs.Snapshot.{
  InodeSnapshot, save_inode, save_table, load_inode, load_content, save_content, load_inodes,
  to_snapshot, from_snapshot,
}
use monaka_fs.Snapshot.File.{load_file-save_file}

-- What a caller can tell of an inode: of a file the plain file.
pub data ContentView : Type 0 where
  file_view : File → ContentView
  dir_view : Map Name ℕ → ContentView

pub record InodeView : Type 0 where
  pub id : ℕ
  pub metadata : Metadata
  pub content : ContentView

abbrev pub view_content : FileContent → ContentView
view_content (file storage) = file_view (contents storage)
view_content (dir entries) = dir_view entries

abbrev pub view_inode : Inode → InodeView
view_inode i = record { id = i.id; metadata = i.metadata; content = view_content i.content }

abbrev pub view_at : Table → ℕ → Option InodeView
view_at table k = elim (Map.get table k) [ none ↦ none | some i ↦ some (view_inode i) ]

-- The inode that comes back for `i`.
abbrev back : ℕ → Inode → Inode
back k i = load_inode (save_inode k i)

view_content-back :
    (c : FileContent) (m : Metadata)
    → Agrees c m
    → view_content (load_content (save_content c)) ≡ view_content c
view_content-back (file storage) m a = ap file_view (load_file-save_file storage a.0).1
view_content-back (dir entries) m a = refl

Agrees-back :
    (c : FileContent) (m : Metadata) → Agrees c m → Agrees (load_content (save_content c)) m
Agrees-back (file storage) m a =
    let (v, same) = load_file-save_file storage a.0 in (v, a.1 ∙ sym (ap (λ f. f.size) same), a.2)
Agrees-back (dir entries) m a = a

is_file-back : (c : FileContent) → is_file (load_content (save_content c)) ≡ is_file c
is_file-back (file storage) = refl
is_file-back (dir entries) = refl

-- What the loop finds under `k`: the inode that was saved, or else what was there before.
abbrev back_or : ℕ → Option Inode → Option Inode → Option Inode
back_or k none before = before
back_or k (some i) before = some (back k i)

module _ {T : Type 0} where
  get-load_inodes :
      (table : Table) (s : Fs T) (k : ℕ)
      → IsSorted table
      → Map.get (load_inodes (save_table table) s).inode_table k
        ≡ back_or k (Map.get table k) (Map.get s.inode_table k)
  unfolding load_inodes inode_insert get
  get-load_inodes [] s k h = refl
  get-load_inodes ((j, i) ∷ table) s k h = elim (Bool-cases (j == k)) [
    | inl e ↦ ground (
      arith,
      get-load_inodes table (inode_insert s j (back j i)) k (Above-IsSorted j table h),
      get-insert s.inode_table j k (back j i),
      get-Above j table k h,
      nat_key.beq_iff j k,
    )
    | inr e ↦ ground (
      arith,
      get-load_inodes table (inode_insert s j (back j i)) k (Above-IsSorted j table h),
      get-insert s.inode_table j k (back j i),
    )
  ]

contains-back :
    (table : Table) (k id : ℕ)
    → Map.contains_key table id ≡ true
    → (u : Table) → Map.get u id ≡ back_or id (Map.get table id) none
    → Map.contains_key u id ≡ true
contains-back table k id h u e = ground arith

IsLinked-back :
    (c : FileContent) (table u : Table)
    → ((k : ℕ) → Map.get u k ≡ back_or k (Map.get table k) none)
    → IsLinked table c
    → IsLinked u (load_content (save_content c))
IsLinked-back (file storage) table u same h = tt
IsLinked-back (dir entries) table u same h =
    λ name id e. contains-back table 0 id (h name id e) u (same id)

IsGood-back :
    (table u : Table) (next k : ℕ) (i : Inode)
    → ((j : ℕ) → Map.get u j ≡ back_or j (Map.get table j) none)
    → IsGood table next k i
    → IsGood u next k (back k i)
IsGood-back table u next k i same g = record {
  id = refl;
  below = g.below;
  agrees = Agrees-back i.content i.metadata g.agrees;
  linked = IsLinked-back i.content table u same g.linked;
}

back_or-some :
    (k : ℕ) (o : Option Inode) (i : Inode)
    → back_or k o none ≡ some i
    → (j : Inode) × (o ≡ some j) × (back k j ≡ i)
back_or-some k none i h = absurd cc
back_or-some k (some j) i h = (j, refl, cc)

has_dir-back :
    (table u : Table) (k : ℕ)
    → Map.get u k ≡ back_or k (Map.get table k) none
    → has_dir table k ≡ true
    → has_dir u k ≡ true
has_dir-back table u k e h = elim (Option-cases (Map.get table k)) [
  | inl n ↦ absurd (cc (ap (λ o. elim o [ none ↦ false | some i ↦ not (is_file i.content) ]) n))
  | inr (i, n) ↦ ground (arith, is_file-back i.content)
]

view_inode-back :
    (k : ℕ) (i : Inode)
    → i.id ≡ k
    → Agrees i.content i.metadata
    → view_inode (back k i) ≡ view_inode i
view_inode-back k i p a = λ x. record {
  id = sym p x;
  metadata = i.metadata;
  content = view_content-back i.content i.metadata a x;
}

view_at-back :
    (table u : Table) (next k : ℕ)
    → Map.get u k ≡ back_or k (Map.get table k) none
    → ((i : Inode) → Map.get table k ≡ some i → IsGood table next k i)
    → view_at u k ≡ view_at table k
view_at-back table u next k e good = elim (Option-cases (Map.get table k)) [
  | inl n ↦ ground arith
  | inr (i, n) ↦ ground (arith, e, n, view_inode-back k i (good i n).id (good i n).agrees)
]

load_inodes-frame :
    {T : Type 0} (snaps : List InodeSnapshot) (s : Fs T)
    → let t = load_inodes snaps s in
      (t.next_inode ≡ s.next_inode) × (t.root_inode ≡ s.root_inode) × (t.fd_table ≡ s.fd_table)
unfolding load_inodes inode_insert
load_inodes-frame [] s = (refl, refl, refl)
load_inodes-frame (snap ∷ snaps) s =
    load_inodes-frame snaps (inode_insert s snap.id (load_inode snap))

module _ {T : Type 0} (s : Fs T) (tp : T) (sorted : IsSorted s.inode_table) where
  abbrev pub loaded : Fs T
  loaded = from_snapshot (to_snapshot s) tp

  get-loaded : (k : ℕ) → Map.get loaded.inode_table k ≡ back_or k (Map.get s.inode_table k) none
  unfolding from_snapshot to_snapshot empty_with
  get-loaded k =
      get-load_inodes s.inode_table (empty_with tp s.root_inode s.next_inode) k sorted
      ∙ ap (back_or k (Map.get s.inode_table k)) (get-nil {V = Inode} k)

  loaded-frame :
      (loaded.next_inode ≡ s.next_inode)
      × (loaded.root_inode ≡ s.root_inode)
      × (loaded.fd_table ≡ [])
  unfolding from_snapshot to_snapshot empty_with
  loaded-frame =
      load_inodes-frame (save_table s.inode_table) (empty_with tp s.root_inode s.next_inode)

  loaded-IsWellFormed : IsWellFormed s → IsWellFormed loaded
  loaded-IsWellFormed w = record {
    root =
        has_dir-back s.inode_table loaded.inode_table loaded.root_inode
          (get-loaded loaded.root_inode) (ap (has_dir s.inode_table) loaded-frame.1 ∙ w.root);
    inodes = λ k i e.
        let (j, found, same) =
          back_or-some k (Map.get s.inode_table k) i (sym (get-loaded k) ∙ e) in
        subst₂ (λ n a. IsGood loaded.inode_table n k a) (sym loaded-frame.0) same
          (IsGood-back s.inode_table loaded.inode_table s.next_inode k j get-loaded
            (w.inodes k j found));
    handles = λ fd h e. cc (loaded-frame.2, get-nil {V = FileHandle} fd);
  }

  -- A well-formed file system, whose table is in the order of its ids as a `BTreeMap` is, is saved
  -- to a snapshot from which a well-formed one is loaded, with the same next inode id, the same root
  -- and under every id the same metadata and the same directory entries or file contents, or nothing
  -- where there was nothing; no descriptor is open in it.
  pub from_snapshot-to_snapshot :
      IsWellFormed s
      → IsWellFormed loaded
        × (loaded.next_inode ≡ s.next_inode)
        × (loaded.root_inode ≡ s.root_inode)
        × (loaded.fd_table ≡ [])
        × ((k : ℕ) → view_at loaded.inode_table k ≡ view_at s.inode_table k)
  from_snapshot-to_snapshot w = (
    loaded-IsWellFormed w,
    loaded-frame.0,
    loaded-frame.1,
    loaded-frame.2,
    λ k. view_at-back s.inode_table loaded.inode_table s.next_inode k (get-loaded k) (w.inodes k),
  )
