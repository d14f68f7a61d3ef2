-- ===== src/Fs/Invariant/Tables.antt =====
-- The two changes of the tables that the calls make keep the state well formed.
use monaka_fs.Prelude.{ℕ, ◌≤◌, ◌<◌, ◌≡◌, ◌≢◌, ◌∙◌, true, false, some, arith, inl, inr, Option-cases}
use monaka_fs.Key.{nat_key, name_key}
use monaka_fs.Map
use mathlib.Core.Path.{subst₂}
use monaka_fs.Map.{Map, get-insert, get-insert_cases, get-remove-some}
use monaka_fs.Inode.{Inode, FileContent, file, dir, FileHandle, is_file}
use monaka_fs.Fs.{Fs, InodeRef, inode_insert, fd_insert, fd_remove, set_position}
use monaka_fs.Fs.Invariant.{Table, has_dir, Agrees, IsLinked, IsGood, IsWellFormed, IsRef}

module _ (table : Table) (k : ℕ) (i : Inode) where
  contains-insert :
      (id : ℕ)
      → Map.contains_key table id ≡ true
      → Map.contains_key (Map.insert table k i) id ≡ true
  contains-insert id h = ground (arith, get-insert table k id i)

  pub contains-insert_self : Map.contains_key (Map.insert table k i) k ≡ true
  contains-insert_self = ground (arith, get-insert table k k i)

  pub IsLinked-insert : (c : FileContent) → IsLinked table c → IsLinked (Map.insert table k i) c
  IsLinked-insert (file storage) h = tt
  IsLinked-insert (dir entries) h = λ name id e. contains-insert id (h name id e)

insert_comm :
    (table : Table) (a b : ℕ) (x y : Inode)
    → a ≢ b
    → (k : ℕ)
    → Map.get (Map.insert (Map.insert table a x) b y) k
      ≡ Map.get (Map.insert (Map.insert table b y) a x) k
insert_comm table a b x y ne k = ground (
  arith,
  get-insert (Map.insert table a x) b k y,
  get-insert table a k x,
  get-insert (Map.insert table b y) a k x,
  get-insert table b k y,
)

has_dir-some :
    (table : Table) (id : ℕ) → has_dir table id ≡ true → (i : Inode) × (Map.get table id ≡ some i)
has_dir-some table id h = elim (Option-cases (Map.get table id)) [
  | inl e ↦ ground arith
  | inr found ↦ found
]

module _ {T : Type 0} where
  -- An inode that agrees with its key and is linked goes into the table, where the root stays a
  -- directory.
  pub insert-IsWellFormed :
      (s : Fs T) (k next : ℕ) (i : Inode)
      → IsWellFormed s
      → s.next_inode ≤ next
      → IsGood (Map.insert s.inode_table k i) next k i
      → (k ≡ s.root_inode → is_file i.content ≡ false)
      → IsWellFormed (record s { inode_table = Map.insert s.inode_table k i; next_inode = next })
  insert-IsWellFormed s k next i w le good root = record {
    root = ground (arith, w.root, get-insert s.inode_table k s.root_inode i);
    inodes = λ j i' e. elim (get-insert_cases s.inode_table k j i i' e) [
      | inl (p, q) ↦ subst₂ (λ a b. IsGood (Map.insert s.inode_table k i) next a b) p q good
      | inr old ↦ grown (w.inodes j i' old)
    ];
    handles = λ fd h e. contains-insert s.inode_table k i h.inode_id (w.handles fd h e);
  }
    where
      grown :
          {j : ℕ} {i' : Inode}
          → IsGood s.inode_table s.next_inode j i'
          → IsGood (Map.insert s.inode_table k i) next j i'
      grown {j} {i'} g = record {
        id = g.id;
        below = omega (arith, g.below);
        agrees = g.agrees;
        linked = IsLinked-insert s.inode_table k i i'.content g.linked;
      }

  -- An inode of the table is replaced by one of the same id and kind.
  pub update-IsWellFormed :
      (s : Fs T) (r : InodeRef) (i : Inode)
      → IsWellFormed s
      → IsRef s r
      → i.id ≡ r.inode.id
      → is_file i.content ≡ is_file r.inode.content
      → Agrees i.content i.metadata
      → IsLinked s.inode_table i.content
      → IsWellFormed (inode_insert s r.key i)
  unfolding inode_insert
  update-IsWellFormed s r i w ref same kind agrees linked =
      insert-IsWellFormed s r.key s.next_inode i w (omega arith)
        (record {
          id = same ∙ old.id;
          below = old.below;
          agrees = agrees;
          linked = IsLinked-insert s.inode_table r.key i i.content linked;
        })
        (λ e. ground (arith, w.root, ref))
    where
      old : IsGood s.inode_table s.next_inode r.key r.inode
      old = w.inodes r.key r.inode ref

  pub fd_insert-IsWellFormed :
      (s : Fs T) (fd : ℕ) (h : FileHandle)
      → IsWellFormed s
      → Map.contains_key s.inode_table h.inode_id ≡ true
      → IsWellFormed (fd_insert s fd h)
  unfolding fd_insert
  fd_insert-IsWellFormed s fd h w c = record {
    root = w.root;
    inodes = w.inodes;
    handles = λ fd' h' e. elim (get-insert_cases s.fd_table fd fd' h h' e) [
      | inl (p, q) ↦ rw (← q) c
      | inr old ↦ w.handles fd' h' old
    ];
  }

  pub fd_remove-IsWellFormed : (s : Fs T) (fd : ℕ) → IsWellFormed s → IsWellFormed (fd_remove s fd)
  unfolding fd_remove
  fd_remove-IsWellFormed s fd w = record {
    root = w.root;
    inodes = w.inodes;
    handles = λ fd' h e. w.handles fd' h (get-remove-some s.fd_table fd fd' h e);
  }

  -- Moving the position of a descriptor changes no other part of the state.
  pub set_position-IsWellFormed :
      (s : Fs T) (fd pos : ℕ) → IsWellFormed s → IsWellFormed (set_position s fd pos)
  unfolding set_position fd_insert
  set_position-IsWellFormed s fd pos w = elim (Option-cases (Map.get s.fd_table fd)) [
    | inl e ↦ rw (e, set_position) w
    | inr (h, e) ↦
        rw (e, set_position)
          (fd_insert-IsWellFormed s fd (record h { position = pos }) w (w.handles fd h e))
  ]

  -- Only what the table holds under each id counts, not how.
  IsWellFormed-ext :
      (s : Fs T) (table : Table)
      → ((k : ℕ) → Map.get s.inode_table k ≡ Map.get table k)
      → IsWellFormed s
      → IsWellFormed (record s { inode_table = table })
  IsWellFormed-ext s table e w = record {
    root = ground (arith, e s.root_inode, w.root);
    inodes = λ k i h. grown k i (w.inodes k i (e k ∙ h));
    handles = λ fd h x. ground (arith, e h.inode_id, w.handles fd h x);
  }
    where
      linked : (c : FileContent) → IsLinked s.inode_table c → IsLinked table c
      linked (file storage) h = tt
      linked (dir entries) h = λ name id x. ground (arith, e id, h name id x)

      grown :
          (k : ℕ) (i : Inode)
          → IsGood s.inode_table s.next_inode k i
          → IsGood table s.next_inode k i
      grown k i g = record {
        id = g.id;
        below = g.below;
        agrees = g.agrees;
        linked = linked i.content g.linked;
      }

  next-ne-root : (s : Fs T) → IsWellFormed s → s.next_inode ≡ s.root_inode → ⊥
  next-ne-root s w e =
      let r = has_dir-some s.inode_table s.root_inode w.root in
      omega (arith, (w.inodes s.root_inode r.0 r.1).below)

  -- A directory gets an entry for a new inode, which goes into the table after it.
  pub create-IsWellFormed :
      (s : Fs T) (parent : InodeRef) (p i : Inode) (next : ℕ)
      → IsWellFormed s
      → IsRef s parent
      → p.id ≡ parent.inode.id
      → is_file p.content ≡ is_file parent.inode.content
      → Agrees p.content p.metadata
      → IsLinked (Map.insert s.inode_table s.next_inode i) p.content
      → i.id ≡ s.next_inode
      → Agrees i.content i.metadata
      → IsLinked s.inode_table i.content
      → s.next_inode < next
      → IsWellFormed (record s {
        inode_table = Map.insert (Map.insert s.inode_table parent.key p) s.next_inode i;
        next_inode = next;
      })
  create-IsWellFormed s parent p i next w ref same kind agrees linked id agrees' linked' lt =
      IsWellFormed-ext _ _
        (insert_comm s.inode_table s.next_inode parent.key i p (omega (arith, old.below)))
        (unfold inode_insert in
          update-IsWellFormed (record s { inode_table = t1; next_inode = next }) parent p
            (insert-IsWellFormed s s.next_inode next i w (omega arith)
              (record {
                id = id;
                below = lt;
                agrees = agrees';
                linked = IsLinked-insert s.inode_table s.next_inode i i.content linked';
              })
              (λ e. absurd (root_old e)))
            (ground (arith, get-insert s.inode_table s.next_inode parent.key i, old.below)) same
            kind agrees linked)
    where
      old : IsGood s.inode_table s.next_inode parent.key parent.inode
      old = w.inodes parent.key parent.inode ref

      t1 : Table
      t1 = Map.insert s.inode_table s.next_inode i

      root_old : s.next_inode ≡ s.root_inode → ⊥
      root_old = next-ne-root s w
