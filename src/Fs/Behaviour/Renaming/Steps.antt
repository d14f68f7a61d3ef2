-- ===== src/Fs/Behaviour/Renaming/Steps.antt =====
-- The last steps of `rename`, within a directory and from one to another.
use mathlib.Core.Path.{subst}
use monaka_fs.Prelude.{
  ℕ, ◌≡◌, refl, sym, ◌∙◌, ap, inl, inr, true, false, none, some, ◌&&◌, arith, ◌==◌, ==_iff,
  if◌then◌else◌, Bool-cases,
}
use monaka_fs.Key.{Name, nat_key, name_key, name_eq}
use monaka_fs.Map
use monaka_fs.Map.{Map, get-insert, get-insert_self, get-remove}
use monaka_fs.Error.{ok}
use monaka_fs.Time.{TimeProvider}
use monaka_fs.Inode.{Inode, dir}
use monaka_fs.Fs.{Fs, InodeRef, inode_insert}
use monaka_fs.Fs.Exec.{M, ◌>>=◌}
use monaka_fs.Fs.Create.{touched, now, store_entries}
use monaka_fs.Fs.Rename.{
  reinsert, rename_in, rename_within, move_to, move_entry, move_from, rename_across,
}
use monaka_fs.Fs.Invariant.{IsRef}
use monaka_fs.Fs.Behaviour.Removal.{entry_of, entries_get, entry_at}
use monaka_fs.Fs.Behaviour.Writes.{facts_at}
use monaka_fs.Fs.Behaviour.Renaming.{stamped_facts, Moved}

==-swap : (a b : ℕ) → (a == b) ≡ false → (b == a) ≡ false
==-swap a b h = ground arith

module _ {T : Type 0} ⦃time : TimeProvider T⦄ (s : Fs T) (old new : InodeRef)
    (old_name new_name : Name) where
  abbrev stamp : ℕ
  stamp = (time.now s.time_provider).0

  abbrev ticked : Fs T
  ticked = record s { time_provider = (time.now s.time_provider).1 }

  abbrev stamped : InodeRef → Map Name ℕ → Inode
  stamped r entries = record (touched r.inode stamp) { content = dir entries }

  -- The directory `r` with the entries, in the table of `u`.
  abbrev with_entries : Fs T → InodeRef → Map Name ℕ → Fs T
  with_entries u r entries = record u {
    inode_table = Map.insert u.inode_table r.key (stamped r entries);
  }

  abbrev left_within : Map Name ℕ → ℕ → Fs T
  left_within entries id =
      with_entries ticked old (Map.insert (Map.remove entries old_name) new_name id)

  abbrev left_across : Map Name ℕ → Map Name ℕ → ℕ → Fs T
  left_across entries new_entries id =
      with_entries (with_entries ticked old (Map.remove entries old_name)) new
        (Map.insert new_entries new_name id)

  -- The end of `rename_comps`, after the lookups and the checks.
  abbrev pub last_steps : M T (Unit {0})
  last_steps = do
    t ← now
    (if old.inode.id == new.inode.id
        then rename_within old old_name new_name t
        else rename_across old new old_name new_name t)

  pub last_steps-within :
      (entries : Map Name ℕ) (id : ℕ)
      → (old.inode.id == new.inode.id) ≡ true
      → old.inode.content ≡ dir entries
      → Map.get entries old_name ≡ some id
      → last_steps s ≡ (ok tt, left_within entries id)
  unfolding now ◌>>=◌ rename_within store_entries inode_insert
  last_steps-within entries id same e g =
      ap
        (λ b.
          (if b
              then rename_within old old_name new_name stamp
              else rename_across old new old_name new_name stamp)
            ticked)
        same
      ∙ ap (λ c. rename_in old c old_name new_name stamp ticked) e
      ∙ ap (λ o. reinsert old entries old_name new_name stamp o ticked) g

  pub last_steps-across :
      (entries new_entries : Map Name ℕ) (id : ℕ)
      → (old.inode.id == new.inode.id) ≡ false
      → old.inode.content ≡ dir entries
      → Map.get entries old_name ≡ some id
      → new.inode.content ≡ dir new_entries
      → last_steps s ≡ (ok tt, left_across entries new_entries id)
  unfolding now ◌>>=◌ rename_across store_entries inode_insert
  last_steps-across entries new_entries id differ e g e' =
      ap
        (λ b.
          (if b
              then rename_within old old_name new_name stamp
              else rename_across old new old_name new_name stamp)
            ticked)
        differ
      ∙ ap (λ c. move_from old new c old_name new_name stamp ticked) e
      ∙ ap (λ o. move_entry old new entries old_name new_name stamp o ticked) g
      ∙ ap
          (λ c.
            move_to new c new_name id stamp (with_entries ticked old (Map.remove entries old_name)))
          e'

  entry_at-ref :
      (r : InodeRef) (entries : Map Name ℕ)
      → IsRef s r
      → r.inode.content ≡ dir entries
      → (n : Name) → entry_at s r.key n ≡ Map.get entries n
  entry_at-ref r entries is_ref e n = ap (entry_of n) is_ref ∙ ap (entries_get n) e

  entry_at-with_entries :
      (u : Fs T) (r : InodeRef) (entries : Map Name ℕ) (k : ℕ) (n : Name)
      → entry_at (with_entries u r entries) k n
        ≡ (if r.key == k then Map.get entries n else entry_at u k n)
  entry_at-with_entries u r entries k n =
      ap (entry_of n) (get-insert u.inode_table r.key k (stamped r entries))
      ∙ elim (Bool-cases (r.key == k)) [ inl e ↦ rw e refl | inr e ↦ rw e refl ]

  facts_at-with_entries :
      (u : Fs T) (r : InodeRef) (entries : Map Name ℕ)
      → facts_at (with_entries u r entries) r.key ≡ some (stamped_facts r.inode stamp)
  facts_at-with_entries u r entries =
      ap (λ x. elim x [ none ↦ none | some i ↦ some (i.id, i.metadata) ])
        (get-insert_self u.inode_table r.key (stamped r entries))

  entries-within :
      (entries : Map Name ℕ) (id : ℕ) (k : ℕ) (n : Name)
      → ((n : Name) → entry_at s old.key n ≡ Map.get entries n)
      → Map.get entries old_name ≡ some id
      → entry_at (left_within entries id) k n ≡ (
          if (old.key == k) && name_eq new_name n
          then entry_at s old.key old_name
          else if (old.key == k) && name_eq old_name n
          then none
          else entry_at s k n)
  entries-within entries id k n here g =
      entry_at-with_entries ticked old (Map.insert (Map.remove entries old_name) new_name id) k n
      ∙ elim (Bool-cases (old.key == k)) [
        | inr h ↦ rw h refl
        | inl h ↦
            rw
              (
                h,
                get-insert (Map.remove entries old_name) new_name n id,
                get-remove entries old_name n,
                here old_name,
                g,
                sym (here n),
                (==_iff old.key k).0 h,
              )
              refl
      ]

  entries-across :
      (entries new_entries : Map Name ℕ) (id : ℕ) (k : ℕ) (n : Name)
      → (old.key == new.key) ≡ false
      → ((n : Name) → entry_at s old.key n ≡ Map.get entries n)
      → ((n : Name) → entry_at s new.key n ≡ Map.get new_entries n)
      → Map.get entries old_name ≡ some id
      → entry_at (left_across entries new_entries id) k n ≡ (
          if (new.key == k) && name_eq new_name n
          then entry_at s old.key old_name
          else if (old.key == k) && name_eq old_name n
          then none
          else entry_at s k n)
  entries-across entries new_entries id k n differ here there g =
      entry_at-with_entries (with_entries ticked old (Map.remove entries old_name)) new
        (Map.insert new_entries new_name id) k n
      ∙ ap (λ x. if new.key == k then Map.get (Map.insert new_entries new_name id) n else x)
          (entry_at-with_entries ticked old (Map.remove entries old_name) k n)
      ∙ elim (Bool-cases (new.key == k)) [
        | inl h ↦
            rw
              (
                h,
                sym ((==_iff new.key k).0 h),
                differ,
                get-insert new_entries new_name n id,
                here old_name,
                g,
                sym (there n),
              )
              refl
        | inr h ↦ elim (Bool-cases (old.key == k)) [
          | inl h' ↦
              rw (h, h', get-remove entries old_name n, sym (here n), (==_iff old.key k).0 h') refl
          | inr h' ↦ rw (h, h') refl
        ]
      ]

  pub Moved-across :
      (entries new_entries : Map Name ℕ) (id : ℕ)
      → IsRef s old
      → IsRef s new
      → (old.key == new.key) ≡ false
      → old.inode.content ≡ dir entries
      → new.inode.content ≡ dir new_entries
      → Map.get entries old_name ≡ some id
      → Moved s old old_name new new_name (ok tt, left_across entries new_entries id)
  Moved-across entries new_entries id old_ref new_ref differ e e' g =
      let middle = with_entries ticked old (Map.remove entries old_name) in
      record {
        result = refl;
        entries = λ k n.
            entries-across entries new_entries id k n differ (entry_at-ref old entries old_ref e)
              (entry_at-ref new new_entries new_ref e') g;
        old_facts =
            ap (λ x. elim x [ none ↦ none | some i ↦ some (i.id, i.metadata) ])
              (get-insert middle.inode_table new.key old.key
                  (stamped new (Map.insert new_entries new_name id))
                ∙ rw (==-swap old.key new.key differ) refl)
            ∙ facts_at-with_entries ticked old (Map.remove entries old_name);
        new_facts = facts_at-with_entries middle new (Map.insert new_entries new_name id);
        other_inodes = λ k d d'.
            get-insert middle.inode_table new.key k _
            ∙ rw d' (get-insert s.inode_table old.key k _ ∙ rw d refl);
        handles = refl;
        next_inode = refl;
        next_fd = refl;
        root = refl;
        clock = refl;
      }

  pub Moved-within :
      (entries : Map Name ℕ) (id : ℕ)
      → IsRef s old
      → old ≡ new
      → old.inode.content ≡ dir entries
      → Map.get entries old_name ≡ some id
      → Moved s old old_name new new_name (ok tt, left_within entries id)
  Moved-within entries id is_ref same e g =
      subst (λ r. Moved s old old_name r new_name (ok tt, left_within entries id)) same
        (record {
          result = refl;
          entries = λ k n. entries-within entries id k n (entry_at-ref old entries is_ref e) g;
          old_facts = facts_at-with_entries ticked old _;
          new_facts = facts_at-with_entries ticked old _;
          other_inodes = λ k d d'. get-insert s.inode_table old.key k _ ∙ rw d refl;
          handles = refl;
          next_inode = refl;
          next_fd = refl;
          root = refl;
          clock = refl;
        })
