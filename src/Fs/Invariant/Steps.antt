-- ===== src/Fs/Invariant/Steps.antt =====
-- The steps of the calls keep the state well formed.
use monaka_fs.Prelude.{ℕ, ◌+◌, ◌^◌, ◌<◌, ◌≡◌, refl, sym, inl, inr, ap, Bool, true, false, arith}
use mathlib.Core.Path.{subst}
use monaka_fs.Key.{Name, nat_key, name_key}
use monaka_fs.Map
use monaka_fs.Map.{Map, get-insert, get-insert_cases, get-insert_self, get-nil, get-remove-some}
use monaka_fs.Error.{ok}
use monaka_fs.Time.{TimeProvider}
use monaka_fs.Inode.{Inode, FileContent, file, dir, Metadata, is_file}
use monaka_fs.Storage.{BlockStorage}
use monaka_fs.Storage.View.{IsValid}
use monaka_fs.Storage.Refine.{new-IsValid}
use monaka_fs.Fs.{Fs, InodeRef}
use monaka_fs.Fs.Exec.{◌>>=◌}
use monaka_fs.Fs.Create.{
  store_entries, store_file, insert_new, create_in, create_inode, open_handle, touched, fresh_inode,
}
use monaka_fs.Fs.Invariant.{Table, Agrees, IsLinked, IsGood, IsWellFormed, IsRef}
use monaka_fs.Fs.Invariant.Tables.{
  update-IsWellFormed, create-IsWellFormed, fd_insert-IsWellFormed, contains-insert_self,
  IsLinked-insert,
}
use monaka_fs.Fs.Invariant.Rules.{Ensures, Any, Ensures-fail, Ensures-if}

module _ {T : Type 0} (s : Fs T) (w : IsWellFormed s) where
  pub with_time-IsWellFormed : (p : T) → IsWellFormed (record s { time_provider = p })
  with_time-IsWellFormed p = record { root = w.root; inodes = w.inodes; handles = w.handles }

  with_fd-IsWellFormed : (n : ℕ) → IsWellFormed (record s { next_fd = n })
  with_fd-IsWellFormed n = record { root = w.root; inodes = w.inodes; handles = w.handles }

dir-Agrees : (c : FileContent) (m : Metadata) → is_file c ≡ false → Agrees c m → m.is_dir ≡ true
dir-Agrees (file st) m k a = cc
dir-Agrees (dir entries) m k a = a

pub dir-IsLinked :
    (table : Table) (c : FileContent) (entries : Map Name ℕ)
    → c ≡ dir entries
    → IsLinked table c
    → IsLinked table (dir entries)
dir-IsLinked table c entries e h = subst (IsLinked table) e h

-- A directory with one more entry, whose inode goes into the table.
IsLinked-insert_new :
    (table : Table) (entries : Map Name ℕ) (name : Name) (id : ℕ) (i : Inode)
    → IsLinked table (dir entries)
    → IsLinked (Map.insert table id i) (dir (Map.insert entries name id))
IsLinked-insert_new table entries name id i h n k e =
    elim (get-insert_cases entries name n id k e) [
      | inl (p, q) ↦ rw (← q) (contains-insert_self table id i)
      | inr old ↦ IsLinked-insert table id i (dir entries) h n k old
    ]

fresh_inode-Agrees :
    (id t : ℕ) (d : Bool) → Agrees (fresh_inode id t d).content (fresh_inode id t d).metadata
fresh_inode-Agrees id t true = refl
fresh_inode-Agrees id t false = (new-IsValid, refl, refl)

fresh_inode-IsLinked :
    (table : Table) (id t : ℕ) (d : Bool) → IsLinked table (fresh_inode id t d).content
fresh_inode-IsLinked table id t true = λ name k e. cc (get-nil {V = ℕ} name)
fresh_inode-IsLinked table id t false = tt

id-fresh_inode : (id t : ℕ) (d : Bool) → (fresh_inode id t d).id ≡ id
id-fresh_inode id t true = refl
id-fresh_inode id t false = refl

file-Agrees :
    (c : FileContent) (m : Metadata) (storage : BlockStorage)
    → c ≡ file storage
    → Agrees c m
    → IsValid storage × (m.size ≡ storage.size)
file-Agrees c m storage e a = let a' = subst (λ x. Agrees x m) e a in (a'.0, a'.1)

-- The storage of a file in the table is valid, and its size is in the metadata.
pub storage-IsValid :
    {T : Type 0} (s : Fs T) (r : InodeRef) (storage : BlockStorage)
    → IsWellFormed s
    → IsRef s r
    → r.inode.content ≡ file storage
    → IsValid storage × (r.inode.metadata.size ≡ storage.size)
storage-IsValid s r storage w ref e =
    file-Agrees r.inode.content r.inode.metadata storage e (w.inodes r.key r.inode ref).agrees

-- The inode that `store_entries` puts into the table.
abbrev pub stored : InodeRef → Map Name ℕ → ℕ → Inode
stored r entries t = record (touched r.inode t) { content = dir entries }

-- A reference, as the result of a call.
abbrev pub UpToDate : {T : Type 0} → InodeRef → Fs T → Type 0
UpToDate r s = IsRef s r

pub open_handle-Ensures :
    {T : Type 0} (s : Fs T) (id flags : ℕ)
    → IsWellFormed s
    → Map.contains_key s.inode_table id ≡ true
    → Ensures s.next_inode Any (open_handle id flags) s
unfolding open_handle ◌>>=◌
open_handle-Ensures s id flags w c = record {
  post = record {
    wf =
        fd_insert-IsWellFormed _ s.next_fd (record { inode_id = id; position = 0; flags = flags })
          (with_fd-IsWellFormed s w _) c;
    spent = omega arith;
    result = λ a e. tt;
  };
}

module _ {T : Type 0} ⦃time : TimeProvider T⦄ (s : Fs T) (w : IsWellFormed s) (r : InodeRef)
    (ref : IsRef s r) where
  good : IsGood s.inode_table s.next_inode r.key r.inode
  good = w.inodes r.key r.inode ref

  pub store_file-Ensures :
      (storage : BlockStorage) (size : ℕ)
      → is_file r.inode.content ≡ true
      → IsValid storage
      → size ≡ storage.size
      → Ensures s.next_inode
          (λ a s'. Map.contains_key s'.inode_table r.key ≡ true)
          (store_file r storage size)
          s
  unfolding store_file ◌>>=◌
  store_file-Ensures storage size kind v same = record {
    post = record {
      wf =
          update-IsWellFormed _ r _ (with_time-IsWellFormed s w _) ref refl (sym kind)
            (v, same, plain r.inode.content kind good.agrees) tt;
      spent = omega arith;
      result = λ a e. contains-insert_self s.inode_table r.key _;
    };
  }
    where
      plain :
          (c : FileContent)
          → is_file c ≡ true
          → Agrees c r.inode.metadata
          → r.inode.metadata.is_dir ≡ false
      plain (file st) k a = a.2
      plain (dir entries) k a = cc

  pub store_entries-Ensures :
      (entries : Map Name ℕ) (t : ℕ)
      → is_file r.inode.content ≡ false
      → IsLinked s.inode_table (dir entries)
      → Ensures s.next_inode
          (λ a s'. s'.inode_table ≡ Map.insert s.inode_table r.key (stored r entries t))
          (store_entries r entries t)
          s
  unfolding store_entries ◌>>=◌
  store_entries-Ensures entries t kind linked = record {
    post = record {
      wf =
          update-IsWellFormed s r _ w ref refl (sym kind)
            (dir-Agrees r.inode.content r.inode.metadata kind good.agrees) linked;
      spent = omega arith;
      result = λ a e. refl;
    };
  }

  pub insert_new-Ensures :
      (entries : Map Name ℕ) (name : Name) (d : Bool)
      → r.inode.content ≡ dir entries
      → s.next_inode + 1 < 2 ^ 64
      → Ensures (s.next_inode + 1) UpToDate (insert_new r entries name d) s
  unfolding insert_new ◌>>=◌
  insert_new-Ensures entries name d e room = record {
    post = record {
      wf =
          create-IsWellFormed (record s { time_provider = provider }) r _
            (fresh_inode s.next_inode t d) _ (with_time-IsWellFormed s w provider) ref refl
            (ap is_file (sym e))
            (dir-Agrees r.inode.content r.inode.metadata (ap is_file e) good.agrees)
            (IsLinked-insert_new s.inode_table entries name s.next_inode
              (fresh_inode s.next_inode t d)
              (dir-IsLinked s.inode_table r.inode.content entries e good.linked))
            (id-fresh_inode s.next_inode t d) (fresh_inode-Agrees s.next_inode t d)
            (fresh_inode-IsLinked s.inode_table s.next_inode t d) (omega arith);
      spent = omega arith;
      result =
          λ q h. rw (← made q h) (get-insert_self _ s.next_inode (fresh_inode s.next_inode t d));
    };
  }
    where
      t : ℕ
      t = (time.now s.time_provider).0

      provider : T
      provider = (time.now s.time_provider).1

      made :
          (q : InodeRef)
          → ok (record { key = s.next_inode; inode = fresh_inode s.next_inode t d }) ≡ ok q
          → record { key = s.next_inode; inode = fresh_inode s.next_inode t d } ≡ q
      made q h = cc

  create_in-Ensures :
      (c : FileContent) (name : Name) (d : Bool)
      → r.inode.content ≡ c
      → s.next_inode + 1 < 2 ^ 64
      → Ensures (s.next_inode + 1) UpToDate (create_in r c name d) s
  create_in-Ensures (file storage) name d e room = Ensures-fail _ w (omega arith)
  create_in-Ensures (dir entries) name d e room =
      Ensures-if (Map.contains_key entries name) (λ h. Ensures-fail _ w (omega arith))
        (λ h. insert_new-Ensures entries name d e room)

  pub create_inode-Ensures :
      (name : Name) (d : Bool)
      → s.next_inode + 1 < 2 ^ 64
      → Ensures (s.next_inode + 1) UpToDate (create_inode r name d) s
  unfolding create_inode
  create_inode-Ensures name d room = create_in-Ensures r.inode.content name d refl room
