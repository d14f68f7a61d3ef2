-- ===== src/Sync/FileMetadata/Latest.antt =====
-- What the cache tells after any sequence of its operations: of each file what the last one that was
-- about it said, and of each directory marker the same.
use monaka_fs.Prelude.{ℕ, ◌≡◌, refl, ◌∙◌, ap, List, [], ◌∷◌, Option, none, some, if◌then◌else◌}
use monaka_fs.Key.{Name, name_key, name_eq}
use monaka_fs.Map.{get-insert, get-remove}
use monaka_fs.Sync.FileMetadata.{
  MetadataCache, SyncedFileMetadata, update_after_upload, update_after_download, remove, add_dir,
  remove_dir, get, dir_etag,
}

pub data CacheOp : Type 0 where
  upload : ℕ → Name → Name → ℕ → ℕ → CacheOp
  download : Name → Name → ℕ → ℕ → CacheOp
  forget : Name → CacheOp
  mark : Name → Name → CacheOp
  unmark : Name → CacheOp

abbrev pub apply : MetadataCache → CacheOp → MetadataCache
apply c (upload now path etag size local) = update_after_upload c now path etag size local
apply c (download path etag stamp size) = update_after_download c path etag stamp size
apply c (forget path) = remove c path
apply c (mark path etag) = add_dir c path etag
apply c (unmark path) = remove_dir c path

abbrev pub run : MetadataCache → List CacheOp → MetadataCache
run c [] = c
run c (op ∷ ops) = run (apply c op) ops

-- What an operation says of the file `p`, if before it `known` is known.
abbrev pub file_after : Name → Option SyncedFileMetadata → CacheOp → Option SyncedFileMetadata
file_after p known (upload now path etag size local) =
    if name_eq path p
    then some (record { etag = etag; last_modified = now; local_modified = local; size = size })
    else known
file_after p known (download path etag stamp size) =
    if name_eq path p
    then some (record { etag = etag; last_modified = stamp; local_modified = stamp; size = size })
    else known
file_after p known (forget path) = if name_eq path p then none else known
file_after p known (mark path etag) = known
file_after p known (unmark path) = known

-- What an operation says of the directory marker `p`.
abbrev pub marker_after : Name → Option Name → CacheOp → Option Name
marker_after p known (mark path etag) = if name_eq path p then some etag else known
marker_after p known (unmark path) = if name_eq path p then none else known
marker_after p known _ = known

abbrev pub latest : {A : Type 0} → (A → CacheOp → A) → A → List CacheOp → A
latest f known [] = known
latest f known (op ∷ ops) = latest f (f known op) ops

get-apply :
    (c : MetadataCache) (op : CacheOp) (p : Name) → get (apply c op) p ≡ file_after p (get c p) op
unfolding get update_after_upload update_after_download remove add_dir remove_dir
get-apply c (upload now path etag size local) p = get-insert c.files path p _
get-apply c (download path etag stamp size) p = get-insert c.files path p _
get-apply c (forget path) p = get-remove c.files path p
get-apply c (mark path etag) p = refl
get-apply c (unmark path) p = refl

dir_etag-apply :
    (c : MetadataCache) (op : CacheOp) (p : Name)
    → dir_etag (apply c op) p ≡ marker_after p (dir_etag c p) op
unfolding dir_etag update_after_upload update_after_download remove add_dir remove_dir
dir_etag-apply c (upload now path etag size local) p = refl
dir_etag-apply c (download path etag stamp size) p = refl
dir_etag-apply c (forget path) p = refl
dir_etag-apply c (mark path etag) p = get-insert c.dir_markers path p etag
dir_etag-apply c (unmark path) p = get-remove c.dir_markers path p

get-run :
    (c : MetadataCache) (ops : List CacheOp) (p : Name)
    → get (run c ops) p ≡ latest (file_after p) (get c p) ops
get-run c [] p = refl
get-run c (op ∷ ops) p =
    get-run (apply c op) ops p ∙ ap (λ k. latest (file_after p) k ops) (get-apply c op p)

dir_etag-run :
    (c : MetadataCache) (ops : List CacheOp) (p : Name)
    → dir_etag (run c ops) p ≡ latest (marker_after p) (dir_etag c p) ops
dir_etag-run c [] p = refl
dir_etag-run c (op ∷ ops) p =
    dir_etag-run (apply c op) ops p
    ∙ ap (λ k. latest (marker_after p) k ops) (dir_etag-apply c op p)

-- After any sequence of uploads, downloads, removals and changes of directory markers, the cache has
-- of every path what the last operation on the file of that path said, and as its directory marker
-- what the last operation on the marker of that path said: neither kind touches the other.
pub run-latest :
    (c : MetadataCache) (ops : List CacheOp) (p : Name)
    → (get (run c ops) p ≡ latest (file_after p) (get c p) ops)
      × (dir_etag (run c ops) p ≡ latest (marker_after p) (dir_etag c p) ops)
run-latest c ops p = (get-run c ops p, dir_etag-run c ops p)
