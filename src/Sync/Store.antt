-- ===== src/Sync/Store.antt =====
-- crates/sync/vfs-sync-core/src/object_store.rs: the object store as the sync layer sees it, the layout
-- of its keys, and the calls on paths. `W` is the world: the store, with all who write to it.
pub mod Keys
pub mod Memory
use monaka_fs.Prelude.{ℕ, Bool, true, false, not, List, [], ◌∷◌, Option, none, some}
use monaka_fs.Key.{Name, name_eq}
use monaka_fs.Sync.Types.{
  S3ObjectInfo, ObjectMeta, Precondition, if_none_match_any, S3Error, is_precondition_failed,
}
use monaka_fs.Sync.Exec.{Outcome, ok, err, M, ◌>>=◌, pure}
use monaka_fs.Sync.Store.Keys.{files_prefix, file_key, dir_marker_key, path_from_file_key}

abbrev pub Body : Type 0
Body = List ℕ

pub record ObjectStore (W : Type 0) : Type 0 where
  pub list : Name → Option ℕ → M W S3Error (List ObjectMeta)
  pub head : Name → M W S3Error (Option ObjectMeta)
  pub get : Name → M W S3Error (Option (Body × ObjectMeta))
  pub put : Name → Body → Precondition → M W S3Error Name
  pub delete : Name → Precondition → M W S3Error (Unit {0})

abbrev info_of : ObjectMeta → Option (Name × Bool) → Option S3ObjectInfo
info_of m none = none
info_of m (some (path, is_dir)) = some (record {
  path = path;
  etag = m.etag;
  last_modified = m.last_modified;
  size = m.size;
  is_dir = is_dir;
})

abbrev add_info : Option S3ObjectInfo → List S3ObjectInfo → List S3ObjectInfo
add_info none infos = infos
add_info (some info) infos = info ∷ infos

-- The `filter_map` of `list_files`.
unfoldable pub infos_of : List ObjectMeta → List S3ObjectInfo
infos_of [] = []
infos_of (m ∷ metas) = add_info (info_of m (path_from_file_key m.key)) (infos_of metas)

-- Whether an object of the list is another than `marker`.
unfoldable pub any_other : Name → List ObjectMeta → Bool
any_other marker [] = false
any_other marker (m ∷ metas) = elim (name_eq m.key marker) [
  | true ↦ any_other marker metas
  | false ↦ true
]

-- What the helpers keep of the answers.
abbrev head_parts : Option ObjectMeta → Option (Name × (ℕ × ℕ))
head_parts none = none
head_parts (some m) = some (m.etag, (m.last_modified, m.size))

abbrev get_parts : Option (Body × ObjectMeta) → Option (Body × (Name × ℕ))
get_parts none = none
get_parts (some (body, m)) = some (body, (m.etag, m.last_modified))

abbrev etag_part : Option ObjectMeta → Option Name
etag_part none = none
etag_part (some m) = some m.etag

-- Losing the race to create a directory marker is no error.
abbrev pub marker_made : Outcome S3Error Name → Outcome S3Error (Option Name)
marker_made (ok etag) = ok (some etag)
marker_made (err e) = elim (is_precondition_failed e) [ true ↦ ok none | false ↦ err e ]

module _ {W : Type 0} ⦃store : ObjectStore W⦄ where
  unfoldable pub list_files : M W S3Error (List S3ObjectInfo)
  unfolding infos_of
  list_files = do metas ← store.list files_prefix none; pure (infos_of metas)

  unfoldable pub head_file : Name → M W S3Error (Option (Name × (ℕ × ℕ)))
  head_file path = do m ← store.head (file_key path); pure (head_parts m)

  unfoldable pub get_file : Name → M W S3Error (Option (Body × (Name × ℕ)))
  get_file path = do m ← store.get (file_key path); pure (get_parts m)

  unfoldable pub put_file : Name → Body → Precondition → M W S3Error Name
  put_file path body cond = store.put (file_key path) body cond

  unfoldable pub delete_file : Name → Precondition → M W S3Error (Unit {0})
  delete_file path cond = store.delete (file_key path) cond

  unfoldable pub head_dir_marker : Name → M W S3Error (Option Name)
  head_dir_marker path = do m ← store.head (dir_marker_key path); pure (etag_part m)

  unfoldable pub put_dir_marker : Name → M W S3Error (Option Name)
  put_dir_marker path w =
      let (r, w') = store.put (dir_marker_key path) [] if_none_match_any w in (marker_made r, w')

  unfoldable pub delete_dir_marker : Name → Precondition → M W S3Error (Unit {0})
  delete_dir_marker path cond = store.delete (dir_marker_key path) cond

  unfoldable pub has_children : Name → M W S3Error Bool
  has_children path = do
    under ← store.list (dir_marker_key path) (some 2)
    pure (any_other (dir_marker_key path) under)
