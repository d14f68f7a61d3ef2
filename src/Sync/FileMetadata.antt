-- ===== src/Sync/FileMetadata.antt =====
-- crates/sync/vfs-sync-core/src/file_metadata.rs: the ETag that this instance last saw for every
-- file. The clock is an argument, the time that it shows. The source's `HashMap`s list their
-- paths in no fixed order; here they are in the order of the keys.
pub mod Latest
mod Examples
use monaka_fs.Prelude.{ℕ, Bool, List, [], ◌∷◌, Option}
use monaka_fs.Key.{Name, name_key}
use monaka_fs.Map
use monaka_fs.Map.{Map, keys}

pub record SyncedFileMetadata : Type 0 where
  pub etag : Name
  pub last_modified : ℕ
  pub local_modified : ℕ
  pub size : ℕ

pub record MetadataCache : Type 0 where
  pub files : Map Name SyncedFileMetadata
  pub dir_markers : Map Name Name

abbrev pub new : MetadataCache
new = record { files = []; dir_markers = [] }

unfoldable pub update_after_upload : MetadataCache → ℕ → Name → Name → ℕ → ℕ → MetadataCache
update_after_upload c now path etag size local_modified = record c {
  files =
      Map.insert c.files path
        (record { etag = etag; last_modified = now; local_modified = local_modified; size = size });
}

unfoldable pub update_after_download : MetadataCache → Name → Name → ℕ → ℕ → MetadataCache
update_after_download c path etag last_modified size = record c {
  files = Map.insert c.files path (record {
    etag = etag;
    last_modified = last_modified;
    local_modified = last_modified;
    size = size;
  });
}

unfoldable pub get : MetadataCache → Name → Option SyncedFileMetadata
get c path = Map.get c.files path

unfoldable pub remove : MetadataCache → Name → MetadataCache
remove c path = record c { files = Map.remove c.files path }

unfoldable pub paths : MetadataCache → List Name
paths c = keys c.files

unfoldable pub add_dir : MetadataCache → Name → Name → MetadataCache
add_dir c path etag = record c { dir_markers = Map.insert c.dir_markers path etag }

unfoldable pub remove_dir : MetadataCache → Name → MetadataCache
remove_dir c path = record c { dir_markers = Map.remove c.dir_markers path }

unfoldable pub dir_etag : MetadataCache → Name → Option Name
dir_etag c path = Map.get c.dir_markers path

unfoldable pub has_dir : MetadataCache → Name → Bool
has_dir c path = Map.contains_key c.dir_markers path

unfoldable pub dirs : MetadataCache → List Name
dirs c = keys c.dir_markers
