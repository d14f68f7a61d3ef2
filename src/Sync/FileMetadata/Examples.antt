-- ===== src/Sync/FileMetadata/Examples.antt =====
-- A file that is uploaded, and whose path is a directory marker later.
use monaka_fs.Prelude.{◌≡◌, List, [], ◌∷◌}
use monaka_fs.Key.{Name}
use monaka_fs.Sync.FileMetadata
use monaka_fs.Sync.FileMetadata.{get, dir_etag}
use monaka_fs.Sync.FileMetadata.Latest.{
  CacheOp, upload, forget, mark, run, latest, file_after, marker_after, run-latest,
}

abbrev path : Name
path = b'/' ∷ b'x' ∷ []

abbrev ops : List CacheOp
ops = upload 5 path (b'e' ∷ []) 10 4 ∷ forget path ∷ mark path (b'm' ∷ []) ∷ []

run-latest_example :
    (get (run FileMetadata.new ops) path ≡ latest (file_after path) (get FileMetadata.new path) ops)
    × (dir_etag (run FileMetadata.new ops) path
        ≡ latest (marker_after path) (dir_etag FileMetadata.new path) ops)
run-latest_example = run-latest FileMetadata.new ops path
