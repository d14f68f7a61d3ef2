-- ===== src/Sync/Store/Keys.antt =====
-- The keys of objects: `files/<path>`, `files/<dir>/` and `locks/<path>`.
use Prim.Native.Char.{code}
use Prim.Native.String.{String}
use monaka_fs.Prelude.{ℕ, Bool, true, false, [], ◌∷◌, ◌++◌, Option, none, some, ◌==◌, if◌then◌else◌}
use monaka_fs.Key.{Name}
use monaka_fs.Path.{slash, trim_start}

-- The bytes of an ASCII literal.
abbrev pub ascii : String → Name
ascii String.[] = []
ascii (String.◌∷◌ c s) = code c ∷ ascii s

abbrev pub files_prefix : Name
files_prefix = ascii "files/"

abbrev pub locks_prefix : Name
locks_prefix = ascii "locks/"

-- `trim_end_matches('/')`
abbrev drop_slash : ℕ → Name → Name
drop_slash c [] = if c == slash then [] else c ∷ []
drop_slash c (d ∷ path) = c ∷ d ∷ path

unfoldable pub trim_end : Name → Name
trim_end [] = []
trim_end (c ∷ path) = drop_slash c (trim_end path)

unfoldable pub ends_with_slash : Name → Bool
ends_with_slash [] = false
ends_with_slash (c ∷ []) = c == slash
ends_with_slash (c ∷ d ∷ path) = ends_with_slash (d ∷ path)

unfoldable pub file_key : Name → Name
file_key path = files_prefix ++ trim_start path

unfoldable pub dir_marker_key : Name → Name
dir_marker_key path = file_key (trim_end path) ++ (slash ∷ [])

unfoldable pub lock_key : Name → Name
lock_key path = locks_prefix ++ trim_start path

-- `strip_prefix`
unfoldable pub strip_prefix : Name → Name → Option Name
strip_prefix [] key = some key
strip_prefix (c ∷ prefix) [] = none
strip_prefix (c ∷ prefix) (d ∷ key) = elim (c == d) [
  | true ↦ strip_prefix prefix key
  | false ↦ none
]

abbrev path_of : Name → Bool → Option (Name × Bool)
path_of [] is_dir = none
path_of (c ∷ rest) is_dir = some (slash ∷ c ∷ rest, is_dir)

abbrev path_of_rest : Option Name → Option (Name × Bool)
path_of_rest none = none
path_of_rest (some rest) = path_of (trim_end rest) (ends_with_slash rest)

unfoldable pub path_from_file_key : Name → Option (Name × Bool)
path_from_file_key key = path_of_rest (strip_prefix files_prefix key)
