-- ===== src/Path.antt =====
-- How fs.rs takes a path apart: `path.trim_start_matches('/').split('/').filter(non-empty)`.
pub mod Join
pub mod Spelling
mod Examples
use monaka_fs.Prelude.{
  ℕ, ◌-◌, Bool, true, false, List, [], ◌∷◌, ◌==◌, if◌then◌else◌, length, get_or, take,
}
use monaka_fs.Key.{Name}

abbrev pub slash : ℕ
slash = b'/'

-- `starts_with('/')`
abbrev pub starts_with_slash : Name → Bool
starts_with_slash [] = false
starts_with_slash (c ∷ path) = c == slash

-- `trim_start_matches('/')`
unfoldable pub trim_start : Name → Name
trim_start [] = []
trim_start (c ∷ path) = let rest = trim_start path in if c == slash then rest else c ∷ path

-- `split('/')`: the pieces between the slashes, one more than there are slashes.
abbrev push_first : ℕ → List Name → List Name
push_first c [] = (c ∷ []) ∷ []
push_first c (piece ∷ pieces) = (c ∷ piece) ∷ pieces

unfoldable pub split : Name → List Name
split [] = [] ∷ []
split (c ∷ path) = let rest = split path in if c == slash then [] ∷ rest else push_first c rest

abbrev pub is_empty : Name → Bool
is_empty [] = true
is_empty (c ∷ path) = false

-- `filter(|s| !s.is_empty())`
unfoldable pub non_empty : List Name → List Name
non_empty [] = []
non_empty ([] ∷ pieces) = non_empty pieces
non_empty ((c ∷ piece) ∷ pieces) = (c ∷ piece) ∷ non_empty pieces

unfoldable pub components : Name → List Name
unfolding trim_start split non_empty
components path = non_empty (split (trim_start path))

-- `comps.iter().take(comps.len() - 1)` and `comps[comps.len() - 1]`
abbrev pub parents : List Name → List Name
parents comps = take (length comps - 1) comps

abbrev pub last : List Name → Name
last comps = get_or comps (length comps - 1) []
