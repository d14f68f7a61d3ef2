-- ===== src/Path/Join.antt =====
-- Paths that are joined from their components.
use monaka_fs.Prelude.{◌≡◌, refl, ◌∙◌, ap, false, List, [], ◌∷◌, ◌++◌, arith, ◌==◌}
use monaka_fs.Key.{Name}
use monaka_fs.Path.{slash, trim_start, split, push_first, non_empty, components}

abbrev pub HasNoSlash : Name → Type 0
HasNoSlash [] = Unit
HasNoSlash (c ∷ name) = ((c == slash) ≡ false) × HasNoSlash name

-- A component: not empty, and with no slash in it.
abbrev pub IsComponent : Name → Type 0
IsComponent [] = ⊥
IsComponent (c ∷ name) = HasNoSlash (c ∷ name)

abbrev pub AllComponents : List Name → Type 0
AllComponents [] = Unit
AllComponents (name ∷ names) = IsComponent name × AllComponents names

-- The absolute path of the components.
abbrev pub join : List Name → Name
join [] = []
join (name ∷ names) = slash ∷ name ++ join names

pub split-append :
    (name : Name) (names : List Name) (rest : Name)
    → HasNoSlash name
    → split rest ≡ [] ∷ names
    → split (name ++ rest) ≡ name ∷ names
unfolding split
split-append [] names rest h e = e
split-append (c ∷ name) names rest h e =
    ground (arith, h.0, ap (push_first c) (split-append name names rest h.1 e))

pub IsComponent-HasNoSlash : (name : Name) → IsComponent name → HasNoSlash name
IsComponent-HasNoSlash [] h = tt
IsComponent-HasNoSlash (c ∷ name) h = h

split-join : (names : List Name) → AllComponents names → split (join names) ≡ [] ∷ names
unfolding split
split-join [] h = refl
split-join (name ∷ names) h =
    ap (λ r. [] ∷ r)
      (split-append name names (join names) (IsComponent-HasNoSlash name h.0)
        (split-join names h.1))

non_empty_all : (names : List Name) → AllComponents names → non_empty names ≡ names
unfolding non_empty
non_empty_all [] h = refl
non_empty_all ([] ∷ names) h = absurd (h.0)
non_empty_all ((c ∷ name) ∷ names) h = ap (λ r. (c ∷ name) ∷ r) (non_empty_all names h.1)

-- Leading slashes make no component.
pub split-trim_start : (path : Name) → non_empty (split (trim_start path)) ≡ non_empty (split path)
unfolding trim_start split non_empty
split-trim_start [] = refl
split-trim_start (c ∷ path) = ground (arith, split-trim_start path)

-- The components of the path that is joined from components are these components again.
pub components-join : (names : List Name) → AllComponents names → components (join names) ≡ names
unfolding components non_empty
components-join names h =
    split-trim_start (join names) ∙ ap non_empty (split-join names h) ∙ non_empty_all names h
