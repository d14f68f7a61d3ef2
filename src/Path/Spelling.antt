-- ===== src/Path/Spelling.antt =====
-- How a path spells its components, and the pieces between its slashes.
use monaka_fs.Prelude.{
  ℕ, ◌≡◌, refl, sym, ◌∙◌, ap, ◌↔◌, Bool, true, false, Bool-cases, inl, inr, List, [], ◌∷◌, ◌++◌,
  arith, ◌==◌, ==_iff, if◌then◌else◌,
}
use mathlib.Core.Path.{subst}
use monaka_fs.Key.{Name}
use monaka_fs.Path.{slash, starts_with_slash, split, push_first, non_empty, components}
use monaka_fs.Path.Join.{
  HasNoSlash, IsComponent, IsComponent-HasNoSlash, join, split-append, split-trim_start,
}

-- A name ends here: at the end of the path or at a slash.
abbrev pub IsEnd : Name → Type 0
IsEnd [] = Unit
IsEnd (c ∷ path) = (c == slash) ≡ true

-- A path spells the names in it, in their order: each is as long as it can be, and slashes around
-- and between them, one or many, stand for nothing.
pub data Spells : List Name → Name → Type 0 where
  done : Spells [] []
  skip : {names : List Name} {path : Name} → Spells names path → Spells names (slash ∷ path)
  spell :
      (n : Name) {names : List Name} {path : Name}
      → IsComponent n
      → IsEnd path
      → Spells names path
      → Spells (n ∷ names) (n ++ path)

abbrev rest_of : List Name → List Name
rest_of [] = []
rest_of (piece ∷ pieces) = pieces

split-IsEnd : (path : Name) → IsEnd path → split path ≡ [] ∷ rest_of (split path)
unfolding split
split-IsEnd [] h = refl
split-IsEnd (c ∷ path) h = rw h refl

non_empty_cons :
    (n : Name) (pieces : List Name) → IsComponent n → non_empty (n ∷ pieces) ≡ n ∷ non_empty pieces
unfolding non_empty
non_empty_cons [] pieces h = absurd h
non_empty_cons (c ∷ n) pieces h = refl

split-Spells :
    {names : List Name} {path : Name} → Spells names path → non_empty (split path) ≡ names
unfolding split non_empty
split-Spells done = refl
split-Spells (skip s) = split-Spells s
split-Spells (spell n {path = path} h end s) =
    ap non_empty (
      split-append n (rest_of (split path)) path (IsComponent-HasNoSlash n h)
        (split-IsEnd path end))
    ∙ non_empty_cons n (rest_of (split path)) h
    ∙ ap (λ r. n ∷ r) (sym (ap non_empty (split-IsEnd path end)) ∙ split-Spells s)

abbrev AllNoSlash : List Name → Type 0
AllNoSlash [] = Unit
AllNoSlash (name ∷ names) = HasNoSlash name × AllNoSlash names

push_first-AllNoSlash :
    (c : ℕ) (pieces : List Name)
    → (c == slash) ≡ false
    → AllNoSlash pieces
    → AllNoSlash (push_first c pieces)
push_first-AllNoSlash c [] h a = ((h, tt), tt)
push_first-AllNoSlash c (piece ∷ pieces) h a = ((h, a.0), a.1)

cons-AllNoSlash :
    (b : Bool) (c : ℕ) (pieces : List Name)
    → (c == slash) ≡ b
    → AllNoSlash pieces
    → AllNoSlash (if b then [] ∷ pieces else push_first c pieces)
cons-AllNoSlash true c pieces h a = (tt, a)
cons-AllNoSlash false c pieces h a = push_first-AllNoSlash c pieces h a

split-AllNoSlash : (path : Name) → AllNoSlash (split path)
unfolding split
split-AllNoSlash [] = (tt, tt)
split-AllNoSlash (c ∷ path) =
    cons-AllNoSlash (c == slash) c (split path) refl (split-AllNoSlash path)

join-push_first :
    (c : ℕ) (pieces : List Name) (path : Name)
    → join pieces ≡ slash ∷ path
    → join (push_first c pieces) ≡ slash ∷ c ∷ path
join-push_first c [] path e = ground (arith, e)
join-push_first c (piece ∷ pieces) path e = ground (arith, e)

join-split : (path : Name) → join (split path) ≡ slash ∷ path
unfolding split
join-split [] = refl
join-split (c ∷ path) = elim (Bool-cases (c == slash)) [
  | inl e ↦ rw e (
      ap (λ r. slash ∷ r) (join-split path)
      ∙ ap (λ d. slash ∷ d ∷ path) (sym ((==_iff c slash).0 e)))
  | inr e ↦ rw e (join-push_first c (split path) path (join-split path))
]

join-IsEnd : (pieces : List Name) → IsEnd (join pieces)
join-IsEnd [] = tt
join-IsEnd (piece ∷ pieces) = refl

Spells-join : (pieces : List Name) → AllNoSlash pieces → Spells (non_empty pieces) (join pieces)
unfolding non_empty
Spells-join [] h = done
Spells-join ([] ∷ pieces) h = skip (Spells-join pieces h.1)
Spells-join ((c ∷ piece) ∷ pieces) h =
    skip (spell (c ∷ piece) h.0 (join-IsEnd pieces) (Spells-join pieces h.1))

abbrev behind : Name → Name
behind [] = []
behind (c ∷ path) = path

Spells-behind :
    {names : List Name} {path : Name}
    → Spells names path
    → starts_with_slash path ≡ true
    → Spells names (behind path)
Spells-behind done e = ground (arith, e)
Spells-behind (skip s) e = s
Spells-behind (spell [] h end s) e = absurd h
Spells-behind (spell (c ∷ n) h end s) e = ground (arith, e, h.0)

Spells-split : (path : Name) → Spells (non_empty (split path)) path
Spells-split path =
    Spells-behind
      (subst (Spells (non_empty (split path))) (join-split path)
        (Spells-join (split path) (split-AllNoSlash path)))
      refl

-- The components of a path are the names that it spells, and no other list: not empty, without a
-- slash, each as long as it can be, in their order, with any number of slashes around and between.
pub components-Spells :
    (names : List Name) (path : Name) → Spells names path ↔ (components path ≡ names)
unfolding components
components-Spells names path = (
  λ s. split-trim_start path ∙ split-Spells s,
  λ e. subst (λ n. Spells n path) (sym (split-trim_start path) ∙ e) (Spells-split path),
)
