-- ===== src/Text/Lines.antt =====
-- `str::lines` and `split_once`.
use monaka_fs.Prelude.{
  ℕ, ◌≡◌, refl, ap, Bool, false, ◌&&◌, List, [], ◌∷◌, ◌++◌, Option, none, some, arith, ◌==◌,
  if◌then◌else◌,
}
use monaka_fs.Key.{Name}

abbrev pub newline : ℕ
newline = 10

abbrev pub carriage_return : ℕ
carriage_return = 13

abbrev pub cons_first : ℕ → List Name → List Name
cons_first c [] = (c ∷ []) ∷ []
cons_first c (line ∷ lines) = (c ∷ line) ∷ lines

abbrev starts_newline : Name → Bool
starts_newline [] = false
starts_newline (c ∷ s) = c == newline

-- Lines end at a newline, with the carriage return before it if there is one. What follows the last
-- newline is a line if it is not empty.
unfoldable pub lines : Name → List Name
lines [] = []
lines (c ∷ s) =
    let rest = lines s in
    if c == newline
    then [] ∷ rest
    else if (c == carriage_return) && starts_newline s
    then rest
    else cons_first c rest

abbrev before_cons : ℕ → Option (Name × Name) → Option (Name × Name)
before_cons c none = none
before_cons c (some (k, v)) = some (c ∷ k, v)

-- `split_once(sep)`, at the first separator.
unfoldable pub split_once : ℕ → Name → Option (Name × Name)
split_once sep [] = none
split_once sep (c ∷ s) =
    let rest = split_once sep s in if c == sep then some ([], s) else before_cons c rest

-- No byte of the text is a newline or a carriage return.
abbrev pub IsOneLine : Name → Type 0
IsOneLine [] = Unit
IsOneLine (c ∷ s) = (((c == newline) ≡ false) × ((c == carriage_return) ≡ false)) × IsOneLine s

pub IsOneLine-append : (a b : Name) → IsOneLine a → IsOneLine b → IsOneLine (a ++ b)
IsOneLine-append [] b ha hb = hb
IsOneLine-append (c ∷ a) b ha hb = (ha.0, IsOneLine-append a b ha.1 hb)

-- A text up to its first newline is its first line.
pub lines-append :
    (line rest : Name) → IsOneLine line → lines (line ++ (newline ∷ rest)) ≡ line ∷ lines rest
unfolding lines
lines-append [] rest h = refl
lines-append (c ∷ line) rest h =
    ground (arith, h.0.0, h.0.1, ap (cons_first c) (lines-append line rest h.1))
