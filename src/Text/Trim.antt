-- ===== src/Text/Trim.antt =====
-- `str::trim`: white space as Unicode has it, in UTF-8, taken off both ends.
use monaka_fs.Prelude.{
  ℕ, zero, suc, ◌≡◌, refl, ◌∙◌, ap, Bool, ◌&&◌, ◌||◌, [], ◌∷◌, ◌++◌, arith, leb, ◌==◌,
  if◌then◌else◌,
}
use monaka_fs.Key.{Name}
use monaka_fs.Text.Decimal.{AllDigits}

abbrev is_space1 : ℕ → Bool
is_space1 c = (leb 9 c && leb c 13) || (c == 32)

abbrev is_space2 : ℕ → ℕ → Bool
is_space2 c d = (c == 0xC2) && ((d == 0x85) || (d == 0xA0))

abbrev is_space3 : ℕ → ℕ → ℕ → Bool
is_space3 c d e =
    ((c == 0xE1) && (d == 0x9A) && (e == 0x80))
    || ((c == 0xE2)
        && (d == 0x80)
        && ((leb 0x80 e && leb e 0x8A) || (e == 0xA8) || (e == 0xA9) || (e == 0xAF)))
    || ((c == 0xE2) && (d == 0x81) && (e == 0x9F))
    || ((c == 0xE3) && (d == 0x80) && (e == 0x80))

-- The bytes of the white space at the front, 0 if there is none.
unfoldable pub space_front : Name → ℕ
space_front [] = 0
space_front (c ∷ []) = if is_space1 c then 1 else 0
space_front (c ∷ d ∷ []) = if is_space1 c then 1 else if is_space2 c d then 2 else 0
space_front (c ∷ d ∷ e ∷ s) =
    if is_space1 c then 1 else if is_space2 c d then 2 else if is_space3 c d e then 3 else 0

-- The same for the bytes in reverse.
unfoldable pub space_back : Name → ℕ
space_back [] = 0
space_back (c ∷ []) = if is_space1 c then 1 else 0
space_back (c ∷ d ∷ []) = if is_space1 c then 1 else if is_space2 d c then 2 else 0
space_back (c ∷ d ∷ e ∷ s) =
    if is_space1 c then 1 else if is_space2 d c then 2 else if is_space3 e d c then 3 else 0

-- Drops `skip` bytes, and then white space as long as `space` finds it.
unfoldable pub trim_by : (Name → ℕ) → ℕ → Name → Name
trim_by space skip [] = []
trim_by space (suc skip) (c ∷ s) = trim_by space skip s
trim_by space zero (c ∷ s) = elim (space (c ∷ s)) [ zero ↦ c ∷ s | suc n ↦ trim_by space n s ]

abbrev pub rev_onto : Name → Name → Name
rev_onto [] acc = acc
rev_onto (c ∷ s) acc = rev_onto s (c ∷ acc)

unfoldable pub trim : Name → Name
unfolding trim_by space_front space_back
trim s = rev_onto (trim_by space_back 0 (rev_onto (trim_by space_front 0 s) [])) []

rev_onto-rev_onto : (s acc back : Name) → rev_onto (rev_onto s acc) back ≡ rev_onto acc (s ++ back)
rev_onto-rev_onto [] acc back = refl
rev_onto-rev_onto (c ∷ s) acc back = rev_onto-rev_onto s (c ∷ acc) back

append-nil : (s : Name) → s ++ [] ≡ s
append-nil [] = refl
append-nil (c ∷ s) = ap (λ r. c ∷ r) (append-nil s)

rev_onto-AllDigits : (s acc : Name) → AllDigits s → AllDigits acc → AllDigits (rev_onto s acc)
rev_onto-AllDigits [] acc h k = k
rev_onto-AllDigits (c ∷ s) acc h k = rev_onto-AllDigits s (c ∷ acc) h.1 (h.0, k)

trim_front-AllDigits : (s : Name) → AllDigits s → trim_by space_front 0 s ≡ s
unfolding trim_by space_front
trim_front-AllDigits [] h = refl
trim_front-AllDigits (c ∷ []) h = ground arith
trim_front-AllDigits (c ∷ d ∷ []) h = ground arith
trim_front-AllDigits (c ∷ d ∷ e ∷ s) h = ground arith

trim_back-AllDigits : (s : Name) → AllDigits s → trim_by space_back 0 s ≡ s
unfolding trim_by space_back
trim_back-AllDigits [] h = refl
trim_back-AllDigits (c ∷ []) h = ground arith
trim_back-AllDigits (c ∷ d ∷ []) h = ground arith
trim_back-AllDigits (c ∷ d ∷ e ∷ s) h = ground arith

-- Digits have no white space around them.
pub trim-AllDigits : (s : Name) → AllDigits s → trim s ≡ s
unfolding trim
trim-AllDigits s h =
    ap (λ t. rev_onto (trim_by space_back 0 (rev_onto t [])) []) (trim_front-AllDigits s h)
    ∙ ap (λ t. rev_onto t []) (trim_back-AllDigits (rev_onto s []) (rev_onto-AllDigits s [] h tt))
    ∙ rev_onto-rev_onto s [] []
    ∙ append-nil s
