-- ===== src/Text/Utf8.antt =====
-- Which lists of bytes are UTF-8: an automaton that knows how many bytes a character still needs, and
-- in which range the next one lies.
use monaka_fs.Prelude.{
  ℕ, ◌≡◌, refl, Bool, true, false, ◌&&◌, [], ◌∷◌, ◌++◌, Option, none, some, leb, ltb, ◌<◌, ◌∙◌, ap,
  zero, suc, arith, if◌then◌else◌,
}
use monaka_fs.Key.{Name}

-- `more lo hi n`: the next byte is from `lo` to `hi`, and `n` continuation bytes follow it.
pub data Utf8State : Type 0 where
  boundary : Utf8State
  more : ℕ → ℕ → ℕ → Utf8State

abbrev within : ℕ → ℕ → ℕ → Bool
within lo hi c = leb lo c && leb c hi

abbrev pub first_byte : ℕ → Option Utf8State
first_byte c =
    if ltb c 0x80
    then some boundary
    else if within 0xC2 0xDF c
    then some (more 0x80 0xBF 0)
    else if within 0xE0 0xE0 c
    then some (more 0xA0 0xBF 1)
    else if within 0xED 0xED c
    then some (more 0x80 0x9F 1)
    else if within 0xE1 0xEF c
    then some (more 0x80 0xBF 1)
    else if within 0xF0 0xF0 c
    then some (more 0x90 0xBF 2)
    else if within 0xF1 0xF3 c
    then some (more 0x80 0xBF 2)
    else if within 0xF4 0xF4 c
    then some (more 0x80 0x8F 2)
    else none

abbrev after_byte : ℕ → Utf8State
after_byte zero = boundary
after_byte (suc n) = more 0x80 0xBF n

abbrev next_byte : Utf8State → ℕ → Option Utf8State
next_byte boundary c = first_byte c
next_byte (more lo hi n) c = if within lo hi c then some (after_byte n) else none

abbrev advance : Option Utf8State → ℕ → Option Utf8State
advance none c = none
advance (some q) c = next_byte q c

unfoldable pub run : Option Utf8State → Name → Option Utf8State
run q [] = q
run q (c ∷ s) = run (advance q c) s

abbrev is_boundary : Option Utf8State → Bool
is_boundary (some boundary) = true
is_boundary _ = false

-- `std::str::from_utf8(s).is_ok()`
unfoldable pub is_utf8 : Name → Bool
unfolding run
is_utf8 s = is_boundary (run (some boundary) s)

run-append : (q : Option Utf8State) (a b : Name) → run q (a ++ b) ≡ run (run q a) b
unfolding run
run-append q [] b = refl
run-append q (c ∷ a) b = run-append (advance q c) a b

-- A text that is whole characters ends between two of them.
run-is_utf8 : (s : Name) → is_utf8 s ≡ true → run (some boundary) s ≡ some boundary
unfolding is_utf8
run-is_utf8 s h = boundary-only (run (some boundary) s) h
  where
    boundary-only : (q : Option Utf8State) → is_boundary q ≡ true → q ≡ some boundary
    boundary-only none h = cc
    boundary-only (some boundary) h = refl
    boundary-only (some (more lo hi n)) h = cc

-- Texts that follow each other are a text.
pub is_utf8-append : (a b : Name) → is_utf8 a ≡ true → is_utf8 b ≡ true → is_utf8 (a ++ b) ≡ true
unfolding is_utf8
is_utf8-append a b ha hb =
    ap is_boundary (run-append (some boundary) a b ∙ ap (λ q. run q b) (run-is_utf8 a ha)) ∙ hb

abbrev pub IsAscii : Name → Type 0
IsAscii [] = Unit
IsAscii (c ∷ s) = (c < 0x80) × IsAscii s

-- ASCII is UTF-8.
pub is_utf8-IsAscii : (s : Name) → IsAscii s → is_utf8 s ≡ true
unfolding is_utf8 run
is_utf8-IsAscii [] h = refl
is_utf8-IsAscii (c ∷ s) h =
    ap (λ q. is_boundary (run q s)) (ascii-boundary c h.0) ∙ is_utf8-IsAscii s h.1
  where
    ascii-boundary : (c : ℕ) → c < 0x80 → first_byte c ≡ some boundary
    ascii-boundary c h = ground arith
