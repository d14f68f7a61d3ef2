-- ===== src/Text/Decimal.antt =====
-- Decimal digits of a `u64`: what `format!` writes and what `parse::<u64>` reads.
use monaka_fs.Prelude.{
  ℕ, zero, suc, ◌+◌, ◌-◌, ◌*◌, ◌/◌, ◌%◌, ◌^◌, ◌≤◌, ◌<◌, ◌≡◌, ◌≢◌, refl, ◌∙◌, ◌&&◌, [], ◌∷◌, Option,
  none, some, arith, ltb, leb, ◌==◌, if◌then◌else◌,
}
use monaka_fs.Key.{Name}

-- The digits of `n` in front of `out`; a `u64` has at most twenty.
unfoldable pub digits : ℕ → ℕ → Name → Name
digits zero n out = out
digits (suc rounds) n out =
    let rest = digits rounds (n / 10) ((b'0' + n % 10) ∷ out) in
    if n / 10 == 0 then (b'0' + n % 10) ∷ out else rest

unfoldable pub decimal : ℕ → Name
decimal n = digits 20 n []

unfoldable pub scan : Name → ℕ → Option ℕ
scan [] n = some n
scan (c ∷ s) n =
    let rest = scan s (n * 10 + (c - b'0')) in
    if leb b'0' c && leb c b'9'
    then (if ltb (n * 10 + (c - b'0')) (2 ^ 64) then rest else none)
    else none

abbrev scan_all : Name → Option ℕ
scan_all [] = none
scan_all (c ∷ s) = scan (c ∷ s) 0

-- One leading `+` is taken, and there is a digit.
unfoldable pub parse_u64 : Name → Option ℕ
parse_u64 [] = none
parse_u64 (c ∷ s) = if c == b'+' then scan_all s else scan (c ∷ s) 0

-- What so many digits can write is below this.
abbrev bound : ℕ → ℕ
bound zero = 1
bound (suc rounds) = 10 * bound rounds

abbrev pub AllDigits : Name → Type 0
AllDigits [] = Unit
AllDigits (c ∷ s) = ((b'0' ≤ c) × (c ≤ b'9')) × AllDigits s

scan-digits :
    (rounds n : ℕ) (out : Name)
    → n < bound rounds
    → 0 < n
    → n < 2 ^ 64
    → scan (digits rounds n out) 0 ≡ scan out n
unfolding digits scan
scan-digits zero n out h p fits = absurd (omega arith)
scan-digits (suc rounds) n out h p fits =
    ground (arith, scan-digits rounds (n / 10) ((b'0' + n % 10) ∷ out))

digits-AllDigits : (rounds n : ℕ) (out : Name) → AllDigits out → AllDigits (digits rounds n out)
unfolding digits
digits-AllDigits zero n out h = h
digits-AllDigits (suc rounds) n out h =
    ground (arith, digits-AllDigits rounds (n / 10) ((b'0' + n % 10) ∷ out))

pub decimal-AllDigits : (n : ℕ) → AllDigits (decimal n)
unfolding decimal
decimal-AllDigits n = digits-AllDigits 20 n [] tt

digits-ne-nil : (rounds n c : ℕ) (out : Name) → digits rounds n (c ∷ out) ≢ []
unfolding digits
digits-ne-nil zero n c out = λ e. cc
digits-ne-nil (suc rounds) n c out =
    ground (arith, digits-ne-nil rounds (n / 10) (b'0' + n % 10) (c ∷ out))

digits-suc-ne-nil : (rounds n : ℕ) → digits (suc rounds) n [] ≢ []
unfolding digits
digits-suc-ne-nil rounds n = ground (arith, digits-ne-nil rounds (n / 10) (b'0' + n % 10) [])

decimal-ne-nil : (n : ℕ) → decimal n ≢ []
unfolding decimal
decimal-ne-nil n = digits-suc-ne-nil 19 n

parse_u64-scan : (s : Name) → s ≢ [] → AllDigits s → parse_u64 s ≡ scan s 0
unfolding parse_u64
parse_u64-scan [] ne h = absurd (ne refl)
parse_u64-scan (c ∷ s) ne h = ground arith

decimal_zero : scan (decimal 0) 0 ≡ some 0
unfolding decimal digits scan
decimal_zero = refl

scan-nil : (n : ℕ) → scan [] n ≡ some n
unfolding scan
scan-nil n = refl

scan_positive : (n : ℕ) → 0 < n → n < 2 ^ 64 → scan (decimal n) 0 ≡ some n
unfolding decimal
scan_positive n p h = scan-digits 20 n [] (omega arith) p h ∙ scan-nil n

scan-decimal : (n : ℕ) → n < 2 ^ 64 → scan (decimal n) 0 ≡ some n
scan-decimal zero h = decimal_zero
scan-decimal (suc n) h = scan_positive (suc n) (omega arith) h

-- Every `u64` is read back from its decimal digits.
pub parse_u64-decimal : (n : ℕ) → n < 2 ^ 64 → parse_u64 (decimal n) ≡ some n
parse_u64-decimal n h =
    parse_u64-scan (decimal n) (decimal-ne-nil n) (decimal-AllDigits n) ∙ scan-decimal n h
