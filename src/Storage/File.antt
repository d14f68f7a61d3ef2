-- ===== src/Storage/File.antt =====
-- A plain file, as POSIX has it: a size and a byte at every position, with zeros beyond the size.
use monaka_fs.Prelude.{
  ℕ, ◌+◌, ◌-◌, ◌<◌, ◌^◌, List, [], ◌∷◌, min, max, ◌&&◌, ltb, leb, if◌then◌else◌, length, get_or,
}
use monaka_fs.Storage.{Bytes}

pub record File : Type 0 where
  pub size : ℕ
  pub byte : ℕ → ℕ

abbrev pub write : File → ℕ → Bytes → File
write f offset src = record {
  size = if ltb 0 (length src) then max f.size (offset + length src) else f.size;
  byte = λ i.
      if leb offset i && ltb i (offset + length src) then get_or src (i - offset) 0 else f.byte i;
}

abbrev pub truncate : File → ℕ → File
truncate f n = record { size = n; byte = λ i. if ltb i n then f.byte i else 0 }

-- The count that a read of `n` bytes returns, and the bytes that it fills in.
abbrev pub read_count : File → ℕ → ℕ → ℕ
read_count f offset n = min n (f.size - offset)

-- A call that changes a file, and the calls that fit the address space.
pub data Op : Type 0 where
  put : ℕ → Bytes → Op
  cut : ℕ → Op

abbrev pub Fits : Op → Type 0
Fits (put offset src) = offset + length src < 2 ^ 64
Fits (cut n) = n < 2 ^ 64

abbrev pub AllFit : List Op → Type 0
AllFit [] = Unit
AllFit (op ∷ ops) = Fits op × AllFit ops

abbrev pub apply : File → Op → File
apply f (put offset src) = write f offset src
apply f (cut n) = truncate f n

abbrev pub run : File → List Op → File
run f [] = f
run f (op ∷ ops) = run (apply f op) ops
