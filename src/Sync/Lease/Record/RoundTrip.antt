-- ===== src/Sync/Lease/Record/RoundTrip.antt =====
-- The record of a lease, written and read back.
use monaka_fs.Prelude.{ℕ, ◌^◌, ◌<◌, ◌≡◌, refl, sym, ◌∙◌, ap, true, [], ◌∷◌, ◌++◌, some, arith}
use monaka_fs.Key.{Name}
use monaka_fs.Sync.Store.Keys.{ascii}
use monaka_fs.Text.Utf8.{is_utf8, is_utf8-append, is_utf8-IsAscii, IsAscii}
use monaka_fs.Text.Trim.{trim, trim-AllDigits, trim_by, space_front, space_back}
use monaka_fs.Text.Lines.{lines, lines-append, split_once, newline, IsOneLine, IsOneLine-append}
use monaka_fs.Text.Decimal.{
  decimal, parse_u64, scan, decimal-AllDigits, parse_u64-decimal, AllDigits,
}
use monaka_fs.Sync.Lease.Record.{
  LockRecord, line, encode, Fields, no_fields, set_field, set_split, read_line, read_lines, finish,
  parse_text, parse, is_expired,
}

-- UTF-8 on one line, with no white space at its ends.
pub record IsPlain (s : Name) : Type 0 where
  pub utf8 : is_utf8 s ≡ true
  pub one_line : IsOneLine s
  pub trimmed : trim s ≡ s

pub record IsWritable (r : LockRecord) : Type 0 where
  pub instance_id : IsPlain r.instance_id
  pub path : IsPlain r.path
  pub epoch : r.epoch < 2 ^ 64
  pub expires : r.expires_ms < 2 ^ 64

digits-IsAscii : (s : Name) → AllDigits s → IsAscii s
digits-IsAscii [] h = tt
digits-IsAscii (c ∷ s) h = (omega arith, digits-IsAscii s h.1)

digits-IsOneLine : (s : Name) → AllDigits s → IsOneLine s
digits-IsOneLine [] h = tt
digits-IsOneLine (c ∷ s) h = ((ground arith, ground arith), digits-IsOneLine s h.1)

decimal-IsPlain : (n : ℕ) → IsPlain (decimal n)
decimal-IsPlain n = record {
  utf8 = is_utf8-IsAscii (decimal n) (digits-IsAscii (decimal n) (decimal-AllDigits n));
  one_line = digits-IsOneLine (decimal n) (decimal-AllDigits n);
  trimmed = trim-AllDigits (decimal n) (decimal-AllDigits n);
}

-- A key of the record: what the lines need of it.
record IsKey (k : Name) : Type 0 where
  utf8 : is_utf8 k ≡ true
  one_line : IsOneLine k
  trimmed : trim k ≡ k
  split : (v : Name) → split_once b'=' (k ++ (b'=' ∷ v)) ≡ some (k, v)

instance-IsKey : IsKey (ascii "instance")
unfolding is_utf8 trim trim_by space_front space_back split_once
instance-IsKey = record { utf8 = refl; one_line = ground arith; trimmed = refl; split = λ v. refl }

epoch-IsKey : IsKey (ascii "epoch")
unfolding is_utf8 trim trim_by space_front space_back split_once
epoch-IsKey = record { utf8 = refl; one_line = ground arith; trimmed = refl; split = λ v. refl }

expires-IsKey : IsKey (ascii "expires")
unfolding is_utf8 trim trim_by space_front space_back split_once
expires-IsKey = record { utf8 = refl; one_line = ground arith; trimmed = refl; split = λ v. refl }

path-IsKey : IsKey (ascii "path")
unfolding is_utf8 trim trim_by space_front space_back split_once
path-IsKey = record { utf8 = refl; one_line = ground arith; trimmed = refl; split = λ v. refl }

line-is_utf8 :
    (k v rest : Name) → IsKey k → IsPlain v → is_utf8 rest ≡ true → is_utf8 (line k v rest) ≡ true
line-is_utf8 k v rest key plain h =
    is_utf8-append (k ++ (b'=' ∷ v)) (newline ∷ rest)
      (is_utf8-append k (b'=' ∷ v) key.utf8
        (is_utf8-append (b'=' ∷ []) v (is_utf8-IsAscii (b'=' ∷ []) (omega arith)) plain.utf8))
      (is_utf8-append (newline ∷ []) rest (is_utf8-IsAscii (newline ∷ []) (omega arith)) h)

read_lines-line :
    (f : Fields) (k v rest : Name)
    → IsKey k
    → IsPlain v
    → read_lines f (lines (line k v rest)) ≡ read_lines (set_field f k v) (lines rest)
unfolding read_lines read_line
read_lines-line f k v rest key plain =
    ap (read_lines f) (
      lines-append (k ++ (b'=' ∷ v)) rest
        (IsOneLine-append k (b'=' ∷ v) key.one_line ((refl, refl), plain.one_line)))
    ∙ ap (λ o. read_lines (set_split f o) (lines rest)) (key.split v)
    ∙ ap (λ x. read_lines (set_field f x (trim v)) (lines rest)) key.trimmed
    ∙ ap (λ x. read_lines (set_field f k x) (lines rest)) plain.trimmed

-- The fields that the four lines of a record set.
fields_of : LockRecord → Fields
fields_of r = record {
  instance_id = some r.instance_id;
  epoch = some r.epoch;
  expires = some r.expires_ms;
  path = some r.path;
}

-- What the lines before the path set.
abbrev three_fields : LockRecord → Fields
three_fields r =
    set_field
      (set_field (set_field no_fields (ascii "instance") r.instance_id) (ascii "epoch")
        (decimal r.epoch))
      (ascii "expires") (decimal r.expires_ms)

set_all :
    (r : LockRecord) → IsWritable r → set_field (three_fields r) (ascii "path") r.path ≡ fields_of r
unfolding set_field fields_of
set_all r w =
    ground (arith, parse_u64-decimal r.epoch w.epoch, parse_u64-decimal r.expires_ms w.expires)

encode-is_utf8 : (r : LockRecord) → IsWritable r → is_utf8 (encode r) ≡ true
unfolding encode
encode-is_utf8 r w = line-is_utf8 _ _ _ instance-IsKey w.instance_id (
    line-is_utf8 _ _ _ epoch-IsKey (decimal-IsPlain r.epoch) (
      line-is_utf8 _ _ _ expires-IsKey (decimal-IsPlain r.expires_ms)
        (line-is_utf8 _ _ _ path-IsKey w.path (is_utf8-IsAscii [] tt))))

lines-nil : (f : Fields) → read_lines f (lines []) ≡ f
unfolding lines read_lines
lines-nil f = refl

read_lines-encode :
    (r : LockRecord) → IsWritable r → read_lines no_fields (lines (encode r)) ≡ fields_of r
unfolding encode
read_lines-encode r w =
    read_lines-line _ _ _ _ instance-IsKey w.instance_id
    ∙ read_lines-line _ _ _ _ epoch-IsKey (decimal-IsPlain r.epoch)
    ∙ read_lines-line _ _ _ _ expires-IsKey (decimal-IsPlain r.expires_ms)
    ∙ read_lines-line _ _ _ _ path-IsKey w.path
    ∙ lines-nil _
    ∙ set_all r w

-- A record whose instance and path are UTF-8 on one line with no white space at their ends, and whose
-- numbers are `u64`s, is read back from its text.
pub parse-encode : (r : LockRecord) → IsWritable r → parse (encode r) ≡ some r
unfolding parse fields_of
parse-encode r w =
    ap (λ b. parse_text b (encode r)) (encode-is_utf8 r w) ∙ ap finish (read_lines-encode r w)

-- A path that goes on behind a newline with a line of its own.
abbrev pub forged : LockRecord → LockRecord
forged r = record r { path = r.path ++ (newline ∷ ascii "expires=0") }

append_assoc : (a b c : Name) → (a ++ b) ++ c ≡ a ++ (b ++ c)
append_assoc [] b c = refl
append_assoc (x ∷ a) b c = ap (λ r. x ∷ r) (append_assoc a b c)

forged_tail :
    (p : Name)
    → line (ascii "path") (p ++ (newline ∷ ascii "expires=0")) []
      ≡ line (ascii "path") p (line (ascii "expires") (ascii "0") [])
forged_tail p =
    ap (λ t. ascii "path=" ++ t) (append_assoc p (newline ∷ ascii "expires=0") (newline ∷ []))
    ∙ sym (append_assoc (ascii "path=") p (newline ∷ line (ascii "expires") (ascii "0") []))

set_forged :
    (r : LockRecord)
    → set_field (fields_of r) (ascii "expires") (ascii "0")
      ≡ record (fields_of r) { expires = some 0 }
unfolding set_field fields_of parse_u64 scan
set_forged r = refl

zero-IsPlain : IsPlain (ascii "0")
unfolding is_utf8 trim trim_by space_front space_back
zero-IsPlain = record { utf8 = refl; one_line = ground arith; trimmed = refl }

forged-is_utf8 : (r : LockRecord) → IsWritable r → is_utf8 (encode (forged r)) ≡ true
unfolding encode
forged-is_utf8 r w = line-is_utf8 _ _ _ instance-IsKey w.instance_id (
    line-is_utf8 _ _ _ epoch-IsKey (decimal-IsPlain r.epoch) (
      line-is_utf8 _ _ _ expires-IsKey (decimal-IsPlain r.expires_ms) (
        ap is_utf8 (forged_tail r.path)
        ∙ line-is_utf8 _ _ _ path-IsKey w.path
            (line-is_utf8 _ _ _ expires-IsKey zero-IsPlain (is_utf8-IsAscii [] tt)))))

read_lines-forged :
    (r : LockRecord)
    → IsWritable r
    → read_lines no_fields (lines (encode (forged r))) ≡ record (fields_of r) { expires = some 0 }
unfolding encode
read_lines-forged r w =
    read_lines-line _ _ _ _ instance-IsKey w.instance_id
    ∙ read_lines-line _ _ _ _ epoch-IsKey (decimal-IsPlain r.epoch)
    ∙ read_lines-line _ _ _ _ expires-IsKey (decimal-IsPlain r.expires_ms)
    ∙ ap (λ t. read_lines (three_fields r) (lines t)) (forged_tail r.path)
    ∙ read_lines-line _ _ _ _ path-IsKey w.path
    ∙ read_lines-line _ _ _ _ expires-IsKey zero-IsPlain
    ∙ lines-nil _
    ∙ ap (λ f. set_field f (ascii "expires") (ascii "0")) (set_all r w)
    ∙ set_forged r

-- Of a record whose path goes on, behind a newline, with the line `expires=0`, the text is read back as
-- a record that has expired at any time, whatever its expiry was.
pub parse-encode-forged :
    (r : LockRecord)
    → IsWritable r
    → (now_ms : ℕ)
    → parse (encode (forged r)) ≡ some (record r { expires_ms = 0 })
      × (is_expired (record r { expires_ms = 0 }) now_ms ≡ true)
unfolding parse fields_of
parse-encode-forged r w now_ms = (
  ap (λ b. parse_text b (encode (forged r))) (forged-is_utf8 r w)
      ∙ ap finish (read_lines-forged r w),
  ground arith,
)
