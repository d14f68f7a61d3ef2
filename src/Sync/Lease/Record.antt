-- ===== src/Sync/Lease/Record.antt =====
-- The record of a lease, and its text: a line `key=value` for each field.
pub mod RoundTrip
use monaka_fs.Prelude.{
  ℕ, ◌≤◌, Bool, true, false, List, [], ◌∷◌, ◌++◌, Option, none, some, leb, if◌then◌else◌,
}
use monaka_fs.Key.{Name, name_eq}
use monaka_fs.Sync.Store.Keys.{ascii}
use monaka_fs.Text.Utf8.{is_utf8}
use monaka_fs.Text.Trim.{trim}
use monaka_fs.Text.Lines.{lines, split_once, newline}
use monaka_fs.Text.Decimal.{decimal, parse_u64}

pub record LockRecord : Type 0 where
  pub instance_id : Name
  pub epoch : ℕ
  pub expires_ms : ℕ
  pub path : Name

abbrev pub line : Name → Name → Name → Name
line key value rest = (key ++ (b'=' ∷ value)) ++ (newline ∷ rest)

-- `LockRecord::encode`
unfoldable pub encode : LockRecord → Name
encode r = line (ascii "instance") r.instance_id (
    line (ascii "epoch") (decimal r.epoch)
      (line (ascii "expires") (decimal r.expires_ms) (line (ascii "path") r.path [])))

-- The variables of the loop of `parse`.
pub record Fields : Type 0 where
  pub instance_id : Option Name
  pub epoch : Option ℕ
  pub expires : Option ℕ
  pub path : Option Name

abbrev pub no_fields : Fields
no_fields = record { instance_id = none; epoch = none; expires = none; path = none }

-- `match k.trim() { .. }`, where `v` is the value with its white space off.
unfoldable pub set_field : Fields → Name → Name → Fields
set_field f k v =
    if name_eq k (ascii "instance")
    then record f { instance_id = some v }
    else if name_eq k (ascii "epoch")
    then record f { epoch = parse_u64 v }
    else if name_eq k (ascii "expires")
    then record f { expires = parse_u64 v }
    else if name_eq k (ascii "path")
    then record f { path = some v }
    else f

abbrev pub set_split : Fields → Option (Name × Name) → Fields
set_split f none = f
set_split f (some (k, v)) = set_field f (trim k) (trim v)

unfoldable pub read_line : Fields → Name → Fields
read_line f l = set_split f (split_once b'=' l)

unfoldable pub read_lines : Fields → List Name → Fields
read_lines f [] = f
read_lines f (l ∷ ls) = read_lines (read_line f l) ls

abbrev or_empty : Option Name → Name
or_empty none = []
or_empty (some v) = v

abbrev with_expires : Name → ℕ → Option ℕ → Option Name → Option LockRecord
with_expires instance_id epoch none path = none
with_expires instance_id epoch (some expires) path = some (record {
  instance_id = instance_id;
  epoch = epoch;
  expires_ms = expires;
  path = or_empty path;
})

abbrev with_epoch : Name → Option ℕ → Option ℕ → Option Name → Option LockRecord
with_epoch instance_id none expires path = none
with_epoch instance_id (some epoch) expires path = with_expires instance_id epoch expires path

abbrev pub finish : Fields → Option LockRecord
finish f = elim f.instance_id [
  | none ↦ none
  | some instance_id ↦ with_epoch instance_id f.epoch f.expires f.path
]

abbrev pub parse_text : Bool → Name → Option LockRecord
parse_text true body = finish (read_lines no_fields (lines body))
parse_text false body = none

-- `LockRecord::parse`
unfoldable pub parse : Name → Option LockRecord
parse body = parse_text (is_utf8 body) body

abbrev pub is_expired : LockRecord → ℕ → Bool
is_expired r now_ms = leb r.expires_ms now_ms
