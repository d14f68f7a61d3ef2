-- ===== src/Sync/Lease/Table.antt =====
-- The leases that this instance holds, by path. The source's `HashMap` lists its paths in no fixed order;
-- here they are in the order of the keys.
use monaka_fs.Prelude.{
  ℕ, ◌-◌, ◌/◌, Bool, not, ◌&&◌, List, [], ◌∷◌, Option, none, some, leb, if◌then◌else◌,
}
use monaka_fs.Key.{Name, name_key}
use monaka_fs.Map
use monaka_fs.Map.{Map, keys}

pub record WriteLease : Type 0 where
  pub base_etag : Option Name
  pub lock_etag : Name
  pub epoch : ℕ
  pub expires_at : ℕ
  pub refcount : ℕ
  pub dirty : Bool
  pub pending_delete : Bool
  pub lost : Bool
  pub releasing : Bool

-- `LeaseTable`
abbrev pub LeaseTable : Type 0
LeaseTable = Map Name WriteLease

abbrev pub get : LeaseTable → Name → Option WriteLease
get table path = Map.get table path

abbrev pub update_at :
    LeaseTable → Name → (WriteLease → WriteLease) → Option WriteLease → LeaseTable
update_at table path f none = table
update_at table path f (some l) = Map.insert table path (f l)

-- `if let Some(l) = table.get_mut(path) { *l = f(l) }`
unfoldable pub update : LeaseTable → Name → (WriteLease → WriteLease) → LeaseTable
update table path f = update_at table path f (Map.get table path)

abbrev pub insert : LeaseTable → Name → WriteLease → LeaseTable
insert table path l = Map.insert table path l

abbrev pub remove : LeaseTable → Name → LeaseTable
remove table path = Map.remove table path

abbrev pub contains : LeaseTable → Name → Bool
contains table path = Map.contains_key table path

abbrev pub paths : LeaseTable → List Name
paths table = keys table

-- A lease past half of its lifetime that is neither lost nor being released.
abbrev pub is_due : ℕ → ℕ → WriteLease → Bool
is_due now lease l = not l.releasing && not l.lost && leb (l.expires_at - now) (lease / 2)

unfoldable pub paths_needing_renewal : LeaseTable → ℕ → ℕ → List Name
paths_needing_renewal [] now lease = []
paths_needing_renewal ((path, l) ∷ table) now lease =
    let rest = paths_needing_renewal table now lease in
    if is_due now lease l then path ∷ rest else rest
