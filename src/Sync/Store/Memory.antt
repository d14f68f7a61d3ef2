-- ===== src/Sync/Store/Memory.antt =====
-- crates/sync/vfs-sync-core/src/testing.rs: the object store in memory, which has the semantics of
-- conditional requests that the sync layer relies on. The hash behind the ETags is an argument.
pub mod Cond
use monaka_fs.Prelude.{
  ℕ, ◌+◌, ◌%◌, ◌^◌, Bool, true, false, not, ◌&&◌, List, [], ◌∷◌, ◌++◌, Option, none, some, length,
  take, if◌then◌else◌,
}
use monaka_fs.Key.{Name, name_key, name_eq}
use monaka_fs.Map
use monaka_fs.Map.{Map, keys}
use monaka_fs.Sync.Types.{
  ObjectMeta, Precondition, no_condition, if_match, if_none_match_any, S3Error, precondition_failed,
  no_object, not_implemented,
}
use monaka_fs.Sync.Exec.{Outcome, ok, err, M, ◌>>=◌, ◌>>◌, pure, gets, modify}
use monaka_fs.Sync.Store.{ObjectStore, Body}
use monaka_fs.Sync.Store.Keys.{ascii, strip_prefix}

pub data StoreOp : Type 0 where
  listed : Name → StoreOp
  headed : Name → StoreOp
  got : Name → StoreOp
  put_with : Name → Precondition → StoreOp
  deleted_with : Name → Precondition → StoreOp

pub record MemObject : Type 0 where
  pub body : Body
  pub etag : Name
  pub last_modified : ℕ

pub record Inner : Type 0 where
  pub objects : Map Name MemObject
  pub ops : List StoreOp
  pub fail_next : List S3Error
  pub clock : ℕ
  pub reject_conditional_delete : Bool

abbrev pub empty : Inner
empty = record {
  objects = [];
  ops = [];
  fail_next = [];
  clock = 0;
  reject_conditional_delete = false;
}

abbrev pub push_op : StoreOp → M Inner S3Error (Unit {0})
push_op op = modify (λ s. record s { ops = s.ops ++ (op ∷ []) })

abbrev failure_of : List S3Error → Inner → Outcome S3Error (Unit {0}) × Inner
failure_of [] s = (ok tt, s)
failure_of (e ∷ rest) s = (err e, record s { fail_next = rest })

unfoldable pub take_failure : M Inner S3Error (Unit {0})
take_failure s = failure_of s.fail_next s

abbrev pub refused : Name → Outcome S3Error (Unit {0})
refused key = err (precondition_failed key 412 (ascii "PreconditionFailed"))

-- Whether an object that is `current` under the key lets the request pass.
abbrev pub cond_on : Name → Precondition → Option MemObject → Outcome S3Error (Unit {0})
cond_on key no_condition current = ok tt
cond_on key if_none_match_any none = ok tt
cond_on key if_none_match_any (some o) = refused key
cond_on key (if_match expected) none = err (no_object key)
cond_on key (if_match expected) (some o) = if name_eq o.etag expected then ok tt else refused key

unfoldable pub check_cond : Name → Precondition → M Inner S3Error (Unit {0})
check_cond key cond s = (cond_on key cond (Map.get s.objects key), s)

abbrev pub meta_of : Name → MemObject → ObjectMeta
meta_of key o = record {
  key = key;
  etag = o.etag;
  last_modified = o.last_modified;
  size = length o.body;
}

abbrev pub meta_at : Name → Option MemObject → Option ObjectMeta
meta_at key none = none
meta_at key (some o) = some (meta_of key o)

abbrev pub object_at : Name → Option MemObject → Option (Body × ObjectMeta)
object_at key none = none
object_at key (some o) = some (o.body, meta_of key o)

abbrev if_prefixed : Option Name → ObjectMeta → List ObjectMeta → List ObjectMeta
if_prefixed none m metas = metas
if_prefixed (some rest) m metas = m ∷ metas

-- The objects whose key starts with `prefix`, in the order of their keys.
unfoldable pub metas_under : Name → Map Name MemObject → List ObjectMeta
metas_under prefix [] = []
metas_under prefix ((key, o) ∷ objects) =
    if_prefixed (strip_prefix prefix key) (meta_of key o) (metas_under prefix objects)

abbrev up_to : Option ℕ → List ObjectMeta → List ObjectMeta
up_to none metas = metas
up_to (some n) metas = take n metas

unfoldable pub list : Name → Option ℕ → M Inner S3Error (List ObjectMeta)
unfolding take_failure
list prefix max_keys = do
  push_op (listed prefix)
  take_failure
  gets (λ s. up_to max_keys (metas_under prefix s.objects))

unfoldable pub head : Name → M Inner S3Error (Option ObjectMeta)
unfolding take_failure
head key = do push_op (headed key); take_failure; gets (λ s. meta_at key (Map.get s.objects key))

unfoldable pub get : Name → M Inner S3Error (Option (Body × ObjectMeta))
unfolding take_failure
get key = do push_op (got key); take_failure; gets (λ s. object_at key (Map.get s.objects key))

abbrev pub is_conditional : Precondition → Bool
is_conditional no_condition = false
is_conditional (if_match etag) = true
is_conditional if_none_match_any = true

-- `self.objects.remove(key)`
unfoldable pub remove_object : Name → M Inner S3Error (Unit {0})
remove_object key s = (ok tt, record s { objects = Map.remove s.objects key })

-- A conditional delete of a key that is not there has nothing to do.
abbrev pub delete_checked : Name → Precondition → Option MemObject → M Inner S3Error (Unit {0})
delete_checked key (if_match etag) none = pure tt
delete_checked key cond current = do check_cond key cond; remove_object key

unfoldable pub delete : Name → Precondition → M Inner S3Error (Unit {0})
unfolding take_failure
delete key cond = do
  push_op (deleted_with key cond)
  take_failure
  reject ← gets (λ s. s.reject_conditional_delete && is_conditional cond)
  (if reject
      then (λ s. (err (not_implemented key (ascii "conditional delete rejected by test store")), s))
      else (λ s. delete_checked key cond (Map.get s.objects key) s))

module _ (etag_for : Body → Name) where
  -- The object goes in with the next time stamp, and its ETag is returned.
  unfoldable pub put_object : Name → Body → M Inner S3Error Name
  put_object key body s =
      let clock = (s.clock + 1) % 2 ^ 64 in
      (
        ok (etag_for body),
        record s {
          clock = clock;
          objects =
              Map.insert s.objects key
                (record { body = body; etag = etag_for body; last_modified = clock });
        },
      )

  unfoldable pub put : Name → Body → Precondition → M Inner S3Error Name
  unfolding take_failure
  put key body cond = do
    push_op (put_with key cond)
    take_failure
    check_cond key cond
    put_object key body

  -- As if another client wrote it.
  unfoldable pub insert_raw : Name → Body → Inner → Inner
  insert_raw key body s = (put_object key body s).1

  abbrev pub memory_store : ObjectStore Inner
  memory_store = record { list = list; head = head; get = get; put = put; delete = delete }

unfoldable pub remove_raw : Name → Inner → Inner
remove_raw key s = record s { objects = Map.remove s.objects key }

unfoldable pub set_last_modified : Name → ℕ → Inner → Inner
set_last_modified key value s = elim (Map.get s.objects key) [
  | none ↦ s
  | some o ↦ record s { objects = Map.insert s.objects key (record o { last_modified = value }) }
]

abbrev pub body_of : Option MemObject → Option Body
body_of none = none
body_of (some o) = some o.body

abbrev pub body_at : Inner → Name → Option Body
body_at s key = body_of (Map.get s.objects key)

abbrev pub etag_of : Inner → Name → Option Name
etag_of s key = elim (Map.get s.objects key) [ none ↦ none | some o ↦ some o.etag ]
