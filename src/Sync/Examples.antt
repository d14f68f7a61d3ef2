-- ===== src/Sync/Examples.antt =====
-- The theorems on the sync layer at work.
mod Setting
use monaka_fs.Prelude.{
  ℕ, suc, ◌+◌, ◌≤◌, ◌<◌, ◌≡◌, ◌≢◌, refl, inl, inr, Bool, true, false, List, [], ◌∷◌, Option, none,
  some, arith, length, if◌then◌else◌,
}
use monaka_fs.Key.{Name, name_key, name_eq}
use monaka_fs.Map
use monaka_fs.Path.{trim_start}
use monaka_fs.Text.Utf8.{is_utf8}
use monaka_fs.Text.Trim.{trim, trim_by, space_front, space_back}
use monaka_fs.Sync.Types.{Precondition, if_match, if_none_match_any, S3Error, write_failed}
use monaka_fs.Sync.Exec.{Outcome, ok, err, M, ◌>>=◌}
use monaka_fs.Sync.Store.{Body}
use monaka_fs.Sync.Store.Keys.{ascii, file_key}
use monaka_fs.Sync.Store.Memory.{MemObject, Inner, empty, take_failure, check_cond, put_object, put}
use monaka_fs.Sync.Store.Memory.Cond.{put-put_once}
use monaka_fs.Sync.Lease.{new_record, acquire, expiry}
use monaka_fs.Sync.Lease.Record.{LockRecord, encode, parse, is_expired}
use monaka_fs.Sync.Lease.Record.RoundTrip.{
  IsPlain, IsWritable, parse-encode, forged, parse-encode-forged,
}
use monaka_fs.Sync.Lease.Waiting.{Returns, acquire-Returns}
use monaka_fs.Sync.Lease.System.{
  System, Phase, idle, looked, holds, Step, IsStart, Reachable, body_for, object_for, move,
}
use monaka_fs.Sync.Lease.System.Safety.{acquire_exclusive}
use monaka_fs.Sync.Manager.{Manager, lease_of, has_op, enqueue_upload, enqueue_delete}
use monaka_fs.Sync.Manager.Upload.{put_with_cond}
use monaka_fs.Sync.Manager.Upload.Conditions.{
  Accepted, accepts, upload-Accepted, upload-false_success,
}
use monaka_fs.Sync.Manager.Leases.{on_open_write}
use monaka_fs.Sync.Manager.Closing.{on_close, release_all_leases}
use monaka_fs.Sync.Manager.Flush.{flush_outbound, force_flush}
use monaka_fs.Sync.Manager.Draining.{Drained, force_flush-Drained, force_flush-stuck}
use monaka_fs.Sync.Manager.Queue.{IsSingle, queue-IsSingle}
use monaka_fs.Sync.Manager.Counting.{after_close, on_close-on_open_write, on_close-lease}
use monaka_fs.Sync.Manager.Counting.Gone.{release_all_leases-free}
use monaka_fs.Sync.Manager.Poll.{poll_inbound}
use monaka_fs.Sync.Manager.Sparing.{Same, poll_inbound-Same}
use monaka_fs.Sync.Examples.Setting.{
  World, identity, memory, world_store, world_clock, world_fs, world-IsLawful, file_name,
  start_world, batch_config, manager, held,
}

id-IsPlain : IsPlain (ascii "a1")
unfolding is_utf8 trim trim_by space_front space_back
id-IsPlain = record { utf8 = refl; one_line = ground arith; trimmed = refl }

path-IsPlain : IsPlain file_name
unfolding is_utf8 trim trim_by space_front space_back
path-IsPlain = record { utf8 = refl; one_line = ground arith; trimmed = refl }

abbrev lock : LockRecord
lock = new_record (ascii "a1") file_name 3 35000

lock-IsWritable : IsWritable lock
lock-IsWritable = record {
  instance_id = id-IsPlain;
  path = path-IsPlain;
  epoch = omega arith;
  expires = omega arith;
}

parse-encode_example : parse (encode lock) ≡ some lock
parse-encode_example = parse-encode lock lock-IsWritable

parse-encode-forged_example :
    parse (encode (forged lock)) ≡ some (record lock { expires_ms = 0 })
    × (is_expired (record lock { expires_ms = 0 }) 5000 ≡ true)
parse-encode-forged_example = parse-encode-forged lock lock-IsWritable 5000

acquire-Returns_example : Returns (acquire file_name (ascii "a1") 30000 10000) start_world
acquire-Returns_example =
    acquire-Returns world-IsLawful file_name (ascii "a1") 30000 10000 start_world

-- One instance finds no lock object, and creates it.
abbrev before : System
before = record { object = none; time = 5000; phase = λ k. idle }

abbrev after_look : System
after_look = move (ascii "a1") (looked none) none before

abbrev after_put : System
after_put =
    move (ascii "a1") (holds (identity (body_for file_name (ascii "a1") 1 35000)) 1 35000)
      (object_for identity file_name (ascii "a1") 1 35000) after_look

after_put_reached : Reachable identity file_name 30000 after_put
after_put_reached =
    Reachable.later
      (Reachable.later (Reachable.start (record { etag = λ body e h. cc; idle = λ j. refl }))
        (Step.look (ascii "a1") refl))
      (Step.put (ascii "a1") none 5000 1 if_none_match_any id-IsPlain refl (omega arith) refl refl)

acquire_exclusive_example : ascii "a1" ≡ ascii "a1"
acquire_exclusive_example =
    acquire_exclusive identity file_name 30000 path-IsPlain (λ b c h. h) after_put (ascii "a1")
      (ascii "a1") (identity (body_for file_name (ascii "a1") 1 35000))
      (identity (body_for file_name (ascii "a1") 1 35000)) 1 1 35000 35000 after_put_reached refl
      refl (omega arith) (omega arith)

-- Two creations of one object.
put-put_once_example :
    let s' = (put identity file_name (ascii "x") if_none_match_any empty).1 in
    ((etag' : Name) → (put identity file_name (ascii "y") if_none_match_any s').0 ≢ ok etag')
    × ((put identity file_name (ascii "y") if_none_match_any s').1.objects ≡ s'.objects)
unfolding put put_object take_failure check_cond ◌>>=◌ Map.get
put-put_once_example =
    put-put_once identity file_name (ascii "x") (ascii "y") if_none_match_any empty (ascii "x") tt
      created
  where
    created : (put identity file_name (ascii "x") if_none_match_any empty).0 ≡ ok (ascii "x")
    created = refl

-- Another client's object, of another version.
abbrev theirs : MemObject
theirs = record { body = ascii "y"; etag = ascii "y"; last_modified = 1 }

abbrev with_theirs : List S3Error → Inner
with_theirs fail = record empty { objects = (file_key file_name, theirs) ∷ []; fail_next = fail }

upload-Accepted_example :
    Accepted identity file_name
      (ascii "x")
      (put_with_cond ⦃store = memory⦄ file_name (ascii "x") (if_match (ascii "y")) (with_theirs []))
      (accepts (if_match (ascii "y")) (Map.get (with_theirs []).objects (file_key file_name)))
      (with_theirs [])
upload-Accepted_example =
    upload-Accepted identity file_name (ascii "x") (if_match (ascii "y")) (with_theirs []) refl

abbrev timeout : S3Error
timeout = write_failed (ascii "k") (ascii "timeout")

upload-false_success_example :
    let r =
      put_with_cond ⦃store = memory⦄ file_name
        (ascii "x")
        (if_match (ascii "v"))
        (with_theirs (timeout ∷ [])) in
    (r.0 ≡ ok (ascii "y")) × (r.1.objects ≡ (with_theirs (timeout ∷ [])).objects)
unfolding Map.get file_key trim_start
upload-false_success_example =
    upload-false_success identity file_name (ascii "x") (if_match (ascii "v"))
      (with_theirs (timeout ∷ [])) timeout theirs refl refl refl there refl
  where
    there : Map.get (with_theirs (timeout ∷ [])).objects (file_key file_name) ≡ some theirs
    there = refl

force_flush-Drained_example : Drained (force_flush 3 0 (manager 10 []))
force_flush-Drained_example = force_flush-Drained 3 0 (manager 10 []) (omega arith) (omega arith)

force_flush-stuck_example : (force_flush 100 0 (manager 0 [])).0 ≡ ok none
force_flush-stuck_example = force_flush-stuck 100 0 (manager 0 []) refl (omega arith)

queue-IsSingle_example :
    IsSingle (enqueue_upload file_name (manager 10 [])).outbound_queue
    × IsSingle (enqueue_delete file_name (manager 10 [])).outbound_queue
    × IsSingle (flush_outbound (manager 10 [])).1.outbound_queue
unfolding has_op
queue-IsSingle_example = queue-IsSingle file_name (manager 10 []) (refl, (refl, tt))

-- A file that is leased once.
abbrev leased : Manager World
leased = manager 10 ((file_name, held 1) ∷ [])

on_close-on_open_write_example :
    (on_open_write 1 file_name leased).0 ≡ ok (some tt)
    × (on_close file_name (on_open_write 1 file_name leased).1).0 ≡ ok tt
    × ((q : Name)
        → lease_of (on_close file_name (on_open_write 1 file_name leased).1).1 q
          ≡ lease_of leased q)
    × (on_close file_name (on_open_write 1 file_name leased).1).1.world ≡ leased.world
    × (on_close file_name (on_open_write 1 file_name leased).1).1.outbound_queue
      ≡ leased.outbound_queue
    × (on_close file_name (on_open_write 1 file_name leased).1).1.metadata_cache
      ≡ leased.metadata_cache
unfolding Map.get
on_close-on_open_write_example =
    on_close-on_open_write 0 file_name leased (held 1) refl refl refl (omega arith) (omega arith)

on_close-lease_example :
    lease_of (on_close file_name leased).1 file_name ≡ after_close (lease_of leased file_name)
on_close-lease_example = on_close-lease file_name leased

release_all_leases-free_example : lease_of (release_all_leases leased).1 file_name ≡ none
release_all_leases-free_example = release_all_leases-free leased file_name

poll_inbound-Same_example : Same file_name leased (poll_inbound leased).1
unfolding Map.get
poll_inbound-Same_example = poll_inbound-Same file_name leased refl
