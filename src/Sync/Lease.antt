-- ===== src/Sync/Lease.antt =====
-- crates/sync/vfs-sync-core/src/lease.rs: leases on files, kept as objects of the store. Durations are
-- in milliseconds.
pub mod Record
pub mod Table
pub mod Waiting
pub mod System
use monaka_fs.Prelude.{
  ℕ, zero, suc, ◌+◌, ◌-◌, ◌*◌, ◌/◌, ◌%◌, ◌^◌, min, Bool, true, false, ◌&&◌, ◌||◌, Option, none,
  some, leb, ◌==◌, if◌then◌else◌,
}
use monaka_fs.Key.{Name, name_eq}
use monaka_fs.Sync.Types.{
  ObjectMeta, Precondition, if_match, if_none_match_any, S3Error, is_precondition_failed,
  is_not_found, SyncError, busy, s3,
}
use monaka_fs.Sync.Exec.{Outcome, ok, err, M, ◌>>=◌, ◌>>◌, pure, fail, total, try, with_err}
use monaka_fs.Sync.Clock.{Clock}
use monaka_fs.Sync.Store.{ObjectStore, Body}
use monaka_fs.Sync.Store.Keys.{lock_key}
use monaka_fs.Sync.Lease.Record.{LockRecord, encode, parse, is_expired}

pub record Acquired : Type 0 where
  pub lock_etag : Name
  pub epoch : ℕ
  pub expires_at : ℕ

-- `now_ms() + lease.as_millis() as u64`
abbrev pub expiry : ℕ → ℕ → ℕ
expiry now_ms lease = (now_ms + lease) % 2 ^ 64

abbrev pub new_record : Name → Name → ℕ → ℕ → LockRecord
new_record instance_id path epoch expires_ms = record {
  instance_id = instance_id;
  epoch = epoch;
  expires_ms = expires_ms;
  path = path;
}

-- The record is that of this attempt.
abbrev pub is_ours : Name → ℕ → Option LockRecord → Bool
is_ours instance_id epoch none = false
is_ours instance_id epoch (some r) = name_eq r.instance_id instance_id && (r.epoch == epoch)

abbrev pub landed_etag : Name → ℕ → Option (Body × ObjectMeta) → Option Name
landed_etag instance_id epoch none = none
landed_etag instance_id epoch (some (body, meta)) =
    if is_ours instance_id epoch (parse body) then some meta.etag else none

abbrev landed_of : Name → ℕ → Outcome S3Error (Option (Body × ObjectMeta)) → Option Name
landed_of instance_id epoch (err e) = none
landed_of instance_id epoch (ok found) = landed_etag instance_id epoch found

-- What one round of `acquire` comes to: the lease, or another round, with the holder if it is known.
pub data Round : Type 0 where
  won : Acquired → Round
  lost : Option Name → Round

abbrev pub epoch_after : Option LockRecord → ℕ
epoch_after none = 1
epoch_after (some r) = (r.epoch + 1) % 2 ^ 64

abbrev instance_of : Option LockRecord → Option Name
instance_of none = none
instance_of (some r) = some r.instance_id

-- The errors of a takeover that let the loop go on.
abbrev pub goes_on : S3Error → Bool
goes_on e = is_precondition_failed e || is_not_found e

abbrev pub next_backoff : ℕ → ℕ
next_backoff backoff = min (backoff * 2) 1000

-- A pause takes 50 milliseconds at least, or the rest of the time: so many rounds are enough.
abbrev pub rounds_for : ℕ → ℕ
rounds_for timeout = suc (suc (timeout / 50))

-- After a PUT that failed: it may have landed all the same. `again` is whether the error lets the
-- loop go on.
abbrev pub after_failure :
    {W : Type 0} → Bool → S3Error → Option Name → ℕ → ℕ → Option Name → M W SyncError Round
after_failure again e holder epoch expires_at (some etag) =
    pure (won (record { lock_etag = etag; epoch = epoch; expires_at = expires_at }))
after_failure again e holder epoch expires_at none =
    if again then pure (lost holder) else fail (s3 e)

module _ {W : Type 0} ⦃clock : Clock W⦄ where
  -- A record that cannot be read counts as expired.
  abbrev pub check_expired : Option LockRecord → M W SyncError Bool
  check_expired none = pure true
  check_expired (some r) = do now_ms ← total clock.now_ms; pure (is_expired r now_ms)

  -- The wait behind a round that was lost, with the backoff that follows.
  unfoldable pub pause : ℕ → ℕ → ℕ → ℕ → M W SyncError (Unit {0})
  pause backoff step now deadline = do
    seed ← total (clock.random step)
    (λ w. (ok tt, clock.sleep (min (backoff + seed % 20) (deadline - now)) w))

module _ {W : Type 0} ⦃store : ObjectStore W⦄ ⦃clock : Clock W⦄ where
  unfoldable pub verify_lease_landed : Name → Name → ℕ → M W SyncError (Option Name)
  verify_lease_landed key instance_id epoch = do
    found ← try (store.get key)
    pure (landed_of instance_id epoch found)

  module _ (path instance_id : Name) (lease : ℕ) where
    -- The end of both PUTs; `again` tells which errors of the PUT let the loop go on.
    abbrev after_put :
        (S3Error → Bool) → Option Name → ℕ → ℕ → Outcome S3Error Name → M W SyncError Round
    after_put again holder epoch expires_at (ok etag) =
        pure (won (record { lock_etag = etag; epoch = epoch; expires_at = expires_at }))
    after_put again holder epoch expires_at (err e) = do
      landed ← verify_lease_landed (lock_key path) instance_id epoch
      after_failure (again e) e holder epoch expires_at landed

    -- The PUT of a fresh record, under the condition of the branch.
    unfoldable pub put_record :
        (S3Error → Bool) → Option Name → ℕ → Precondition → M W SyncError Round
    put_record again holder epoch cond = do
      now_ms ← total clock.now_ms
      start ← total clock.now
      let r = new_record instance_id path epoch (expiry now_ms lease)
      done ← try (store.put (lock_key path) (encode r) cond)
      after_put again holder epoch (start + lease) done

    abbrev pub take_over : Bool → Option LockRecord → ObjectMeta → Option Name → M W SyncError Round
    take_over true r meta holder = put_record goes_on holder (epoch_after r) (if_match meta.etag)
    take_over false r meta holder = pure (lost (instance_of r))

    abbrev pub on_found : Option Name → Option (Body × ObjectMeta) → M W SyncError Round
    on_found holder none = put_record is_precondition_failed holder 1 if_none_match_any
    on_found holder (some (body, meta)) = do
      expired ← check_expired (parse body)
      take_over expired (parse body) meta holder

    -- `match store.get(&key).await? { .. }`
    unfoldable pub round : Option Name → M W SyncError Round
    round holder = do found ← with_err s3 (store.get (lock_key path)); on_found holder found

    -- Behind a round: the lease, or the check of the deadline, a pause and what comes `next`.
    abbrev pub after_round :
        (Option Name → M W SyncError (Option Acquired))
        → ℕ
        → ℕ
        → ℕ
        → Round
        → M W SyncError (Option Acquired)
    after_round next deadline backoff step (won a) = pure (some a)
    after_round next deadline backoff step (lost holder) = do
      now ← total clock.now
      (if leb deadline now
          then fail (busy path holder)
          else (pause backoff step now deadline >> next holder))

    -- The loop. `none` is a loop that has used up its rounds.
    unfoldable pub acquire_loop : ℕ → ℕ → ℕ → ℕ → Option Name → M W SyncError (Option Acquired)
    acquire_loop zero deadline backoff step holder = pure none
    acquire_loop (suc rounds) deadline backoff step holder = do
      out ← round holder
      after_round (acquire_loop rounds deadline (next_backoff backoff) (step + 1)) deadline backoff
          (step + 1) out

    unfoldable pub acquire : ℕ → M W SyncError (Option Acquired)
    acquire timeout = do
      start ← total clock.now
      acquire_loop (rounds_for timeout) (start + timeout) 50 0 none

  -- The new ETag and the new expiry.
  unfoldable pub renew : Name → Name → ℕ → Name → ℕ → M W S3Error (Name × ℕ)
  renew path instance_id epoch lock_etag lease = do
    now_ms ← total clock.now_ms
    start ← total clock.now
    let r = new_record instance_id path epoch (expiry now_ms lease)
    etag ← store.put (lock_key path) (encode r) (if_match lock_etag)
    pure (etag, start + lease)

module _ {W : Type 0} ⦃store : ObjectStore W⦄ where
  -- Whatever the store answers.
  unfoldable pub release : Name → Name → {E : Type 0} → M W E (Unit {0})
  release path lock_etag w = (ok tt, (store.delete (lock_key path) (if_match lock_etag) w).1)
