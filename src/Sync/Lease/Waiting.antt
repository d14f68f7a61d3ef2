-- ===== src/Sync/Lease/Waiting.antt =====
-- The loop of `acquire` and the time that its pauses take.
use monaka_fs.Prelude.{
  ℕ, zero, suc, ◌+◌, ◌-◌, ◌*◌, ◌/◌, ◌%◌, ◌≤◌, ◌<◌, ◌≡◌, min, inl, inr, Bool, true, false, Option,
  none, some, arith, leb, if◌then◌else◌, Bool-cases, leb-false→lt,
}
use monaka_fs.Key.{Name}
use monaka_fs.Sync.Types.{ObjectMeta, Precondition, S3Error, SyncError, s3}
use monaka_fs.Sync.Exec.{
  Outcome, ok, err, M, ◌>>=◌, ◌>>◌, pure, fail, total, try, with_err, continue,
}
use monaka_fs.Sync.Clock.{Clock}
use monaka_fs.Sync.Store.{ObjectStore, Body}
use monaka_fs.Sync.Lease.Record.{LockRecord, parse}
use monaka_fs.Sync.Lease.{
  Acquired, Round, won, lost, verify_lease_landed, after_failure, after_put, put_record,
  check_expired, take_over, on_found, round, pause, after_round, acquire_loop, acquire,
  next_backoff,
}

-- The call comes back with something: it has not used up its rounds.
abbrev pub Returns : {W A : Type 0} → M W SyncError (Option A) → W → Type 0
Returns m w = ¬ ((m w).0 ≡ ok none)

module _ {W : Type 0} ⦃clock : Clock W⦄ where
  -- The reading of the monotonic clock.
  abbrev pub time : W → ℕ
  time w = (clock.now w).0

  -- The call leaves the clock where it is or later.
  pub record IsForward {E A : Type 0} (m : M W E A) : Type 0 where
    pub forward : (w : W) → time w ≤ time (m w).1

-- What is known of the clocks: no call of the store and no reading turns the monotonic clock back, and
-- a pause takes as long as it says.
pub record IsLawful (W : Type 0) ⦃store : ObjectStore W⦄ ⦃clock : Clock W⦄ : Type 0 where
  pub get : (key : Name) → IsForward (store.get key)
  pub put : (key : Name) (body : Body) (cond : Precondition) → IsForward (store.put key body cond)
  pub now_ms : (w : W) → time w ≤ time (clock.now_ms w).1
  pub now : (w : W) → time w ≤ time (clock.now w).1
  pub random : (seed : ℕ) (w : W) → time w ≤ time (clock.random seed w).1
  pub sleep : (ms : ℕ) (w : W) → time w + ms ≤ time (clock.sleep ms w)

module _ {W E : Type 0} ⦃clock : Clock W⦄ where
  IsForward-pure : {A : Type 0} (a : A) → IsForward {W = W} {E = E} (pure a)
  unfolding pure
  IsForward-pure a = record { forward = λ w. omega arith }

  IsForward-fail : {A : Type 0} (e : E) → IsForward {W = W} {A = A} (fail e)
  unfolding fail
  IsForward-fail e = record { forward = λ w. omega arith }

  IsForward-if :
      {A : Type 0} (t : Bool) {m n : M W E A}
      → IsForward m
      → IsForward n
      → IsForward (if t then m else n)
  IsForward-if true p q = p
  IsForward-if false p q = q

  continue-forward :
      {A B : Type 0} (r : Outcome E A) (f : A → M W E B) (w : W)
      → ((a : A) → IsForward (f a))
      → time w ≤ time (continue r f w).1
  continue-forward (ok a) f w k = (k a).forward w
  continue-forward (err e) f w k = omega arith

  IsForward-bind :
      {A B : Type 0} (m : M W E A) (f : A → M W E B)
      → IsForward m
      → ((a : A) → IsForward (f a))
      → IsForward (m >>= f)
  unfolding ◌>>=◌
  IsForward-bind m f p k = record {
    forward = λ w. omega (arith, p.forward w, continue-forward (m w).0 f (m w).1 k);
  }

  IsForward-try : {F A : Type 0} {m : M W F A} → IsForward m → IsForward {E = E} (try m)
  unfolding try
  IsForward-try p = record { forward = λ w. p.forward w }

  IsForward-with_err :
      {F A : Type 0} {m : M W F A} (f : F → E) → IsForward m → IsForward (with_err f m)
  unfolding with_err
  IsForward-with_err f p = record { forward = λ w. p.forward w }

  IsForward-total :
      {A : Type 0} (m : W → A × W) → ((w : W) → time w ≤ time (m w).1) → IsForward {E = E} (total m)
  unfolding total
  IsForward-total m h = record { forward = λ w. h w }

module _ {W : Type 0} ⦃store : ObjectStore W⦄ ⦃clock : Clock W⦄ (law : IsLawful W)
    (path instance_id : Name) (lease : ℕ) where
  verify-IsForward :
      (key : Name) (epoch : ℕ) → IsForward {W = W} (verify_lease_landed key instance_id epoch)
  unfolding verify_lease_landed
  verify-IsForward key epoch =
      IsForward-bind _ _ (IsForward-try (law.get key)) λ found. IsForward-pure _

  after_put-IsForward :
      (again : S3Error → Bool) (holder : Option Name) (epoch expires_at : ℕ)
      (done : Outcome S3Error Name)
      → IsForward {W = W} (after_put path instance_id lease again holder epoch expires_at done)
  after_put-IsForward again holder epoch expires_at (ok etag) = IsForward-pure _
  after_put-IsForward again holder epoch expires_at (err e) =
      IsForward-bind _ _ (verify-IsForward _ epoch) λ landed. failed landed
    where
      failed :
          (landed : Option Name)
          → IsForward {W = W} (after_failure (again e) e holder epoch expires_at landed)
      failed (some etag) = IsForward-pure _
      failed none = IsForward-if (again e) (IsForward-pure _) (IsForward-fail _)

  put_record-IsForward :
      (again : S3Error → Bool) (holder : Option Name) (epoch : ℕ) (cond : Precondition)
      → IsForward {W = W} (put_record path instance_id lease again holder epoch cond)
  unfolding put_record
  put_record-IsForward again holder epoch cond =
      IsForward-bind _ _ (IsForward-total _ law.now_ms) λ now_ms.
        IsForward-bind _ _ (IsForward-total _ law.now) λ start.
          IsForward-bind _ _ (IsForward-try (law.put _ _ _))
            λ done. after_put-IsForward again holder epoch (start + lease) done

  check_expired-IsForward : (r : Option LockRecord) → IsForward {W = W} (check_expired r)
  check_expired-IsForward none = IsForward-pure _
  check_expired-IsForward (some r) =
      IsForward-bind _ _ (IsForward-total _ law.now_ms) λ now_ms. IsForward-pure _

  round-IsForward : (holder : Option Name) → IsForward {W = W} (round path instance_id lease holder)
  unfolding round
  round-IsForward holder = IsForward-bind _ _ (IsForward-with_err s3 (law.get _)) λ found. go found
    where
      go :
          (found : Option (Body × ObjectMeta))
          → IsForward {W = W} (on_found path instance_id lease holder found)
      go none = put_record-IsForward _ holder 1 _
      go (some (body, meta)) =
          IsForward-bind _ _ (check_expired-IsForward (parse body)) λ expired. decide expired
        where
          decide :
              (expired : Bool)
              → IsForward {W = W}
                  (take_over path instance_id lease expired (parse body) meta holder)
          decide true = put_record-IsForward _ holder _ _
          decide false = IsForward-pure _

  pause-time :
      (backoff step now deadline : ℕ) (w : W)
      → now ≤ time w
      → let w' = (pause backoff step now deadline w).1 in
        now + min backoff (deadline - now) ≤ time w'
  unfolding pause ◌>>=◌
  pause-time backoff step now deadline w h = omega (
    arith,
    law.random step w,
    law.sleep (min (backoff + (clock.random step w).0 % 20) (deadline - now))
        (clock.random step w).1,
  )

  -- A round that was lost, if what follows the pause comes back.
  lost-Returns :
      (next : Option Name → M W SyncError (Option Acquired)) (deadline backoff step : ℕ)
      (holder : Option Name) (w : W)
      → (time w < deadline
          → (w' : W) → time w + min backoff (deadline - time w) ≤ time w'
          → Returns (next holder) w')
      → Returns (after_round path instance_id lease next deadline backoff step (lost holder)) w
  unfolding ◌>>=◌ pause
  lost-Returns next deadline backoff step holder w more =
      elim (Bool-cases (leb deadline (time w))) [
        | inl late ↦ rw late (λ h. cc)
        | inr early ↦ rw early (waits (leb-false→lt deadline (time w) early))
      ]
    where
      waits :
          time w < deadline
          → ¬ (((pause backoff step (time w) deadline >> next holder) (clock.now w).1).0 ≡ ok none)
      waits early = more early _ (pause-time backoff step (time w) deadline _ (law.now w))

  -- A round, if what follows a round that was lost comes back.
  turn-Returns :
      (next : Option Name → M W SyncError (Option Acquired)) (deadline backoff step : ℕ)
      (holder : Option Name) (w : W)
      → ((holder' : Option Name) (w' w'' : W)
          → time w ≤ time w'
          → time w' < deadline
          → time w' + min backoff (deadline - time w') ≤ time w''
          → Returns (next holder') w'')
      → Returns
          (round path instance_id lease holder
            >>= after_round path instance_id lease next deadline backoff step)
          w
  unfolding ◌>>=◌
  turn-Returns next deadline backoff step holder w more =
      after (round path instance_id lease holder w) ((round-IsForward holder).forward w)
    where
      after :
          (x : Outcome SyncError Round × W)
          → time w ≤ time x.1
          → ¬ (
              (continue x.0 (after_round path instance_id lease next deadline backoff step) x.1).0
              ≡ ok none)
      after (err e, w') later = λ h. cc
      after (ok (won a), w') later = λ h. cc
      after (ok (lost holder'), w') later =
          lost-Returns next deadline backoff step holder' w'
            λ early w''. more holder' w' w'' later early

  loop-Returns :
      (rounds deadline backoff step : ℕ) (holder : Option Name) (w : W)
      → deadline ≤ time w + 50 * rounds
      → 50 ≤ backoff
      → Returns (acquire_loop path instance_id lease (suc rounds) deadline backoff step holder) w
  unfolding acquire_loop
  loop-Returns zero deadline backoff step holder w near slow =
      turn-Returns _ deadline backoff (step + 1) holder w
        λ holder' w' w'' later early paused. absurd (omega arith)
  loop-Returns (suc rounds) deadline backoff step holder w near slow =
      turn-Returns _ deadline backoff (step + 1) holder w λ holder' w' w'' later early paused.
        loop-Returns rounds deadline (next_backoff backoff) (step + 1) holder' w'' (omega arith)
          (omega arith)

  -- `acquire` comes back with a lease or an error, whatever the other clients do: the rounds that it is
  -- given are enough, if no call turns the monotonic clock back and a pause takes as long as it says.
  pub acquire-Returns : (timeout : ℕ) (w : W) → Returns (acquire path instance_id lease timeout) w
  unfolding acquire ◌>>=◌
  acquire-Returns timeout w =
      loop-Returns (suc (timeout / 50)) (time w + timeout) 50 0 none (clock.now w).1
        (omega (arith, law.now w)) (omega arith)
