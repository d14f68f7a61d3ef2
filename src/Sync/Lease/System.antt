-- ===== src/Sync/Lease/System.antt =====
-- Instances that contend for the lease of one file: `acquire`, `renew` and `release` of lease.rs, cut
-- where they call the store, interleaved in any order. All wall clocks show the same time.
pub mod Invariant
pub mod Steps
pub mod Safety
use monaka_fs.Prelude.{ℕ, ◌+◌, ◌≤◌, ◌≡◌, Bool, true, false, Option, none, some, if◌then◌else◌}
use monaka_fs.Key.{Name, name_eq}
use monaka_fs.Sync.Types.{Precondition, no_condition, if_match, if_none_match_any}
use monaka_fs.Sync.Store.{Body}
use monaka_fs.Sync.Lease.{new_record, expiry, epoch_after, is_ours}
use monaka_fs.Sync.Lease.Record.{LockRecord, encode, parse, is_expired}
use monaka_fs.Sync.Lease.Record.RoundTrip.{IsPlain}

-- The lock object: its body and its ETag.
abbrev pub Object : Type 0
Object = Option (Body × Name)

-- Where an instance stands: it has the answer of GET, it has lost the answer of its PUT, or it has the
-- lease, whose record it wrote with this epoch and this expiry.
pub data Phase : Type 0 where
  idle : Phase
  looked : Object → Phase
  verifying : ℕ → ℕ → Phase
  holds : Name → ℕ → ℕ → Phase

pub record System : Type 0 where
  pub object : Object
  pub time : ℕ
  pub phase : Name → Phase

-- What `acquire` does with an object that it found: the epoch and the condition of its PUT.
abbrev pub plan_over : Name → Option LockRecord → Bool → Option (ℕ × Precondition)
plan_over etag r true = some (epoch_after r, if_match etag)
plan_over etag r false = none

abbrev pub expired_at : ℕ → Option LockRecord → Bool
expired_at now none = true
expired_at now (some r) = is_expired r now

abbrev pub plan : Object → ℕ → Option (ℕ × Precondition)
plan none now = some (1, if_none_match_any)
plan (some (body, etag)) now = plan_over etag (parse body) (expired_at now (parse body))

-- Whether the store lets a request pass.
abbrev pub admits : Precondition → Object → Bool
admits no_condition o = true
admits (if_match etag) none = false
admits (if_match etag) (some (body, current)) = name_eq current etag
admits if_none_match_any none = true
admits if_none_match_any (some o) = false

-- The record of an instance, and the object that holds it.
abbrev pub body_for : Name → Name → ℕ → ℕ → Body
body_for path j epoch expires = encode (new_record j path epoch expires)

abbrev pub object_for : (Body → Name) → Name → Name → ℕ → ℕ → Object
object_for etag_for path j epoch expires =
    some (body_for path j epoch expires, etag_for (body_for path j epoch expires))

-- The instance goes to a phase, and the lock object is `o`.
abbrev pub move : Name → Phase → Object → System → System
move j p o s = record s { object = o; phase = λ k. if name_eq j k then p else s.phase k }

module _ (etag_for : Body → Name) (path : Name) (lease : ℕ) where
  -- A clock is read at `start`, and its reading used at once or later.
  pub data Step (s : System) : System → Type 0 where
    tick : (ms : ℕ) → Step s (record s { time = s.time + ms })
    -- An error, a lease that is in use, the end of a lease without its release, a crash.
    stop : (j : Name) → Step s (move j idle s.object s)
    look : (j : Name) → s.phase j ≡ idle → Step s (move j (looked s.object) s.object s)
    put :
        (j : Name) (seen : Object) (start epoch : ℕ) (cond : Precondition)
        → IsPlain j
        → s.phase j ≡ looked seen
        → start ≤ s.time
        → plan seen start ≡ some (epoch, cond)
        → admits cond s.object ≡ true
        → Step s (
            move j
              (holds
                (etag_for (body_for path j epoch (expiry start lease)))
                epoch
                (expiry start lease))
              (object_for etag_for path j epoch (expiry start lease))
              s)
    put_unheard :
        (j : Name) (seen : Object) (start epoch : ℕ) (cond : Precondition)
        → IsPlain j
        → s.phase j ≡ looked seen
        → start ≤ s.time
        → plan seen start ≡ some (epoch, cond)
        → admits cond s.object ≡ true
        → Step s (
            move j
              (verifying epoch (expiry start lease))
              (object_for etag_for path j epoch (expiry start lease))
              s)
    put_failed :
        (j : Name) (seen : Object) (start epoch : ℕ) (cond : Precondition)
        → s.phase j ≡ looked seen
        → start ≤ s.time
        → plan seen start ≡ some (epoch, cond)
        → Step s (move j (verifying epoch (expiry start lease)) s.object s)
    verify :
        (j : Name) (epoch expires : ℕ) (body : Body) (etag : Name)
        → s.phase j ≡ verifying epoch expires
        → s.object ≡ some (body, etag)
        → is_ours j epoch (parse body) ≡ true
        → Step s (move j (holds etag epoch expires) s.object s)
    renew :
        (j : Name) (etag : Name) (epoch expires start : ℕ)
        → IsPlain j
        → s.phase j ≡ holds etag epoch expires
        → expires ≤ expiry start lease
        → admits (if_match etag) s.object ≡ true
        → Step s (
            move j
              (holds
                (etag_for (body_for path j epoch (expiry start lease)))
                epoch
                (expiry start lease))
              (object_for etag_for path j epoch (expiry start lease))
              s)
    renew_unheard :
        (j : Name) (etag : Name) (epoch expires start : ℕ)
        → IsPlain j
        → s.phase j ≡ holds etag epoch expires
        → expires ≤ expiry start lease
        → admits (if_match etag) s.object ≡ true
        → Step s (
            move j
              (holds etag epoch expires)
              (object_for etag_for path j epoch (expiry start lease))
              s)
    release :
        (j : Name) (etag : Name) (epoch expires : ℕ)
        → s.phase j ≡ holds etag epoch expires
        → admits (if_match etag) s.object ≡ true
        → Step s (move j idle none s)

  -- Any object that the store has given its ETag may be there at the start.
  pub record IsStart (s : System) : Type 0 where
    pub etag : (body : Body) (e : Name) → s.object ≡ some (body, e) → e ≡ etag_for body
    pub idle : (j : Name) → s.phase j ≡ idle

  pub data Reachable : System → Type 0 where
    start : {s : System} → IsStart s → Reachable s
    later : {s t : System} → Reachable s → Step s t → Reachable t
