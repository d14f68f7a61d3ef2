-- ===== src/Sync/Lease/System/Safety.antt =====
-- Two leases of one file that are not expired belong to one instance.
use mathlib.Core.Path.{subst}
use monaka_fs.Prelude.{ℕ, ◌<◌, ◌≡◌, sym, ◌∙◌, ap, inl, inr, arith}
use monaka_fs.Key.{Name}
use monaka_fs.Sync.Store.{Body}
use monaka_fs.Sync.Lease.Record.{parse}
use monaka_fs.Sync.Lease.Record.RoundTrip.{IsPlain}
use monaka_fs.Sync.Lease.System.{holds, System, Reachable}
use monaka_fs.Sync.Lease.System.Invariant.{
  Holding, IsRight, IsSound, instance_id_of, just, same_body, parse-body_for,
}
use monaka_fs.Sync.Lease.System.Steps.{at, step-IsSound}

module _ (etag_for : Body → Name) (path : Name) (lease : ℕ) (path_plain : IsPlain path)
    (injective : (b c : Body) → etag_for b ≡ etag_for c → b ≡ c) where
  reachable-IsSound : (s : System) → Reachable etag_for path lease s → IsSound etag_for path s
  reachable-IsSound s (Reachable.start began) = record {
    etag = began.etag;
    right = λ j. subst (IsRight etag_for path s.object s.time j) (sym (began.idle j)) tt;
  }
  reachable-IsSound s (Reachable.later r step) =
      step-IsSound etag_for path lease path_plain injective _ s step (reachable-IsSound _ r)

  -- At most one lease at a time: in every state that any interleaving of the instances' reads, writes,
  -- lost answers, renewals, releases and crashes can lead to, two instances that hold the lease of the
  -- file with an expiry that the clock has not reached are the same instance. The ETag of a body is its
  -- own, and the file's path and the ids of the instances are plain text of one line.
  pub acquire_exclusive :
      (s : System) (j k : Name) (etag etag' : Name) (epoch epoch' expires expires' : ℕ)
      → Reachable etag_for path lease s
      → s.phase j ≡ holds etag epoch expires
      → s.phase k ≡ holds etag' epoch' expires'
      → s.time < expires
      → s.time < expires'
      → j ≡ k
  acquire_exclusive s j k etag etag' epoch epoch' expires expires' reached mine theirs valid
        valid' =
      both (at etag_for path lease path_plain injective s j mine sound)
        (at etag_for path lease path_plain injective s k theirs sound)
    where
      sound : IsSound etag_for path s
      sound = reachable-IsSound s reached

      both :
          Holding etag_for path s.object s.time j etag epoch expires
          → Holding etag_for path s.object s.time k etag' epoch' expires'
          → j ≡ k
      both a b = elim a.current [
        | inl late ↦ absurd (omega arith)
        | inr (ms, small, le, same) ↦ elim b.current [
          | inl late ↦ absurd (omega arith)
          | inr (ms', small', le', same') ↦ ap instance_id_of (
              just (
                sym (parse-body_for etag_for path path_plain j epoch ms a.plain a.epoch_fits small)
                ∙ ap parse (same_body _ _ _ _ (sym same' ∙ same))
                ∙ parse-body_for etag_for path path_plain k epoch' ms' b.plain b.epoch_fits small'))
        ]
      ]
