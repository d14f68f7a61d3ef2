-- ===== src/Sync/Lease/System/Steps.antt =====
-- Every step keeps the invariant.
use mathlib.Core.Path.{subst}
use monaka_fs.Prelude.{
  ℕ, ◌+◌, ◌%◌, ◌^◌, ◌≤◌, ◌<◌, ◌≡◌, ◌⊎◌, refl, sym, ◌∙◌, ap, inl, inr, Bool, true, false, Option,
  none, some, arith,
}
use monaka_fs.Key.{Name}
use monaka_fs.Sync.Types.{Precondition, if_match}
use monaka_fs.Sync.Store.{Body}
use monaka_fs.Sync.Lease.{expiry, epoch_after, is_ours}
use monaka_fs.Sync.Lease.Record.{LockRecord, parse}
use monaka_fs.Sync.Lease.Record.RoundTrip.{IsPlain}
use monaka_fs.Sync.Lease.System.{
  Object, Phase, idle, looked, verifying, holds, System, plan, plan_over, expired_at, admits,
  body_for, object_for, move, Step,
}
use monaka_fs.Sync.Lease.System.Invariant.{
  Foreign, HasEtag, Holding, IsRight, IsSound, is_ours-true, moved, others_after_write,
  others_after_release, free_of_plan, free_of_match,
}

epoch_after_fits : (o : Option LockRecord) → epoch_after o < 2 ^ 64
epoch_after_fits none = omega arith
epoch_after_fits (some r) = omega arith

plan_fits :
    (seen : Object) (start epoch : ℕ) (cond : Precondition)
    → plan seen start ≡ some (epoch, cond)
    → epoch < 2 ^ 64
plan_fits none start epoch cond planned = let e : 1 ≡ epoch = cc in omega (arith, e)
plan_fits (some (body, etag)) start epoch cond planned =
    decided (expired_at start (parse body)) planned
  where
    decided : (t : Bool) → plan_over etag (parse body) t ≡ some (epoch, cond) → epoch < 2 ^ 64
    decided false planned = cc
    decided true planned =
        let e : epoch_after (parse body) ≡ epoch = cc in
        subst (λ n. n < 2 ^ 64) e (epoch_after_fits (parse body))

-- The object that an instance planned to write over is not its record of the new epoch.
plan_new :
    (j : Name) (body : Body) (etag : Name) (start epoch : ℕ) (cond : Precondition)
    → plan (some (body, etag)) start ≡ some (epoch, cond)
    → ¬ (is_ours j epoch (parse body) ≡ true)
plan_new j body etag start epoch cond planned ours =
    let (r, read, who, when) = is_ours-true j epoch (parse body) ours in
    decided r read when (expired_at start (parse body)) planned
  where
    decided :
        (r : LockRecord)
        → parse body ≡ some r
        → r.epoch ≡ epoch
        → (t : Bool) → plan_over etag (parse body) t ≡ some (epoch, cond)
        → ⊥
    decided r read when false planned = cc
    decided r read when true planned =
        let e : epoch_after (parse body) ≡ epoch = cc in
        let e' : (r.epoch + 1) % 2 ^ 64 ≡ epoch = sym (ap epoch_after read) ∙ e in
        omega (arith, e', when)

module _ (etag_for : Body → Name) (path : Name) (lease : ℕ) (path_plain : IsPlain path)
    (injective : (b c : Body) → etag_for b ≡ etag_for c → b ≡ c) where
  failed-IsRight :
      (j : Name) (seen o : Object) (time start epoch ms : ℕ) (cond : Precondition)
      → ms < 2 ^ 64
      → plan seen start ≡ some (epoch, cond)
      → IsRight etag_for path o time j (looked seen)
      → IsRight etag_for path o time j (verifying epoch ms)
  failed-IsRight j seen o time start epoch ms cond small planned (has, h) = (
    plan_fits seen start epoch cond planned,
    small,
    λ body etag same ours. absurd (nobody body etag same ours h),
  )
    where
      nobody :
          (body : Body) (etag : Name)
          → o ≡ some (body, etag)
          → is_ours j epoch (parse body) ≡ true
          → (o ≡ seen) ⊎ Foreign j o
          → ⊥
      nobody body etag same ours (inl e) =
          plan_new j body etag start epoch cond (ap (λ x. plan x start) (sym same ∙ e) ∙ planned)
            ours
      nobody body etag same ours (inr f) =
          let (r, read, who, when) = is_ours-true j epoch (parse body) ours in
          f body etag r same read who

  tick-IsRight :
      (o : Object) (time ms : ℕ) (j : Name) (p : Phase)
      → IsRight etag_for path o time j p
      → IsRight etag_for path o (time + ms) j p
  tick-IsRight o time ms j idle right = tt
  tick-IsRight o time ms j (looked seen) right = right
  tick-IsRight o time ms j (verifying epoch expires) right = right
  tick-IsRight o time ms j (holds etag epoch expires) right = record {
    written = right.written;
    epoch_fits = right.epoch_fits;
    plain = right.plain;
    current = elim right.current [ inl h ↦ inl (omega arith) | inr h ↦ inr h ];
  }

  object_for-HasEtag :
      (j : Name) (epoch ms : ℕ) → HasEtag etag_for path (object_for etag_for path j epoch ms)
  object_for-HasEtag j epoch ms body etag same = cc

  -- The lease of the record that is in the object.
  written-Holding :
      (j : Name) (epoch ms time : ℕ)
      → IsPlain j
      → epoch < 2 ^ 64
      → ms < 2 ^ 64
      → Holding etag_for path
          (object_for etag_for path j epoch ms)
          time
          j
          (etag_for (body_for path j epoch ms))
          epoch
          ms
  written-Holding j epoch ms time plain fits small = record {
    written = (ms, small, refl);
    epoch_fits = fits;
    plain = plain;
    current = inr (ms, small, omega arith, refl);
  }

  verified-Holding :
      (j : Name) (epoch ms : ℕ) (body : Body) (etag : Name) (o : Object) (time : ℕ)
      → HasEtag etag_for path o
      → o ≡ some (body, etag)
      → epoch < 2 ^ 64
      → ms < 2 ^ 64
      → IsPlain j
      → body ≡ body_for path j epoch ms
      → Holding etag_for path o time j etag epoch ms
  verified-Holding j epoch ms body etag o time has same fits small plain b = record {
    written = (ms, small, has body etag same ∙ ap etag_for b);
    epoch_fits = fits;
    plain = plain;
    current = inr (ms, small, omega arith, cc (has body etag same, ap etag_for b));
  }

  expiry_fits : (start : ℕ) → expiry start lease < 2 ^ 64
  expiry_fits start = omega arith

  pub at :
      (s : System) (j : Name) {p : Phase}
      → s.phase j ≡ p
      → IsSound etag_for path s
      → IsRight etag_for path s.object s.time j p
  at s j e sound = subst (IsRight etag_for path s.object s.time j) e (sound.right j)

  -- A PUT of `acquire` goes through: the others are left without a lease that is not expired.
  put-IsSound :
      (s : System) (j : Name) (seen : Object) (start epoch : ℕ) (cond : Precondition) (p : Phase)
      → IsPlain j
      → s.phase j ≡ looked seen
      → start ≤ s.time
      → plan seen start ≡ some (epoch, cond)
      → admits cond s.object ≡ true
      → IsRight etag_for path (object_for etag_for path j epoch (expiry start lease)) s.time j p
      → IsSound etag_for path s
      → IsSound etag_for path (move j p (object_for etag_for path j epoch (expiry start lease)) s)
  put-IsSound s j seen start epoch cond p plain phase before planned admitted right sound =
      moved etag_for path path_plain s j p _ (object_for-HasEtag j epoch (expiry start lease)) right
        (λ k q other.
          others_after_write etag_for path path_plain s.object s.time j k epoch (expiry start lease)
            q plain (plan_fits seen start epoch cond planned) (expiry_fits start) other
            (free_of_plan etag_for path path_plain injective seen start s.time epoch cond s.object
              (at s j phase sound).0 before planned admitted k))
        sound

  renew-IsSound :
      (s : System) (j etag : Name) (epoch expires start : ℕ) (p : Phase)
      → IsPlain j
      → s.phase j ≡ holds etag epoch expires
      → admits (if_match etag) s.object ≡ true
      → IsRight etag_for path (object_for etag_for path j epoch (expiry start lease)) s.time j p
      → IsSound etag_for path s
      → IsSound etag_for path (move j p (object_for etag_for path j epoch (expiry start lease)) s)
  renew-IsSound s j etag epoch expires start p plain phase admitted right sound =
      let held = at s j phase sound in
      moved etag_for path path_plain s j p _ (object_for-HasEtag j epoch (expiry start lease)) right
        (λ k q other.
          others_after_write etag_for path path_plain s.object s.time j k epoch (expiry start lease)
            q plain held.epoch_fits (expiry_fits start) other
            (λ etag' ep ex.
              free_of_match etag_for path path_plain injective s.object s.time j etag epoch expires
                held admitted k etag' ep ex other))
        sound

  -- The object stays as it is.
  stays :
      (s : System) (j : Name) (p : Phase)
      → IsRight etag_for path s.object s.time j p
      → IsSound etag_for path s
      → IsSound etag_for path (move j p s.object s)
  stays s j p right sound =
      moved etag_for path path_plain s j p s.object sound.etag right (λ k q other h. h) sound

  pub step-IsSound :
      (s t : System)
      → Step etag_for path lease s t
      → IsSound etag_for path s
      → IsSound etag_for path t
  step-IsSound s _ (Step.tick ms) sound = record {
    etag = sound.etag;
    right = λ j. tick-IsRight s.object s.time ms j (s.phase j) (sound.right j);
  }
  step-IsSound s _ (Step.stop j) sound = stays s j idle tt sound
  step-IsSound s _ (Step.look j e) sound = stays s j _ (sound.etag, inl refl) sound
  step-IsSound s _ (Step.put j seen start epoch cond plain e before planned admitted) sound =
      put-IsSound s j seen start epoch cond _ plain e before planned admitted
        (written-Holding j epoch (expiry start lease) s.time plain
          (plan_fits seen start epoch cond planned) (expiry_fits start))
        sound
  step-IsSound s _ (Step.put_unheard j seen start epoch cond plain e before planned admitted)
        sound =
      put-IsSound s j seen start epoch cond _ plain e before planned admitted
        (
          plan_fits seen start epoch cond planned,
          expiry_fits start,
          λ body etag same ours. (plain, cc),
        )
        sound
  step-IsSound s _ (Step.put_failed j seen start epoch cond e before planned) sound =
      stays s j _
        (failed-IsRight j seen s.object s.time start epoch (expiry start lease) cond
          (expiry_fits start) planned (at s j e sound))
        sound
  step-IsSound s _ (Step.verify j epoch expires body etag e same ours) sound =
      let (fits, small, read) = at s j e sound in
      let (plain, b) = read body etag same ours in
      stays s j _
        (verified-Holding j epoch expires body etag s.object s.time sound.etag same fits small plain
          b)
        sound
  step-IsSound s _ (Step.renew j etag epoch expires start plain e later admitted) sound =
      renew-IsSound s j etag epoch expires start _ plain e admitted
        (written-Holding j epoch (expiry start lease) s.time plain (at s j e sound).epoch_fits
          (expiry_fits start))
        sound
  step-IsSound s _ (Step.renew_unheard j etag epoch expires start plain e later admitted) sound =
      let held = at s j e sound in
      renew-IsSound s j etag epoch expires start _ plain e admitted
        (record {
          written = held.written;
          epoch_fits = held.epoch_fits;
          plain = plain;
          current = inr (expiry start lease, expiry_fits start, later, refl);
        })
        sound
  step-IsSound s _ (Step.release j etag epoch expires e admitted) sound =
      let held = at s j e sound in
      moved etag_for path path_plain s j idle none (λ body etag same. absurd cc) tt
        (λ k q other.
          others_after_release etag_for path path_plain s.object s.time k q (λ etag' ep ex.
            free_of_match etag_for path path_plain injective s.object s.time j etag epoch expires
              held admitted k etag' ep ex other))
        sound
