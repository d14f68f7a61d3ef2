-- ===== src/Sync/Lease/System/Invariant.antt =====
-- The invariant of the instances and the lock object, by the phase of each instance.
use mathlib.Core.Path.{subst}
use monaka_fs.Prelude.{
  ℕ, ◌^◌, ◌≤◌, ◌<◌, ◌≡◌, ◌≢◌, ◌⊎◌, refl, sym, ◌∙◌, ap, inl, inr, Bool, true, false, Option, none,
  some, arith, leb→le, if◌then◌else◌, Bool-cases,
}
use monaka_fs.Key.{Name, name_eq, name_eq_iff}
use monaka_fs.Sync.Types.{Precondition, if_match, if_none_match_any}
use monaka_fs.Sync.Store.{Body}
use monaka_fs.Sync.Lease.{new_record, is_ours}
use monaka_fs.Sync.Lease.Record.{LockRecord, parse}
use monaka_fs.Sync.Lease.Record.RoundTrip.{IsPlain, parse-encode}
use monaka_fs.Sync.Lease.System.{
  Object, Phase, idle, looked, verifying, holds, System, plan, plan_over, expired_at, admits,
  body_for, object_for, move,
}

-- No instance but others wrote the object.
abbrev pub Foreign : Name → Object → Type 0
Foreign j o =
    (body : Body) (etag : Name) (r : LockRecord)
    → o ≡ some (body, etag)
    → parse body ≡ some r
    → r.instance_id ≢ j

module _ (etag_for : Body → Name) (path : Name) where
  abbrev pub HasEtag : Object → Type 0
  HasEtag o = (body : Body) (etag : Name) → o ≡ some (body, etag) → etag ≡ etag_for body

  -- A lease that is not expired is in the object, under this expiry or a later one.
  pub record Holding (o : Object) (time : ℕ) (j etag : Name) (epoch expires : ℕ) : Type 0 where
    pub written : (ms : ℕ) × (ms < 2 ^ 64) × (etag ≡ etag_for (body_for path j epoch ms))
    pub epoch_fits : epoch < 2 ^ 64
    pub plain : IsPlain j
    pub current :
        (expires ≤ time)
        ⊎ ((ms : ℕ) × (ms < 2 ^ 64) × (expires ≤ ms) × (o ≡ object_for etag_for path j epoch ms))

  abbrev pub IsRight : Object → ℕ → Name → Phase → Type 0
  IsRight o time j idle = Unit
  IsRight o time j (looked seen) = HasEtag seen × ((o ≡ seen) ⊎ Foreign j o)
  IsRight o time j (verifying epoch expires) =
      (epoch < 2 ^ 64)
      × (expires < 2 ^ 64)
      × ((body : Body) (etag : Name)
          → o ≡ some (body, etag)
          → is_ours j epoch (parse body) ≡ true
          → IsPlain j × (body ≡ body_for path j epoch expires))
  IsRight o time j (holds etag epoch expires) = Holding o time j etag epoch expires

  pub record IsSound (s : System) : Type 0 where
    pub etag : HasEtag s.object
    pub right : (j : Name) → IsRight s.object s.time j (s.phase j)

abbrev pub instance_id_of : LockRecord → Name
instance_id_of r = r.instance_id

pub just : {A : Type 0} {a b : A} → some a ≡ some b → a ≡ b
just h = cc

pub same_body : (b c : Body) (e f : Name) → ◌≡◌ {A = Object} (some (b, e)) (some (c, f)) → c ≡ b
same_body b c e f h = cc

pub is_ours-true :
    (j : Name) (epoch : ℕ) (o : Option LockRecord)
    → is_ours j epoch o ≡ true
    → (r : LockRecord) × (o ≡ some r) × (r.instance_id ≡ j) × (r.epoch ≡ epoch)
is_ours-true j epoch none h = cc
is_ours-true j epoch (some r) h =
    (r, refl, (name_eq_iff r.instance_id j).0 (ground arith), ground arith)

module _ (etag_for : Body → Name) (path : Name) (path_plain : IsPlain path) where
  pub parse-body_for :
      (j : Name) (epoch ms : ℕ)
      → IsPlain j
      → epoch < 2 ^ 64
      → ms < 2 ^ 64
      → parse (body_for path j epoch ms) ≡ some (new_record j path epoch ms)
  parse-body_for j epoch ms plain fits small =
      parse-encode (new_record j path epoch ms)
        (record { instance_id = plain; path = path_plain; epoch = fits; expires = small })

  -- The record of another instance.
  Foreign-object_for :
      (j k : Name) (epoch ms : ℕ)
      → IsPlain j
      → epoch < 2 ^ 64
      → ms < 2 ^ 64
      → j ≢ k
      → Foreign k (object_for etag_for path j epoch ms)
  Foreign-object_for j k epoch ms plain fits small other body etag r same read h = other (
      sym (
        ap instance_id_of (
          just (
            sym read
            ∙ ap parse (same_body _ body _ etag same)
            ∙ parse-body_for j epoch ms plain fits small)))
      ∙ h)

  -- A change of the phase of one instance, and of the object.
  pub moved :
      (s : System) (j : Name) (p : Phase) (o : Object)
      → HasEtag etag_for path o
      → IsRight etag_for path o s.time j p
      → ((k : Name) (q : Phase)
          → j ≢ k
          → IsRight etag_for path s.object s.time k q
          → IsRight etag_for path o s.time k q)
      → IsSound etag_for path s
      → IsSound etag_for path (move j p o s)
  moved s j p o etag mine others sound = record {
    etag = etag;
    right = λ k. at k (Bool-cases (name_eq j k));
  }
    where
      at :
          (k : Name)
          → (name_eq j k ≡ true) ⊎ (name_eq j k ≡ false)
          → IsRight etag_for path o s.time k (if name_eq j k then p else s.phase k)
      at k (inl e) =
          rw e (subst (λ x. IsRight etag_for path o s.time x p) ((name_eq_iff j k).0 e) mine)
      at k (inr e) =
          rw e (others k (s.phase k) (λ same. cc (e, (name_eq_iff j k).1 same)) (sound.right k))

  pub others_after_write :
      (o : Object) (time : ℕ) (j k : Name) (epoch ms : ℕ) (q : Phase)
      → IsPlain j
      → epoch < 2 ^ 64
      → ms < 2 ^ 64
      → j ≢ k
      → ((etag : Name) (ep ex : ℕ) → Holding etag_for path o time k etag ep ex → ex ≤ time)
      → IsRight etag_for path o time k q
      → IsRight etag_for path (object_for etag_for path j epoch ms) time k q
  others_after_write o time j k epoch ms idle plain fits small other free right = tt
  others_after_write o time j k epoch ms (looked seen) plain fits small other free (etag, h) =
      (etag, inr (Foreign-object_for j k epoch ms plain fits small other))
  others_after_write o time j k epoch ms (verifying ep ex) plain fits small other free (a, b, h) = (
    a,
    b,
    λ body etag same ours. absurd (theirs body etag same (is_ours-true k ep (parse body) ours)),
  )
    where
      theirs :
          (body : Body) (etag : Name)
          → object_for etag_for path j epoch ms ≡ some (body, etag)
          → (r : LockRecord) × (parse body ≡ some r) × (r.instance_id ≡ k) × (r.epoch ≡ ep)
          → ⊥
      theirs body etag same (r, read, who, when) =
          Foreign-object_for j k epoch ms plain fits small other body etag r same read who
  others_after_write o time j k epoch ms (holds etag ep ex) plain fits small other free right =
      record {
        written = right.written;
        epoch_fits = right.epoch_fits;
        plain = right.plain;
        current = inl (free etag ep ex right);
      }

  pub others_after_release :
      (o : Object) (time : ℕ) (k : Name) (q : Phase)
      → ((etag : Name) (ep ex : ℕ) → Holding etag_for path o time k etag ep ex → ex ≤ time)
      → IsRight etag_for path o time k q
      → IsRight etag_for path none time k q
  others_after_release o time k idle free right = tt
  others_after_release o time k (looked seen) free (etag, h) =
      (etag, inr (λ body e r same. absurd cc))
  others_after_release o time k (verifying ep ex) free (a, b, h) = (a, b, λ body e same. absurd cc)
  others_after_release o time k (holds etag ep ex) free right = record {
    written = right.written;
    epoch_fits = right.epoch_fits;
    plain = right.plain;
    current = inl (free etag ep ex right);
  }

  module _ (injective : (b c : Body) → etag_for b ≡ etag_for c → b ≡ c) where
    plan_expired :
        (seen : Object) (start epoch : ℕ) (cond : Precondition) (k : Name) (ep ms : ℕ)
        → HasEtag etag_for path seen
        → IsPlain k
        → ep < 2 ^ 64
        → ms < 2 ^ 64
        → plan seen start ≡ some (epoch, cond)
        → admits cond (object_for etag_for path k ep ms) ≡ true
        → ms ≤ start
    plan_expired none start epoch cond k ep ms has plain fits small planned admitted =
        let e : if_none_match_any ≡ cond = cc in
        absurd (cc (ap (λ c. admits c (object_for etag_for path k ep ms)) e))
    plan_expired (some (body, etag)) start epoch cond k ep ms has plain fits small planned
          admitted =
        decided (expired_at start (parse body)) refl planned
      where
        decided :
            (t : Bool)
            → expired_at start (parse body) ≡ t
            → plan_over etag (parse body) t ≡ some (epoch, cond)
            → ms ≤ start
        decided false late planned = cc
        decided true late planned =
            let e : if_match etag ≡ cond = cc in
            let admits_it : name_eq (etag_for (body_for path k ep ms)) etag ≡ true =
              ap (λ c. admits c (object_for etag_for path k ep ms)) e ∙ admitted in
            let b : body_for path k ep ms ≡ body = injective _ _ (
              (name_eq_iff (etag_for (body_for path k ep ms)) etag).0 admits_it
              ∙ has body etag refl) in
            leb→le ms start (
              ap (expired_at start) ((sym (parse-body_for k ep ms plain fits small) ∙ ap parse b))
              ∙ late)

    -- A PUT that `acquire` plans, and the store admits, meets no lease but expired ones.
    pub free_of_plan :
        (seen : Object) (start time epoch : ℕ) (cond : Precondition) (o : Object)
        → HasEtag etag_for path seen
        → start ≤ time
        → plan seen start ≡ some (epoch, cond)
        → admits cond o ≡ true
        → (k etag : Name) (ep ex : ℕ) → Holding etag_for path o time k etag ep ex
        → ex ≤ time
    free_of_plan seen start time epoch cond o has before planned admitted k etag ep ex held =
        elim held.current [
          | inl h ↦ h
          | inr (ms, small, le, same) ↦
              let h : ms ≤ start =
                plan_expired seen start epoch cond k ep ms has held.plain held.epoch_fits small
                  planned (ap (admits cond) (sym same) ∙ admitted) in
              omega arith
        ]

    -- So does one that the ETag of another lease admits.
    pub free_of_match :
        (o : Object) (time : ℕ) (j etag : Name) (epoch expires : ℕ)
        → Holding etag_for path o time j etag epoch expires
        → admits (if_match etag) o ≡ true
        → (k etag' : Name) (ep ex : ℕ) → j ≢ k
        → Holding etag_for path o time k etag' ep ex
        → ex ≤ time
    free_of_match o time j etag epoch expires mine admitted k etag' ep ex other held =
        elim held.current [
          | inl h ↦ h
          | inr (ms, small, le, same) ↦
              absurd
                (other (same_instance ms small (ap (admits (if_match etag)) (sym same) ∙ admitted)))
        ]
      where
        same_instance :
            (ms : ℕ)
            → ms < 2 ^ 64
            → admits (if_match etag) (object_for etag_for path k ep ms) ≡ true
            → j ≡ k
        same_instance ms small match_it =
            let (mine_ms, mine_small, e) = mine.written in
            let b : body_for path k ep ms ≡ body_for path j epoch mine_ms =
              injective _ _
                ((name_eq_iff (etag_for (body_for path k ep ms)) etag).0 match_it ∙ e) in
            ap instance_id_of (
              just (
                sym (parse-body_for j epoch mine_ms mine.plain mine.epoch_fits mine_small)
                ∙ sym (ap parse b)
                ∙ parse-body_for k ep ms held.plain held.epoch_fits small))
