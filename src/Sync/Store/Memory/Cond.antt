-- ===== src/Sync/Store/Memory/Cond.antt =====
-- Conditional writes to the store in memory, two under one condition.
use monaka_fs.Prelude.{
  ℕ, inl, inr, ◌+◌, ◌%◌, ◌^◌, ◌≡◌, ◌≢◌, refl, ◌∙◌, ap, List, [], ◌∷◌, some, Bool-cases,
}
use monaka_fs.Key.{Name, name_key, name_eq, name_eq_iff}
use monaka_fs.Map
use monaka_fs.Map.{get-insert_self}
use monaka_fs.Sync.Types.{Precondition, no_condition, if_match, if_none_match_any, S3Error}
use monaka_fs.Sync.Exec.{ok, err, ◌>>=◌, Outcome-cases}
use monaka_fs.Sync.Store.{Body}
use monaka_fs.Sync.Store.Memory.{
  MemObject, Inner, take_failure, cond_on, check_cond, put_object, put, refused,
}

-- The object that a PUT leaves under its key.
abbrev pub written : (Body → Name) → Body → ℕ → MemObject
written etag_for body clock = record {
  body = body;
  etag = etag_for body;
  last_modified = (clock + 1) % 2 ^ 64;
}

module _ (etag_for : Body → Name) (key : Name) (body : Body) (cond : Precondition) where
  -- A PUT that is answered with an ETag has met its condition and left the object.
  pub put-ok :
      (s : Inner) (etag : Name)
      → (put etag_for key body cond s).0 ≡ ok etag
      → (cond_on key cond (Map.get s.objects key) ≡ ok tt)
        × (Map.get (put etag_for key body cond s).1.objects key
            ≡ some (written etag_for body s.clock))
  unfolding put put_object take_failure check_cond ◌>>=◌
  put-ok s etag h = failing s.fail_next h
    where
      failing :
          (fail : List S3Error)
          → (put etag_for key body cond (record s { fail_next = fail })).0 ≡ ok etag
          → (cond_on key cond (Map.get s.objects key) ≡ ok tt)
            × (Map.get (put etag_for key body cond (record s { fail_next = fail })).1.objects key
                ≡ some (written etag_for body s.clock))
      failing (e ∷ fail) h = cc
      failing [] h = elim (Outcome-cases (cond_on key cond (Map.get s.objects key))) [
        | inl (u, e) ↦ (e, rw e (get-insert_self s.objects key (written etag_for body s.clock)))
        | inr (f, e) ↦ absurd (cc (rw e at h))
      ]

  -- One whose condition is not met leaves the objects alone.
  pub put-refused :
      (s : Inner) (e : S3Error)
      → cond_on key cond (Map.get s.objects key) ≡ err e
      → ((etag : Name) → (put etag_for key body cond s).0 ≢ ok etag)
        × ((put etag_for key body cond s).1.objects ≡ s.objects)
  unfolding put put_object take_failure check_cond ◌>>=◌
  put-refused s e h = failing s.fail_next
    where
      failing :
          (fail : List S3Error)
          → let s' = put etag_for key body cond (record s { fail_next = fail }) in
            ((etag : Name) → s'.0 ≢ ok etag) × (s'.1.objects ≡ s.objects)
      failing (f ∷ fail) = (λ etag h. cc, refl)
      failing [] = rw h (λ etag h. cc, refl)

-- Whether a condition that another version has met can be met by this one.
abbrev pub IsOld : Name → Precondition → Type 0
IsOld etag no_condition = ⊥
IsOld etag (if_match expected) = etag ≢ expected
IsOld etag if_none_match_any = Unit {0}

cond_on-IsOld :
    (key : Name) (cond : Precondition) (o : MemObject)
    → IsOld o.etag cond
    → cond_on key cond (some o) ≡ refused key
cond_on-IsOld key no_condition o old = elim old [ ]
cond_on-IsOld key (if_match expected) o old = elim (Bool-cases (name_eq o.etag expected)) [
  | inl e ↦ absurd (old ((name_eq_iff o.etag expected).0 e))
  | inr e ↦ rw e refl
]
cond_on-IsOld key if_none_match_any o old = refl

-- Two PUTs to a key under the same condition: if the first is answered with an
-- ETag, and its new version does not meet the condition (which is that of a create, or asks for another
-- ETag than that of the new body), then the second, whatever it writes, fails and leaves the objects as
-- the first left them. Pending failures may hit either.
pub put-put_once :
    (etag_for : Body → Name) (key : Name) (a b : Body) (cond : Precondition) (s : Inner)
    (etag : Name)
    → IsOld (etag_for a) cond
    → (put etag_for key a cond s).0 ≡ ok etag
    → let s' = (put etag_for key a cond s).1 in
      ((etag' : Name) → (put etag_for key b cond s').0 ≢ ok etag')
      × ((put etag_for key b cond s').1.objects ≡ s'.objects)
put-put_once etag_for key a b cond s etag old h =
    put-refused etag_for key b cond (put etag_for key a cond s).1 _ (
      ap (cond_on key cond) (put-ok etag_for key a cond s etag h).1
      ∙ cond_on-IsOld key cond (written etag_for a s.clock) old)
