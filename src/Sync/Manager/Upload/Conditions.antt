-- ===== src/Sync/Manager/Upload/Conditions.antt =====
-- Uploads under a precondition, over the store in memory.
use monaka_fs.Prelude.{
  ◌≡◌, refl, ap, inl, inr, Bool, true, false, [], ◌∷◌, Option, none, some, Bool-cases, Option-cases,
}
use monaka_fs.Key.{Name, name_key, name_eq}
use monaka_fs.Map
use monaka_fs.Map.{get-insert_self}
use monaka_fs.Sync.Types.{
  Precondition, no_condition, if_match, if_none_match_any, S3Error, precondition_failed, no_object,
  is_precondition_failed, is_not_found,
}
use monaka_fs.Sync.Exec.{Outcome, ok, err, ◌>>=◌}
use monaka_fs.Sync.Store.{Body, put_file, head_file}
use monaka_fs.Sync.Store.Keys.{file_key}
use monaka_fs.Sync.Store.Memory.{
  MemObject, Inner, take_failure, check_cond, put_object, put, head, memory_store, body_of, body_at,
}
use monaka_fs.Sync.Manager.Upload.{landed, verify_upload_landed, put_with_cond}

-- Whether the content goes in, over what is `current`: a file that is gone is created again.
abbrev pub accepts : Precondition → Option MemObject → Bool
accepts no_condition current = true
accepts (if_match base) none = true
accepts (if_match base) (some o) = name_eq o.etag base
accepts if_none_match_any none = true
accepts if_none_match_any (some o) = false

-- The outcome of an upload that goes in, or is refused.
abbrev pub Accepted :
    (Body → Name) → Name → Body → Outcome S3Error Name × Inner → Bool → Inner → Type 0
Accepted etag_for p content r true s =
    (r.0 ≡ ok (etag_for content)) × (body_at r.1 (file_key p) ≡ some content)
Accepted etag_for p content r false s =
    ((e : S3Error) × (r.0 ≡ err e) × (is_precondition_failed e ≡ true)) × (r.1.objects ≡ s.objects)

module _ (etag_for : Body → Name) (p : Name) (content : Body) where
  -- Over the store in memory, with no failure pending, an upload goes in where its condition accepts the
  -- current object, a missing one included for `IfMatch`: it is answered with the ETag of the content,
  -- which is then in the store. Else it fails with a lost condition and leaves the objects alone.
  pub upload-Accepted :
      (cond : Precondition) (s : Inner)
      → s.fail_next ≡ []
      → Accepted etag_for p content
          (put_with_cond ⦃store = memory_store etag_for⦄ p content cond s)
          (accepts cond (Map.get s.objects (file_key p)))
          s
  unfolding put_with_cond put_file put put_object take_failure check_cond head head_file
      verify_upload_landed ◌>>=◌
  upload-Accepted no_condition s clear =
      rw clear (refl, ap body_of (get-insert_self s.objects (file_key p) _))
  upload-Accepted (if_match base) s clear = elim (Option-cases (Map.get s.objects (file_key p))) [
    | inl e ↦ rw (clear, e, e) (refl, ap body_of (get-insert_self s.objects (file_key p) _))
    | inr (o, e) ↦ elim (Bool-cases (name_eq o.etag base)) [
      | inl same ↦ rw (clear, e, same) (refl, ap body_of (get-insert_self s.objects (file_key p) _))
      | inr other ↦ rw (clear, e, other) ((_, refl, refl), refl)
    ]
  ]
  upload-Accepted if_none_match_any s clear = elim (Option-cases (Map.get s.objects (file_key p))) [
    | inl e ↦ rw (clear, e) (refl, ap body_of (get-insert_self s.objects (file_key p) _))
    | inr (o, e) ↦ rw (clear, e, e) ((_, refl, refl), refl)
  ]

  -- If the PUT fails with an error that is neither a lost condition nor a missing object, and nothing
  -- else fails, a conditional upload over an object of another version (for `IfMatch`: any but the base)
  -- is answered with the ETag of that object, as if it had gone in, and the object stays as it is.
  pub upload-false_success :
      (cond : Precondition) (s : Inner) (f : S3Error) (o : MemObject)
      → s.fail_next ≡ f ∷ []
      → is_precondition_failed f ≡ false
      → is_not_found f ≡ false
      → Map.get s.objects (file_key p) ≡ some o
      → landed cond o.etag ≡ true
      → let r = put_with_cond ⦃store = memory_store etag_for⦄ p content cond s in
        (r.0 ≡ ok o.etag) × (r.1.objects ≡ s.objects)
  unfolding put_with_cond put_file put put_object take_failure check_cond head head_file
      verify_upload_landed ◌>>=◌
  upload-false_success cond s (precondition_failed k n c) o failing held found here other = cc
  upload-false_success cond s (no_object k) o failing held found here other = cc
  upload-false_success no_condition s f o failing held found here other = cc
  upload-false_success (if_match base) s f o failing held found here other =
      rw (failing, here, other) (refl, refl)
  upload-false_success if_none_match_any s f o failing held found here other =
      rw (failing, here) (refl, refl)
