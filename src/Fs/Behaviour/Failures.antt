-- ===== src/Fs/Behaviour/Failures.antt =====
-- Calls that leave everything as it was when they fail, and the rules by which they are put together.
pub mod Calls
pub mod Rename
pub mod All
use monaka_fs.Prelude.{ℕ, ◌≡◌, refl, sym, ◌∙◌, ap, Bool, true, false, arith, if◌then◌else◌}
use monaka_fs.Error.{Result, ok, err, FsError}
use monaka_fs.Fs.{Fs}
use monaka_fs.Fs.Exec.{M, ◌>>=◌, ◌>>◌, pure, fail, query, modify, continue}

-- If the call fails in the state `s`, it leaves `s`.
pub record IsClean {T A : Type 0} (m : M T A) (s : Fs T) : Type 0 where
  pub clean : (e : FsError) → (m s).0 ≡ err e → (m s).1 ≡ s

-- The call does not fail.
pub record IsTotal {T A : Type 0} (m : M T A) : Type 0 where
  pub total : (s : Fs T) (e : FsError) → ¬ ((m s).0 ≡ err e)

-- The call leaves the state `s` whether it fails or not.
pub record IsStill {T A : Type 0} (m : M T A) (s : Fs T) : Type 0 where
  pub still : (m s).1 ≡ s

module _ {T A : Type 0} where
  pub IsTotal-pure : (a : A) → IsTotal {T = T} (pure a)
  unfolding pure
  IsTotal-pure a = record { total = λ s e h. cc }

  pub IsClean-fail : (x : FsError) (s : Fs T) → IsClean {T = T} {A = A} (fail x) s
  unfolding fail
  IsClean-fail x s = record { clean = λ e h. refl }

  pub IsClean-total : (m : M T A) (s : Fs T) → IsTotal m → IsClean m s
  IsClean-total m s t = record { clean = λ e h. absurd (t.total s e h) }

  pub IsStill-query : (q : Fs T → Result A) (s : Fs T) → IsStill (query q) s
  unfolding query
  IsStill-query q s = record { still = refl }

  pub IsStill-pure : (a : A) (s : Fs T) → IsStill {T = T} (pure a) s
  unfolding pure
  IsStill-pure a s = record { still = refl }

  pub IsStill-fail : (x : FsError) (s : Fs T) → IsStill {T = T} {A = A} (fail x) s
  unfolding fail
  IsStill-fail x s = record { still = refl }

  pub IsStill-if :
      (t : Bool) (m n : M T A) (s : Fs T)
      → IsStill m s
      → IsStill n s
      → IsStill (if t then m else n) s
  IsStill-if true m n s p q = p
  IsStill-if false m n s p q = q

  pub IsClean-if :
      (t : Bool) (m n : M T A) (s : Fs T)
      → IsClean m s
      → IsClean n s
      → IsClean (if t then m else n) s
  IsClean-if true m n s p q = p
  IsClean-if false m n s p q = q

pub IsTotal-modify : {T : Type 0} (f : Fs T → Fs T) → IsTotal (modify f)
unfolding modify
IsTotal-modify f = record { total = λ s e h. cc }

module _ {T A B : Type 0} where
  continue-total :
      (r : Result A) (f : A → M T B) (s : Fs T)
      → ((e : FsError) → ¬ (r ≡ err e))
      → ((a : A) → IsTotal (f a))
      → (e : FsError) → ¬ ((continue r f s).0 ≡ err e)
  continue-total (ok a) f s t k e h = (k a).total s e h
  continue-total (err x) f s t k e h = t x refl

  pub IsTotal-bind :
      (m : M T A) (f : A → M T B) → IsTotal m → ((a : A) → IsTotal (f a)) → IsTotal (m >>= f)
  unfolding ◌>>=◌
  IsTotal-bind m f t k = record {
    total = λ s e h. continue-total (m s).0 f (m s).1 (t.total s) k e h;
  }

  continue-clean :
      (r : Result A) (s' : Fs T) (f : A → M T B) (s : Fs T)
      → s' ≡ s
      → ((a : A) → r ≡ ok a → IsClean (f a) s)
      → (e : FsError) → (continue r f s').0 ≡ err e
      → (continue r f s').1 ≡ s
  continue-clean (ok a) s' f s p k e h =
      ap (λ t. (f a t).1) p ∙ (k a refl).clean e (ap (λ t. (f a t).0) (sym p) ∙ h)
  continue-clean (err x) s' f s p k e h = p

  -- What follows a step that leaves the state may use what the step returned.
  pub IsClean-bind :
      (m : M T A) (f : A → M T B) (s : Fs T)
      → IsStill m s
      → ((a : A) → (m s).0 ≡ ok a → IsClean (f a) s)
      → IsClean (m >>= f) s
  unfolding ◌>>=◌
  IsClean-bind m f s p k = record { clean = continue-clean (m s).0 (m s).1 f s p.still k }

  -- What follows a lookup.
  pub IsClean-query :
      (q : Fs T → Result A) (f : A → M T B) (s : Fs T)
      → ((a : A) → q s ≡ ok a → IsClean (f a) s)
      → IsClean (query q >>= f) s
  unfolding query
  IsClean-query q f s k = IsClean-bind (query q) f s (IsStill-query q s) k

  continue-then :
      (r : Result A) (s' : Fs T) (f : A → M T B) (s : Fs T)
      → ((e : FsError) → r ≡ err e → s' ≡ s)
      → ((a : A) → IsTotal (f a))
      → (e : FsError) → (continue r f s').0 ≡ err e
      → (continue r f s').1 ≡ s
  continue-then (ok a) s' f s p t e h = absurd ((t a).total s' e h)
  continue-then (err x) s' f s p t e h = p x refl

  -- What follows a clean call does not fail.
  pub IsClean-then :
      (m : M T A) (f : A → M T B) (s : Fs T)
      → IsClean m s
      → ((a : A) → IsTotal (f a))
      → IsClean (m >>= f) s
  unfolding ◌>>=◌
  IsClean-then m f s p t = record { clean = continue-then (m s).0 (m s).1 f s p.clean t }
