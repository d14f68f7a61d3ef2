-- ===== src/Fs/Exec.antt =====
-- Calls that change the file system: each returns its result and the state that it leaves, on an
-- error as well, since what was written before the error stays written.
use monaka_fs.Prelude.{◌≡◌, ap}
use monaka_fs.Error.{Result, ok, err, FsError}
use monaka_fs.Fs.{Fs}

abbrev pub M : Type 0 → Type 0 → Type 0
M T A = Fs T → Result A × Fs T

module _ {T A : Type 0} where
  unfoldable pub pure : A → M T A
  pure a s = (ok a, s)

  unfoldable pub fail : FsError → M T A
  fail e s = (err e, s)

  -- A call that reads the state and may fail.
  unfoldable pub query : (Fs T → Result A) → M T A
  query f s = (f s, s)

unfoldable pub modify : {T : Type 0} → (Fs T → Fs T) → M T (Unit {0})
modify f s = (ok tt, f s)

abbrev pub continue : {T A B : Type 0} → Result A → (A → M T B) → M T B
continue (ok a) f s = f a s
continue (err e) f s = (err e, s)

infixl 5 ◌>>=◌ ◌>>◌
-- Opening this opens the other ways to build a call too.
unfoldable pub ◌>>=◌ : {T A B : Type 0} → M T A → (A → M T B) → M T B
unfolding pure fail query modify
◌>>=◌ m f s = let (r, s') = m s in continue r f s'

abbrev pub ◌>>◌ : {T B : Type 0} → M T (Unit {0}) → M T B → M T B
m >> k = m >>= λ _. k

module _ {T A B : Type 0} where
  -- What follows a call that succeeded.
  pub >>=-ok :
      (m : M T A) (f : A → M T B) (s s' : Fs T) (a : A) → m s ≡ (ok a, s') → (m >>= f) s ≡ f a s'
  unfolding ◌>>=◌
  >>=-ok m f s s' a h = ap (λ w. continue w.0 f w.1) h

  -- What follows a lookup that succeeded.
  pub query-ok :
      (q : Fs T → Result A) (f : A → M T B) (s : Fs T) (a : A)
      → q s ≡ ok a
      → (query q >>= f) s ≡ f a s
  unfolding ◌>>=◌
  query-ok q f s a h = ap (λ r. continue r f s) h
