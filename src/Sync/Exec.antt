-- ===== src/Sync/Exec.antt =====
-- Calls of the sync layer: each returns its result and the state that it leaves. An `.await` runs the
-- call that it waits for to its end; what others do in the meantime is in the state that it leaves.
use monaka_fs.Prelude.{◌≡◌, refl, ◌⊎◌, inl, inr}

pub data Outcome (E A : Type 0) : Type 0 where
  ok : A → Outcome E A
  err : E → Outcome E A

abbrev pub M : Type 0 → Type 0 → Type 0 → Type 0
M S E A = S → Outcome E A × S

module _ {S E A : Type 0} where
  unfoldable pub pure : A → M S E A
  pure a s = (ok a, s)

  unfoldable pub fail : E → M S E A
  fail e s = (err e, s)

  -- A look at the state.
  unfoldable pub gets : (S → A) → M S E A
  gets f s = (ok (f s), s)

  -- A call that does not fail.
  unfoldable pub total : (S → A × S) → M S E A
  total f s = let (a, s') = f s in (ok a, s')

  -- The outcome of a call as a value, for a `match` on it.
  unfoldable pub try : {F : Type 0} → M S E A → M S F (Outcome E A)
  try m s = let (r, s') = m s in (ok r, s')

unfoldable pub modify : {S E : Type 0} → (S → S) → M S E (Unit {0})
modify f s = (ok tt, f s)

abbrev pub continue : {S E A B : Type 0} → Outcome E A → (A → M S E B) → M S E B
continue (ok a) f s = f a s
continue (err e) f s = (err e, s)

-- `map_err`, with `?` behind it.
abbrev pub map_err : {E F A : Type 0} → (E → F) → Outcome E A → Outcome F A
map_err f (ok a) = ok a
map_err f (err e) = err (f e)

unfoldable pub with_err : {S E F A : Type 0} → (E → F) → M S E A → M S F A
with_err f m s = let (r, s') = m s in (map_err f r, s')

infixl 5 ◌>>=◌ ◌>>◌
-- Opening this opens the other ways to build a call too.
unfoldable pub ◌>>=◌ : {S E A B : Type 0} → M S E A → (A → M S E B) → M S E B
unfolding pure fail gets total try modify with_err
◌>>=◌ m f s = let (r, s') = m s in continue r f s'

abbrev pub ◌>>◌ : {S E B : Type 0} → M S E (Unit {0}) → M S E B → M S E B
m >> k = m >>= λ _. k

pub Outcome-cases :
    {E A : Type 0} (r : Outcome E A) → ((a : A) × (r ≡ ok a)) ⊎ ((e : E) × (r ≡ err e))
Outcome-cases (ok a) = inl (a, refl)
Outcome-cases (err e) = inr (e, refl)
