-- ===== src/Fs/Invariant/Rules.antt =====
-- What a call leaves, and one rule for each way in which the calls are put together.
use monaka_fs.Prelude.{ℕ, ◌≤◌, ◌≡◌, refl, Bool, true, false, arith, if◌then◌else◌}
use mathlib.Core.Path.{subst}
use monaka_fs.Error.{Result, ok, err, FsError}
use monaka_fs.Fs.{Fs, InodeRef, inode_get, ok_or}
use monaka_fs.Fs.Exec.{M, ◌>>=◌, ◌>>◌, pure, fail, query, modify, continue}
use monaka_fs.Fs.Invariant.{IsWellFormed, IsRef}

-- The state is well formed whether the call succeeds or not, at most `b` is the next inode id, and
-- a result has the property `Q` in the state that the call leaves.
pub record Post {T A : Type 0} (b : ℕ) (Q : A → Fs T → Type 0) (out : Result A × Fs T)
    : Type 0 where
  pub wf : IsWellFormed out.1
  pub spent : out.1.next_inode ≤ b
  pub result : (a : A) → out.0 ≡ ok a → Q a out.1

-- Of a result nothing is said.
abbrev pub Any : {T A : Type 0} → A → Fs T → Type 0
Any a s = Unit

ok-injective : {A : Type 0} {x y : A} → ok x ≡ ok y → x ≡ y
ok-injective e = cc

module _ {T A : Type 0} where
  pub Post-pure :
      (b : ℕ) (Q : A → Fs T → Type 0) (a : A) (s : Fs T)
      → IsWellFormed s
      → s.next_inode ≤ b
      → Q a s
      → Post b Q (ok a, s)
  Post-pure b Q a s w le q = record {
    wf = w;
    spent = le;
    result = λ a' e. subst (λ x. Q x s) (ok-injective e) q;
  }

  pub Post-fail :
      (b : ℕ) (Q : A → Fs T → Type 0) (e : FsError) (s : Fs T)
      → IsWellFormed s
      → s.next_inode ≤ b
      → Post b Q (err e, s)
  Post-fail b Q e s w le = record { wf = w; spent = le; result = λ a h. cc }

  pub Post-weaken :
      {b : ℕ} (c : ℕ) {Q : A → Fs T → Type 0} {out : Result A × Fs T}
      → b ≤ c
      → Post b Q out
      → Post c Q out
  Post-weaken c le p = record { wf = p.wf; spent = omega (arith, p.spent); result = p.result }

-- The call `m` leaves that when it is made in the state `s`.
pub record Ensures {T A : Type 0} (b : ℕ) (Q : A → Fs T → Type 0) (m : M T A) (s : Fs T)
    : Type 0 where
  pub post : Post b Q (m s)

module _ {T A : Type 0} where
  pub Ensures-pure :
      {b : ℕ} {Q : A → Fs T → Type 0} (a : A) {s : Fs T}
      → IsWellFormed s
      → s.next_inode ≤ b
      → Q a s
      → Ensures b Q (pure a) s
  unfolding pure
  Ensures-pure {b} {Q} a {s} w le q = record { post = Post-pure b Q a s w le q }

  pub Ensures-fail :
      {b : ℕ} {Q : A → Fs T → Type 0} (e : FsError) {s : Fs T}
      → IsWellFormed s
      → s.next_inode ≤ b
      → Ensures b Q (fail e) s
  unfolding fail
  Ensures-fail {b} {Q} e {s} w le = record { post = Post-fail b Q e s w le }

  pub Ensures-weaken :
      {b : ℕ} (c : ℕ) {Q : A → Fs T → Type 0} {m : M T A} {s : Fs T}
      → b ≤ c
      → Ensures b Q m s
      → Ensures c Q m s
  Ensures-weaken c le p = record { post = Post-weaken c le p.post }

  pub Ensures-forget :
      {b : ℕ} (Q : A → Fs T → Type 0) {m : M T A} {s : Fs T} → Ensures b Q m s → Ensures b Any m s
  Ensures-forget Q p = record {
    post = record { wf = p.post.wf; spent = p.post.spent; result = λ a e. tt };
  }

  pub Ensures-if :
      {b : ℕ} {Q : A → Fs T → Type 0} (t : Bool) {m n : M T A} {s : Fs T}
      → (t ≡ true → Ensures b Q m s)
      → (t ≡ false → Ensures b Q n s)
      → Ensures b Q (if t then m else n) s
  Ensures-if true h k = h refl
  Ensures-if false h k = k refl

module _ {T A B : Type 0} where
  Post-continue :
      (b c : ℕ) (Q : A → Fs T → Type 0) (R : B → Fs T → Type 0) (r : Result A) (s : Fs T)
      (f : A → M T B)
      → b ≤ c
      → Post b Q (r, s)
      → ((a : A) (s' : Fs T) → IsWellFormed s' → s'.next_inode ≤ b → Q a s' → Ensures c R (f a) s')
      → Post c R (continue r f s)
  Post-continue b c Q R (ok a) s f le p k = (k a s p.wf p.spent (p.result a refl)).post
  Post-continue b c Q R (err e) s f le p k = Post-fail c R e s p.wf (omega (arith, p.spent))

  -- What follows a call may use what the call ensures.
  pub Ensures-bind :
      {b c : ℕ} {Q : A → Fs T → Type 0} {R : B → Fs T → Type 0} (m : M T A) (f : A → M T B)
      {s : Fs T}
      → b ≤ c
      → Ensures b Q m s
      → ((a : A) (s' : Fs T) → IsWellFormed s' → s'.next_inode ≤ b → Q a s' → Ensures c R (f a) s')
      → Ensures c R (m >>= f) s
  unfolding ◌>>=◌
  Ensures-bind {b} {c} {Q} {R} m f {s} le p k = record {
    post = Post-continue b c Q R (m s).0 (m s).1 f le p.post k;
  }

  Post-lift :
      (c : ℕ) (R : B → Fs T → Type 0) (r : Result A) (f : A → M T B) (s : Fs T)
      → IsWellFormed s
      → s.next_inode ≤ c
      → ((a : A) → r ≡ ok a → Ensures c R (f a) s)
      → Post c R (continue r f s)
  Post-lift c R (ok a) f s w le k = (k a refl).post
  Post-lift c R (err e) f s w le k = Post-fail c R e s w le

  -- What follows a lookup runs in the state that was read.
  pub Ensures-query :
      {c : ℕ} {R : B → Fs T → Type 0} (q : Fs T → Result A) (f : A → M T B) {s : Fs T}
      → IsWellFormed s
      → s.next_inode ≤ c
      → ((a : A) → q s ≡ ok a → Ensures c R (f a) s)
      → Ensures c R (query q >>= f) s
  unfolding ◌>>=◌
  Ensures-query {c} {R} q f {s} w le k = record { post = Post-lift c R (q s) f s w le k }

module _ {T B : Type 0} where
  -- What follows a change of the state that cannot fail.
  pub Ensures-modify :
      {c : ℕ} {R : B → Fs T → Type 0} (g : Fs T → Fs T) (k : M T B) {s : Fs T}
      → Ensures c R k (g s)
      → Ensures c R (modify g >> k) s
  unfolding ◌>>=◌
  Ensures-modify g k p = record { post = p.post }

-- A reference that `inode_get` returns is up to date.
pub IsRef-inode_get :
    {T : Type 0} (s : Fs T) (id : ℕ) (e : FsError) (r : InodeRef)
    → ok_or (inode_get s id) e ≡ ok r
    → IsRef s r
unfolding inode_get
IsRef-inode_get s id e r h = ground arith
