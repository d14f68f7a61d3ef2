-- ===== src/Sync/Clock.antt =====
-- What the sync layer takes from the system: the wall clock in milliseconds, the monotonic clock (an
-- instant is its reading in milliseconds), sleeping, and a seeded hash of a number.
use monaka_fs.Prelude.{ℕ}

pub record Clock (W : Type 0) : Type 0 where
  pub now_ms : W → ℕ × W
  pub now : W → ℕ × W
  pub sleep : ℕ → W → W
  pub random : ℕ → W → ℕ × W
