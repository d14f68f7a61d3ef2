-- ===== src/Time.antt =====
-- crates/core/fs-core/src/time.rs: where time stamps come from. `now` takes `&self`, with a counter
-- inside that it may change, so it returns the provider that it leaves.
use monaka_fs.Prelude.{ℕ, ◌+◌, ◌%◌, ◌^◌}

pub record TimeProvider (T : Type 0) : Type 0 where
  pub now : T → ℕ × T

pub record MonotonicCounter : Type 0 where
  pub counter : ℕ

abbrev pub new : MonotonicCounter
new = record { counter = 0 }

instance abbrev pub monotonic : TimeProvider MonotonicCounter
monotonic = record { now = λ c. (c.counter, record { counter = (c.counter + 1) % 2 ^ 64 }) }
