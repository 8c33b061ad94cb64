-- ===== src/Base/Time.antt =====
-- Elapsed time: `(now - then) as u64` when the clock has not run backwards.
use cross_fluf.Base.{ℕ, ◌≤◌, ◌≡◌, ok, arith}
use cross_fluf.Base.Int.{ℤ, ◌≤ℤ◌}
use cross_fluf.Base.Words.{elapsed_i64}

module _ {E : Type 0} where
  -- The later the time, the longer since an earlier one.
  pub elapsed_mono :
      (a b since : ℤ) (d d' : ℕ)
      → since ≤ℤ a
      → a ≤ℤ b
      → elapsed_i64 {E = E} a since ≡ ok d
      → elapsed_i64 {E = E} b since ≡ ok d'
      → d ≤ d'
  unfolding elapsed_i64
  elapsed_mono a b since d d' p q h k = ground arith

  pub elapsed_none : (a : ℤ) → elapsed_i64 {E = E} a a ≡ ok 0
  unfolding elapsed_i64
  elapsed_none a = ground arith
