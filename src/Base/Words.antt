-- ===== src/Base/Words.antt =====
-- Rust's `u64`, `u128` and `i64`: numbers kept in range, with the overflow behaviour of each
-- operation written out. The workspace builds with overflow-checks (Cargo.toml, profile.release),
-- where `+ - *` panic as the `checked_` operations with `unwrap` do; a crate outside that
-- workspace takes the mode as a parameter, since cargo's release default wraps.
use cross_fluf.Base.{
  ℕ, ◌+◌, ◌-◌, ◌*◌, ◌/◌, ◌%◌, ◌^◌, ◌≤◌, ◌<◌, ◌≡◌, Bool, arith, ltb, leb, ◌==◌, if◌then◌else◌,
  Result, ok, err, panic,
}
use cross_fluf.Base.Int.{ℤ, pos, negsuc, ◌-ℤ◌}

abbrev pub u64_mod : ℕ
u64_mod = 2 ^ 64

abbrev pub u128_mod : ℕ
u128_mod = 2 ^ 128

abbrev pub i64_bound : ℕ
i64_bound = 2 ^ 63

-- `x as u64` of a `u128`
unfoldable pub as_u64 : ℕ → ℕ
as_u64 x = x % u64_mod

pub as_u64-le : (x : ℕ) → as_u64 x ≤ x
unfolding as_u64
as_u64-le x = omega arith

pub as_u64-fits : (x : ℕ) → x < u64_mod → as_u64 x ≡ x
unfolding as_u64
as_u64-fits x h = omega arith

-- `x as u64` of an `i64`, in two's complement
unfoldable pub i64_as_u64 : ℤ → ℕ
i64_as_u64 (pos n) = n % u64_mod
i64_as_u64 (negsuc n) = u64_mod - 1 - n % u64_mod

abbrev pub fits_i64 : ℤ → Bool
fits_i64 (pos n) = ltb n i64_bound
fits_i64 (negsuc n) = ltb n i64_bound

-- `a - b` on `u64` where it cannot fail: `saturating_sub`
abbrev pub saturating_sub : ℕ → ℕ → ℕ
saturating_sub a b = a - b

-- `a.saturating_add(b)` on `u64`
unfoldable pub saturating_add_u64 : ℕ → ℕ → ℕ
saturating_add_u64 a b = if ltb (a + b) u64_mod then a + b else u64_mod - 1

module _ {E : Type 0} where
  -- The sum, difference, product and quotient at a width `2 ^ w = m`, or a panic.
  unfoldable pub add_word : ℕ → ℕ → ℕ → Result E ℕ
  add_word m a b = if ltb (a + b) m then ok (a + b) else err panic

  unfoldable pub sub_word : ℕ → ℕ → Result E ℕ
  sub_word a b = if leb b a then ok (a - b) else err panic

  unfoldable pub mul_word : ℕ → ℕ → ℕ → Result E ℕ
  mul_word m a b = if ltb (a * b) m then ok (a * b) else err panic

  unfoldable pub div_word : ℕ → ℕ → Result E ℕ
  div_word a b = if b == 0 then err panic else ok (a / b)

  -- `(now - then) as u64` on two `i64`
  unfoldable pub elapsed_i64 : ℤ → ℤ → Result E ℕ
  unfolding ◌-ℤ◌ i64_as_u64
  elapsed_i64 now since =
      if fits_i64 (now -ℤ since) then ok (i64_as_u64 (now -ℤ since)) else err panic

-- What the crate was built with.
pub data OverflowMode : Type 0 where
  checked wrapping : OverflowMode

module _ {E : Type 0} where
  -- `+`, `-` and `*` on `u64` in a crate built in a mode.
  unfoldable pub add_u64 : OverflowMode → ℕ → ℕ → Result E ℕ
  unfolding add_word
  add_u64 checked a b = add_word u64_mod a b
  add_u64 wrapping a b = ok ((a + b) % u64_mod)

  unfoldable pub sub_u64 : OverflowMode → ℕ → ℕ → Result E ℕ
  unfolding sub_word
  sub_u64 checked a b = sub_word a b
  sub_u64 wrapping a b = ok ((a + u64_mod - b) % u64_mod)

  unfoldable pub mul_u64 : OverflowMode → ℕ → ℕ → Result E ℕ
  unfolding mul_word
  mul_u64 checked a b = mul_word u64_mod a b
  mul_u64 wrapping a b = ok ((a * b) % u64_mod)
