-- ===== src/Base/Division.antt =====
-- Rounding down: the facts about `a * b / c` that share prices rest on. A price is a ratio of two
-- numbers, and prices are compared with the products taken crosswise. `P` stands for the assets of
-- a pool, `S` for its shares, `a` for an amount paid in and `x` for one paid out, `m` for shares
-- issued and `f` for shares redeemed.
use native.Mathlib.Nat.{
  mul-le-mul_left, mul-le-mul_right, le_of_mul-le-mul_right, div-le_of_le-mul, le_trans, mul_comm,
  div-zero, le-div_iff_mul-le, div-mul-le_self, mul-le-mul, lt_of_le_of_lt, le-pred_of_lt,
}
use cross_fluf.Base.{ℕ, zero, suc, ◌+◌, ◌-◌, ◌*◌, ◌/◌, ◌^◌, ◌≤◌, ◌<◌, ◌≡◌, arith}

pub div_mono : (a b c : ℕ) → a ≤ b → a / c ≤ b / c
div_mono a b zero h = rw (div-zero a) (omega arith)
div_mono a b (suc c) h =
    (le-div_iff_mul-le (omega arith)).1 (le_trans (div-mul-le_self a (suc c)) h)

-- The product of two `u64` fits in a `u128`.
pub product_fits : (a b : ℕ) → a < 2 ^ 64 → b < 2 ^ 64 → a * b < 2 ^ 128
product_fits a b h k = lt_of_le_of_lt (mul-le-mul (le-pred_of_lt h) (le-pred_of_lt k)) (omega arith)

-- A proportion of `b` is at most `b`.
pub mul-div-le : (a b c : ℕ) → a ≤ c → a * b / c ≤ b
mul-div-le a b c h = div-le_of_le-mul c (mul-le-mul_right b h)

pub mul-div-le_left : (a b c : ℕ) → b ≤ c → a * b / c ≤ a
mul-div-le_left a b c h = rw (mul_comm a b) (mul-div-le b a c h)

-- Shares issued for a payment at no more than the price do not lower the price.
pub issue_price : (P S a m : ℕ) → m * P ≤ a * S → P * (S + m) ≤ (P + a) * S
issue_price P S a m h = omega arith

redeem_parts : (f r x y : ℕ) → x * (f + r) ≤ f * (x + y) → (x + y) * r ≤ y * (f + r)
redeem_parts f r x y h = omega arith

-- What is paid out for shares at no more than the price is at hand.
pub redeem-le : (P S f x : ℕ) → 0 < S → x * S ≤ f * P → f ≤ S → x ≤ P
redeem-le P S f x p h k =
    le_of_mul-le-mul_right (le_trans h (omega (arith, mul-le-mul_right P k))) p

redeem_split : (P S f x r y : ℕ) → S ≡ f + r → P ≡ x + y → x * S ≤ f * P → P * r ≤ y * S
redeem_split P S f x r y e e' h = rw (e, e') (redeem_parts f r x y (rw (e, e') at h))

-- Shares redeemed at no more than the price do not lower the price.
pub redeem_price : (P S f x : ℕ) → x * S ≤ f * P → f ≤ S → P * (S - f) ≤ (P - x) * S
redeem_price P zero f x h k = let e : 0 - f ≡ 0 = omega arith in rw e (omega arith)
redeem_price P (suc s) f x h k =
    let paid : x ≤ P = redeem-le P (suc s) f x (omega arith) h k in
    redeem_split P (suc s) f x (suc s - f) (P - x) (omega arith) (omega arith) h

-- Where every share is backed by a unit, every share that is left after a redemption is.
pub redeem_backed : (P S f x : ℕ) → x * S ≤ f * P → f ≤ S → S ≤ P → S - f ≤ P - x
redeem_backed P zero f x h k b = omega arith
redeem_backed P (suc s) f x h k b =
    le_of_mul-le-mul_right {k = suc s}
      (le_trans (omega (arith, mul-le-mul_right (suc s - f) b)) (redeem_price P (suc s) f x h k))
      (omega arith)

-- Where every share is backed by a unit, no more shares are issued than units paid in.
pub issue_backed : (P S a m : ℕ) → 0 < P → m * P ≤ a * S → S ≤ P → m ≤ a
issue_backed P S a m p h k = le_of_mul-le-mul_right (le_trans h (mul-le-mul_left a k)) p

-- What was paid in comes out again as at most as much.
pub issue_redeem :
    (P S a m x : ℕ) → 0 < P → m * P ≤ a * S → x * (S + m) ≤ m * (P + a) → 0 < S + m → x ≤ a
issue_redeem P S a m x p h k q = le_of_mul-le-mul_right {k = S + m} (omega arith) q

-- A larger divisor gives no larger quotient.
pub div-anti : (a b c : ℕ) → 0 < b → b ≤ c → a / c ≤ a / b
div-anti a b c p h =
    (le-div_iff_mul-le p).1 (le_trans (mul-le-mul_left (a / c) h) (div-mul-le_self a c))
