-- ===== src/Fluf/Shares/Rounding.antt =====
-- The two share formulas round in favour of the pool.
use native.Mathlib.Nat.{
  div-mul-le_self, mul-le-mul_right, le_trans, mul-le-mul_left, le_of_mul-le-mul_right,
}
use cross_fluf.Base.{ℕ, zero, suc, ◌+◌, ◌*◌, ◌/◌, ◌≤◌, ◌≡◌, refl, arith}
use cross_fluf.Base.Words.{as_u64, as_u64-le}
use cross_fluf.Base.Division.{issue_backed, issue_redeem}
use cross_fluf.Fluf.Shares.{deposit_shares, withdraw_amount}

as_u64-div-mul-le : (n d : ℕ) → as_u64 (n / d) * d ≤ n
as_u64-div-mul-le n d = le_trans (mul-le-mul_right d (as_u64-le (n / d))) (div-mul-le_self n d)

pub deposit_shares-mul-le : (a P S : ℕ) → deposit_shares a P S * P ≤ a * S
unfolding deposit_shares
deposit_shares-mul-le a zero S = omega arith
deposit_shares-mul-le a (suc p) S = ground (arith, as_u64-div-mul-le (a * S) (suc p))

pub withdraw_amount-mul-le : (f P S : ℕ) → withdraw_amount f P S * S ≤ f * P
unfolding withdraw_amount
withdraw_amount-mul-le f P zero = omega arith
withdraw_amount-mul-le f P (suc s) = ground (arith, as_u64-div-mul-le (f * P) (suc s))

-- Where every share is backed, a deposit issues at most as many shares as units paid in.
pub deposit_shares-le : (a P S : ℕ) → S ≤ P → deposit_shares a P S ≤ a
unfolding deposit_shares
deposit_shares-le a zero S h = ground arith
deposit_shares-le a (suc p) S h = ground (
  arith,
  issue_backed (suc p) S a (as_u64 (a * S / suc p)) (omega arith)
      (as_u64-div-mul-le (a * S) (suc p)) h,
)

withdraw_amount_none : (f P : ℕ) → withdraw_amount f P 0 ≡ 0
unfolding withdraw_amount
withdraw_amount_none f P = ground arith

deposit_shares_first : (a S : ℕ) → deposit_shares a 0 S ≡ a
unfolding deposit_shares
deposit_shares_first a S = ground arith

-- Paying out at most as much as was paid in, from the bound on each of the two roundings.
gain_bound :
    (P S a m x T : ℕ)
    → m * P ≤ a * S
    → (P ≡ 0 → m ≡ a)
    → T ≡ S + m
    → (T ≡ 0 → x ≡ 0)
    → x * T ≤ m * (P + a)
    → x ≤ a
gain_bound P S a m x zero h first e empty k = omega (arith, empty (omega arith))
gain_bound zero S a m x (suc t) h first e empty k =
    let whole : m ≡ a = first refl in
    let enough : a ≤ suc t = omega (arith, whole) in
    let scaled : m * (0 + a) ≤ a * suc t = rw whole (omega (arith, mul-le-mul_left a enough)) in
    le_of_mul-le-mul_right {k = suc t} (le_trans k scaled) (omega arith)
gain_bound (suc p) S a m x (suc t) h first e empty k =
    issue_redeem (suc p) S a m x (omega arith) h (rw (← e) k) (omega arith)

-- Shares issued for an amount and redeemed at once pay out at most the amount.
pub deposit_withdraw-le :
    (a P S : ℕ) → withdraw_amount (deposit_shares a P S) (P + a) (S + deposit_shares a P S) ≤ a
deposit_withdraw-le a P S =
    let m = deposit_shares a P S in
    gain_bound P S a m (withdraw_amount m (P + a) (S + m)) (S + m) (deposit_shares-mul-le a P S)
      (λ e. rw e (deposit_shares_first a S)) refl (λ e. rw e (withdraw_amount_none m (P + a)))
      (withdraw_amount-mul-le m (P + a) (S + m))
