-- ===== src/Vault/Shares/Quotes.antt =====
-- The quotes for a deposit and a withdrawal: rounding is in favour of the vault.
use native.Mathlib.Nat.{div-mul-le_self, mul-le-mul_right, le_trans}
use cross_fluf.Base.{ℕ, ◌+◌, ◌-◌, ◌*◌, ◌/◌, ◌≤◌, ◌<◌, ◌≡◌, true, ok, arith, inl, inr, Result-cases}
use cross_fluf.Base.Int.{ℤ}
use cross_fluf.Base.Words.{as_u64-le}
use cross_fluf.Vault.State.{Vault}
use cross_fluf.Vault.Assets.{effective_total_assets}
use cross_fluf.Vault.Shares.{mul_div, fee_of, lp_for, assets_for, price_deposit, price_withdrawal}

pub mul_div-mul-le : (a b c q : ℕ) → mul_div a b c ≡ ok q → (q * c ≤ a * b) × (0 < c)
unfolding mul_div
mul_div-mul-le a b c q h =
    let down = le_trans (mul-le-mul_right c (as_u64-le (a * b / c))) (div-mul-le_self (a * b) c) in
    ground (arith, down)

-- A quote that was given for a deposit.
pub record QuotedDeposit (v : Vault) (now : ℤ) (amount lp fee : ℕ) : Type 0 where
  pub active : v.is_active ≡ true
  pub some_amount : 0 < amount
  pub capped : v.total_assets + amount ≤ v.max_cap
  pub gross : lp_for v now amount ≡ ok (lp + fee)
  pub charged : fee_of (lp + fee) v.deposit_fee_bps ≡ ok fee
  pub some_lp : 0 < lp + fee

pub price_deposit-Quoted :
    (v : Vault) (now : ℤ) (amount lp fee : ℕ)
    → price_deposit v now amount ≡ ok (lp, fee)
    → QuotedDeposit v now amount lp fee
unfolding price_deposit
price_deposit-Quoted v now amount lp fee h = elim (Result-cases (lp_for v now amount)) [
  | inr (x, e) ↦ absurd (ground arith)
  | inl (m, e) ↦ elim (Result-cases (fee_of m v.deposit_fee_bps)) [
    | inr (x, f) ↦ absurd (ground arith)
    | inl (g, f) ↦
        let split : m ≡ lp + fee = ground arith in
        let same : g ≡ fee = ground arith in
        record {
          active = ground arith;
          some_amount = ground arith;
          capped = ground arith;
          gross = rw (← split) e;
          charged = rw (← split, ← same) f;
          some_lp = ground arith;
        }
  ]
]

-- A quote that was given for a withdrawal.
pub record QuotedWithdrawal (v : Vault) (now : ℤ) (lp gross net : ℕ) : Type 0 where
  pub instant : v.withdrawal_wait_period ≡ 0
  pub some_lp : 0 < lp
  pub value : assets_for v now lp ≡ ok gross
  pub net_le : net ≤ gross
  pub charged : fee_of gross v.withdrawal_fee_bps ≡ ok (gross - net)
  pub at_hand : net ≤ v.idle_assets

pub price_withdrawal-Quoted :
    (v : Vault) (now : ℤ) (lp gross net : ℕ)
    → price_withdrawal v now lp ≡ ok (gross, net)
    → QuotedWithdrawal v now lp gross net
unfolding price_withdrawal
price_withdrawal-Quoted v now lp gross net h = elim (Result-cases (assets_for v now lp)) [
  | inr (x, e) ↦ absurd (ground arith)
  | inl (m, e) ↦ elim (Result-cases (fee_of m v.withdrawal_fee_bps)) [
    | inr (x, f) ↦ absurd (ground arith)
    | inl (g, f) ↦
        let same : m ≡ gross = ground arith in
        let rest : g ≡ gross - net = ground arith in
        record {
          instant = ground arith;
          some_lp = ground arith;
          value = rw (← same) e;
          net_le = ground arith;
          charged = cc;
          at_hand = ground arith;
        }
  ]
]

-- LP tokens are quoted at no more than the effective assets are worth.
pub lp_for-mul-le :
    (v : Vault) (now : ℤ) (amount m e : ℕ)
    → effective_total_assets v now ≡ ok e
    → 0 < v.lp_supply
    → lp_for v now amount ≡ ok m
    → (m * e ≤ amount * v.lp_supply) × (0 < e)
unfolding lp_for
lp_for-mul-le v now amount m e he pos h = ground (arith, mul_div-mul-le amount v.lp_supply e m)

pub assets_for-mul-le :
    (v : Vault) (now : ℤ) (lp x e : ℕ)
    → effective_total_assets v now ≡ ok e
    → assets_for v now lp ≡ ok x
    → (x * v.lp_supply ≤ lp * e) × (0 < v.lp_supply)
unfolding assets_for
assets_for-mul-le v now lp x e he h = ground (arith, mul_div-mul-le lp e v.lp_supply x)
