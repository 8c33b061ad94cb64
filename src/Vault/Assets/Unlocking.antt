-- ===== src/Vault/Assets/Unlocking.antt =====
-- Locked profit is released evenly over the degradation period.
use native.Mathlib.Nat.{mul-le-mul_left, lt_of_le_of_lt, zero-mul, zero-div}
use cross_fluf.Base.{
  ℕ, ◌+◌, ◌-◌, ◌*◌, ◌/◌, ◌≤◌, ◌<◌, ◌≡◌, ok, arith, ltb, inl, inr, Result-cases, ◌==◌, if◌then◌else◌,
}
use cross_fluf.Base.Int.{ℤ, ◌≤ℤ◌}
use cross_fluf.Base.Words.{u64_mod, elapsed_i64, as_u64}
use cross_fluf.Base.Time.{elapsed_mono}
use cross_fluf.Base.Division.{mul-div-le_left, product_fits, div_mono}
use cross_fluf.Vault.State.{Vault, VaultError}
use cross_fluf.Vault.Assets.{effective_total_assets, remaining_locked}

-- The locked part as the documentation gives it: all of the profit at first, nothing once the
-- period is over, and in proportion to the time that is left in between.
abbrev pub locked_part : Vault → ℕ → ℕ
locked_part v elapsed =
    if ltb elapsed v.locked_profit_degradation
    then v.locked_profit * (v.locked_profit_degradation - elapsed) / v.locked_profit_degradation
    else 0

pub effective-le-total :
    (v : Vault) (now : ℤ) (e : ℕ) → effective_total_assets v now ≡ ok e → e ≤ v.total_assets
unfolding effective_total_assets
effective-le-total v now e h = ground arith

-- More assets, with the same profit locked, raise the effective assets by at most as much.
pub effective_raised :
    (v : Vault) (now : ℤ) (a idle supply fees e e' : ℕ)
    → effective_total_assets v now ≡ ok e
    → effective_total_assets
        (record v {
          total_assets = v.total_assets + a;
          idle_assets = idle;
          lp_supply = supply;
          accumulated_fees = fees;
        })
        now
      ≡ ok e'
    → e' ≤ e + a
unfolding effective_total_assets
effective_raised v now a idle supply fees e e' h k = ground arith

locked_none : (v : Vault) (elapsed : ℕ) → v.locked_profit ≡ 0 → locked_part v elapsed ≡ 0
locked_none v elapsed e = rw (e, zero-mul) (ground (arith, zero-div v.locked_profit_degradation))

-- The longer the time, the less is locked.
locked_part_mono : (v : Vault) (d d' : ℕ) → d ≤ d' → locked_part v d' ≤ locked_part v d
locked_part_mono v d d' h =
    let p = v.locked_profit_degradation in
    let less : p - d' ≤ p - d = omega arith in
    ground (arith, div_mono _ _ p (mul-le-mul_left v.locked_profit less))

module _ (v : Vault) (profit_fits : v.locked_profit < u64_mod)
    (period_fits : v.locked_profit_degradation < u64_mod) where
  -- While the period runs, the remaining part is the proportion that is left of it.
  remaining_locked-proportion :
      (elapsed : ℕ)
      → elapsed < v.locked_profit_degradation
      → remaining_locked v elapsed ≡ ok (locked_part v elapsed)
  unfolding remaining_locked as_u64
  remaining_locked-proportion elapsed h =
      let left : v.locked_profit_degradation - elapsed ≤ v.locked_profit_degradation =
        omega arith in
      let fits =
        product_fits v.locked_profit (v.locked_profit_degradation - elapsed) profit_fits
          (lt_of_le_of_lt left period_fits) in
      let part =
        mul-div-le_left v.locked_profit (v.locked_profit_degradation - elapsed)
          v.locked_profit_degradation left in
      ground (arith, fits, lt_of_le_of_lt part profit_fits)

  -- From the time when profit was locked on, the effective assets are the total less the part that
  -- is still locked, which falls evenly from all of the profit to nothing over the period.
  pub effective_released :
      (now : ℤ) (elapsed : ℕ)
      → elapsed_i64 {E = VaultError} now v.locked_profit_ts ≡ ok elapsed
      → effective_total_assets v now
        ≡ ok (
            v.total_assets
            - (if v.locked_profit_degradation == 0 then 0 else locked_part v elapsed))
  unfolding effective_total_assets
  effective_released now elapsed e =
      ground (arith, remaining_locked-proportion elapsed, locked_none v elapsed)

  -- The effective assets only grow while time passes, from the time when profit was locked on.
  pub effective_mono :
      (a b : ℤ) (e f : ℕ)
      → v.locked_profit_ts ≤ℤ a
      → a ≤ℤ b
      → effective_total_assets v a ≡ ok e
      → effective_total_assets v b ≡ ok f
      → e ≤ f
  effective_mono a b e f p q h k =
      elim (Result-cases (elapsed_i64 {E = VaultError} a v.locked_profit_ts)) [
        | inl (d, ed) ↦ elim (Result-cases (elapsed_i64 {E = VaultError} b v.locked_profit_ts)) [
          | inl (d', ed') ↦
              let longer = elapsed_mono a b v.locked_profit_ts d d' p q ed ed' in
              ground (
                arith,
                effective_released a d ed,
                effective_released b d' ed',
                locked_part_mono v d d' longer,
              )
          | inr (x, ex) ↦ unfold effective_total_assets in ground arith
        ]
        | inr (x, ex) ↦ unfold effective_total_assets in ground arith
      ]
