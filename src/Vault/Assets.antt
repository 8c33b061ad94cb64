-- ===== src/Vault/Assets.antt =====
-- `effective_total_assets`: the assets less the profit that is still locked.
pub mod Unlocking
use cross_fluf.Base.{ℕ, ◌-◌, ◌≡◌, Bool, ◌||◌, ◌==◌, leb, if◌then◌else◌, Result, ok, ◌>>=◌}
use cross_fluf.Base.Int.{ℤ}
use cross_fluf.Base.Words.{u128_mod, as_u64, mul_word, div_word, elapsed_i64, saturating_sub}
use cross_fluf.Vault.State.{Vault, VaultError}

-- The part of the locked profit that is still locked, some time after it was locked.
unfoldable pub remaining_locked : Vault → ℕ → Result VaultError ℕ
unfolding mul_word div_word
remaining_locked v elapsed = do
  product ← mul_word u128_mod v.locked_profit (v.locked_profit_degradation - elapsed)
  quotient ← div_word product v.locked_profit_degradation
  ok (as_u64 quotient)

unfoldable pub effective_total_assets : Vault → ℤ → Result VaultError ℕ
unfolding elapsed_i64 remaining_locked
effective_total_assets v now =
    if v.locked_profit == 0 || v.locked_profit_degradation == 0 then ok v.total_assets else (do
      elapsed ← elapsed_i64 now v.locked_profit_ts
      if leb v.locked_profit_degradation elapsed then ok v.total_assets else (do
        remaining ← remaining_locked v elapsed
        ok (saturating_sub v.total_assets remaining)))
