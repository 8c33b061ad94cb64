-- ===== src/Vault/Fees.antt =====
-- `harvest_fees`: the management fee, the performance fee above the high water mark, and the LP
-- tokens that the admin gets for both.
pub mod Inversion
pub mod Harvest
use cross_fluf.Base.{
  ℕ, ◌-◌, ◌/◌, ◌≡◌, Bool, ◌&&◌, ◌==◌, ltb, if◌then◌else◌, List, Result, ok, constrain, require,
  called, ◌>>=◌, ◌>>◌,
}
use cross_fluf.Base.Int.{ℤ}
use cross_fluf.Base.Words.{u64_mod, u128_mod, as_u64, add_word, mul_word, div_word, elapsed_i64}
use cross_fluf.Solana.{Pubkey, AccountInfo, Pda, cpi_new_with_signer, signer}
use cross_fluf.Token.{TokenProgram}
use cross_fluf.Vault.State.{
  Vault, VaultError, unauthorized, invalid_lp_mint, precision, bps_denominator, lp_mint_auth_seeds,
}
use cross_fluf.Vault.Assets.{effective_total_assets}
use cross_fluf.Vault.Shares.{mul_div}

-- The accounts of `HarvestFees`.
pub record HarvestFees : Type 0 where
  pub admin : AccountInfo
  pub vault : Pubkey
  pub lp_mint : Pubkey
  pub lp_mint_authority : AccountInfo
  pub admin_lp_account : Pubkey

abbrev pub seconds_per_year : ℕ
seconds_per_year = 31_536_000

unfoldable pub management_fee : Vault → ℕ → ℕ → Result VaultError ℕ
unfolding mul_word div_word
management_fee v effective_assets elapsed =
    if ltb 0 v.management_fee_bps && ltb 0 elapsed
    then (do
      product ← mul_word u128_mod effective_assets v.management_fee_bps
      annual_fee ← div_word product bps_denominator
      pro_rata ← mul_word u128_mod annual_fee elapsed
      ok (as_u64 (pro_rata / seconds_per_year)))
    else ok 0

-- The assets of an LP token, times the precision.
unfoldable pub current_ratio : Vault → ℕ → Result VaultError ℕ
unfolding mul_word div_word
current_ratio v effective_assets =
    if ltb 0 v.lp_supply
    then (do product ← mul_word u128_mod effective_assets precision; div_word product v.lp_supply)
    else ok precision

unfoldable pub performance_fee : Vault → ℕ → Result VaultError ℕ
unfolding mul_word
performance_fee v ratio =
    if ltb v.high_water_mark ratio && ltb 0 v.performance_fee_bps
    then (do
      excess ← mul_word u128_mod (ratio - v.high_water_mark) v.lp_supply
      profit ← mul_word u128_mod (excess / precision) v.performance_fee_bps
      ok (as_u64 (profit / bps_denominator)))
    else ok 0

-- The LP tokens for a fee.
unfoldable pub fee_shares : Vault → ℕ → ℕ → Result VaultError ℕ
fee_shares v effective_assets total_fee_assets =
    if ltb 0 v.lp_supply && ltb 0 effective_assets
    then mul_div total_fee_assets v.lp_supply effective_assets
    else ok total_fee_assets

-- The vault after a harvest of a fee for which LP tokens were minted.
unfoldable pub book_harvest : Vault → ℤ → ℕ → ℕ → ℕ → Result VaultError Vault
unfolding add_word
book_harvest v now ratio total_fee_assets fee_lp = do
  supply ← add_word u64_mod v.lp_supply fee_lp
  fees ← add_word u64_mod v.accumulated_fees total_fee_assets
  ok (record v {
    lp_supply = supply;
    last_fee_harvest_ts = now;
    accumulated_fees = fees;
    high_water_mark = if ltb v.high_water_mark ratio then ratio else v.high_water_mark;
  })

module _ {Ledger : Type 0} (T : TokenProgram Ledger) (pda : Pda) where
  -- The constraints of `HarvestFees`.
  abbrev pub check_harvest : HarvestFees → Vault → Ledger → Result VaultError (Unit {0})
  check_harvest c v l = do
    signer c.admin
    require (c.lp_mint == v.lp_mint) invalid_lp_mint
    constrain (c.lp_mint_authority.key == pda (lp_mint_auth_seeds c.vault))
    constrain (T.mint_of l c.admin_lp_account == c.lp_mint)
    constrain (T.owner_of l c.admin_lp_account == c.admin.key)

  -- The part of a harvest from the total fee on.
  unfoldable pub pay_fees :
      HarvestFees → ℤ → ℕ → ℕ → ℕ → Vault → Ledger → Result VaultError (Vault × Ledger)
  pay_fees c now effective_assets ratio total_fee_assets v l =
      if total_fee_assets == 0 then ok (v, l) else (do
        fee_lp ← fee_shares v effective_assets total_fee_assets
        l' ←
            (if ltb 0 fee_lp
              then called (
                  T.mint_to c.lp_mint c.admin_lp_account
                    (cpi_new_with_signer (pda (lp_mint_auth_seeds c.vault)) c.lp_mint_authority)
                    fee_lp l)
              else ok l)
        v' ← book_harvest v now ratio total_fee_assets fee_lp
        ok (v', l'))

  unfoldable pub harvest_fees :
      HarvestFees → ℤ → Vault → Ledger → Result VaultError (Vault × Ledger)
  unfolding add_word
  harvest_fees c now v l = do
    check_harvest c v l
    require (c.admin.key == v.admin) unauthorized
    elapsed ← elapsed_i64 now v.last_fee_harvest_ts
    effective_assets ← effective_total_assets v now
    management ← management_fee v effective_assets elapsed
    ratio ← current_ratio v effective_assets
    performance ← performance_fee v ratio
    total_fee_assets ← add_word u64_mod management performance
    pay_fees c now effective_assets ratio total_fee_assets v l
