-- ===== src/Vault/Shares.antt =====
-- `deposit` and `instant_withdraw`: assets against LP tokens.
pub mod Quotes
pub mod Inversion
pub mod Ledger
pub mod Price
use cross_fluf.Base.{
  ℕ, ◌≡◌, Bool, ◌==◌, leb, ltb, if◌then◌else◌, List, Result, ok, constrain, require, called, ◌>>=◌,
  ◌>>◌,
}
use cross_fluf.Base.Int.{ℤ}
use cross_fluf.Base.Words.{u64_mod, u128_mod, as_u64, add_word, sub_word, mul_word, div_word}
use cross_fluf.Solana.{Pubkey, AccountInfo, Pda, cpi_new, cpi_new_with_signer, signer}
use cross_fluf.Token.{TokenProgram}
use cross_fluf.Token.Hooked.{HookedProgram, Transfer}
use cross_fluf.Vault.State.{
  Vault, VaultError, vault_inactive, zero_amount, max_cap_exceeded, zero_lp_tokens,
  insufficient_idle, instant_withdraw_not_allowed, invalid_account, invalid_lp_mint,
  bps_denominator, lp_mint_auth_seeds, vault_asset_auth_seeds,
}
use cross_fluf.Vault.Assets.{effective_total_assets}

-- The accounts of `Deposit`.
pub record Deposit : Type 0 where
  pub user : AccountInfo
  pub vault : Pubkey
  pub user_asset_account : Pubkey
  pub vault_asset_account : Pubkey
  pub asset_mint : Pubkey
  pub lp_mint : Pubkey
  pub lp_mint_authority : AccountInfo
  pub user_lp_account : Pubkey
  pub asset_token_program : Pubkey
  pub remaining_accounts : List Pubkey

-- The accounts of `InstantWithdraw`.
pub record InstantWithdraw : Type 0 where
  pub user : AccountInfo
  pub vault : Pubkey
  pub user_asset_account : Pubkey
  pub vault_asset_account : Pubkey
  pub vault_asset_authority : AccountInfo
  pub asset_mint : Pubkey
  pub lp_mint : Pubkey
  pub user_lp_account : Pubkey
  pub asset_token_program : Pubkey
  pub remaining_accounts : List Pubkey

-- `a * b / c` through `u128`, as a `u64`
unfoldable pub mul_div : ℕ → ℕ → ℕ → Result VaultError ℕ
unfolding mul_word div_word
mul_div a b c = do
  product ← mul_word u128_mod a b
  quotient ← div_word product c
  ok (as_u64 quotient)

-- The fee on an amount at a rate in basis points.
unfoldable pub fee_of : ℕ → ℕ → Result VaultError ℕ
unfolding mul_div
fee_of amount bps = if ltb 0 bps then mul_div amount bps bps_denominator else ok 0

-- The LP tokens for a deposit, before the fee.
unfoldable pub lp_for : Vault → ℤ → ℕ → Result VaultError ℕ
lp_for v now amount = if v.lp_supply == 0 then ok amount else (do
  effective_assets ← effective_total_assets v now
  mul_div amount v.lp_supply effective_assets)

-- The assets for LP tokens, before the fee.
unfoldable pub assets_for : Vault → ℤ → ℕ → Result VaultError ℕ
assets_for v now lp_amount = do
  effective_assets ← effective_total_assets v now
  mul_div lp_amount effective_assets v.lp_supply

-- The LP tokens that a deposit mints and those that it keeps back, or why it is refused.
unfoldable pub price_deposit : Vault → ℤ → ℕ → Result VaultError (ℕ × ℕ)
unfolding add_word sub_word
price_deposit v now amount = do
  require v.is_active vault_inactive
  require (ltb 0 amount) zero_amount
  total ← add_word u64_mod v.total_assets amount
  require (leb total v.max_cap) max_cap_exceeded
  lp_to_mint ← lp_for v now amount
  require (ltb 0 lp_to_mint) zero_lp_tokens
  fee_lp ← fee_of lp_to_mint v.deposit_fee_bps
  lp_after_fee ← sub_word lp_to_mint fee_lp
  ok (lp_after_fee, fee_lp)

-- The assets before and after the fee, or why the withdrawal is refused.
unfoldable pub price_withdrawal : Vault → ℤ → ℕ → Result VaultError (ℕ × ℕ)
unfolding sub_word
price_withdrawal v now lp_amount = do
  require (v.withdrawal_wait_period == 0) instant_withdraw_not_allowed
  require (ltb 0 lp_amount) zero_amount
  assets_to_return ← assets_for v now lp_amount
  fee ← fee_of assets_to_return v.withdrawal_fee_bps
  assets_after_fee ← sub_word assets_to_return fee
  require (leb assets_after_fee v.idle_assets) insufficient_idle
  ok (assets_to_return, assets_after_fee)

-- The vault after a deposit: amount, LP tokens minted, LP tokens kept back as the fee.
unfoldable pub book_deposit : Vault → ℕ → ℕ → ℕ → Result VaultError Vault
unfolding add_word
book_deposit v amount lp_after_fee fee_lp = do
  total ← add_word u64_mod v.total_assets amount
  idle ← add_word u64_mod v.idle_assets amount
  supply ← add_word u64_mod v.lp_supply lp_after_fee
  fees ← add_word u64_mod v.accumulated_fees fee_lp
  ok (record v {
    total_assets = total;
    idle_assets = idle;
    lp_supply = supply;
    accumulated_fees = fees;
  })

-- The vault after a withdrawal: LP tokens burned, assets before and after the fee.
unfoldable pub book_withdrawal : Vault → ℕ → ℕ → ℕ → Result VaultError Vault
unfolding sub_word
book_withdrawal v lp_amount assets_to_return assets_after_fee = do
  total ← sub_word v.total_assets assets_to_return
  idle ← sub_word v.idle_assets assets_after_fee
  supply ← sub_word v.lp_supply lp_amount
  ok (record v { total_assets = total; idle_assets = idle; lp_supply = supply })

module _ {Ledger : Type 0} (T : TokenProgram Ledger) (H : HookedProgram Ledger) (pda : Pda) where
  -- The constraints of `Deposit`.
  abbrev pub check_deposit : Deposit → Vault → Ledger → Result VaultError (Unit {0})
  check_deposit c v l = do
    signer c.user
    require v.is_active vault_inactive
    constrain (T.mint_of l c.user_asset_account == c.asset_mint)
    constrain (T.owner_of l c.user_asset_account == c.user.key)
    constrain (H.program_of l c.user_asset_account == c.asset_token_program)
    require (c.vault_asset_account == v.vault_asset_account) invalid_account
    require (c.lp_mint == v.lp_mint) invalid_lp_mint
    constrain (c.lp_mint_authority.key == pda (lp_mint_auth_seeds c.vault))
    constrain (T.mint_of l c.user_lp_account == c.lp_mint)
    constrain (T.owner_of l c.user_lp_account == c.user.key)

  unfoldable pub deposit : Deposit → ℕ → ℤ → Vault → Ledger → Result VaultError (Vault × Ledger)
  deposit c amount now v l = do
    check_deposit c v l
    (lp_after_fee, fee_lp) ← price_deposit v now amount
    l₁ ← called (
        H.transfer_checked
          (record {
            program = c.asset_token_program;
            source = c.user_asset_account;
            mint = c.asset_mint;
            destination = c.vault_asset_account;
            authority = cpi_new c.user;
            additional = c.remaining_accounts;
            amount = amount;
            decimals = T.decimals l c.asset_mint;
          })
          l)
    l₂ ← called (
        T.mint_to c.lp_mint c.user_lp_account
          (cpi_new_with_signer (pda (lp_mint_auth_seeds c.vault)) c.lp_mint_authority) lp_after_fee
          l₁)
    v' ← book_deposit v amount lp_after_fee fee_lp
    ok (v', l₂)

  -- The constraints of `InstantWithdraw`.
  abbrev pub check_withdraw : InstantWithdraw → Vault → Ledger → Result VaultError (Unit {0})
  check_withdraw c v l = do
    signer c.user
    constrain (T.mint_of l c.user_asset_account == c.asset_mint)
    constrain (T.owner_of l c.user_asset_account == c.user.key)
    constrain (H.program_of l c.user_asset_account == c.asset_token_program)
    require (c.vault_asset_account == v.vault_asset_account) invalid_account
    constrain (c.vault_asset_authority.key == pda (vault_asset_auth_seeds c.vault))
    require (c.lp_mint == v.lp_mint) invalid_lp_mint
    constrain (T.mint_of l c.user_lp_account == c.lp_mint)
    constrain (T.owner_of l c.user_lp_account == c.user.key)

  unfoldable pub instant_withdraw :
      InstantWithdraw → ℕ → ℤ → Vault → Ledger → Result VaultError (Vault × Ledger)
  instant_withdraw c lp_amount now v l = do
    check_withdraw c v l
    (assets_to_return, assets_after_fee) ← price_withdrawal v now lp_amount
    l₁ ← called (T.burn c.lp_mint c.user_lp_account (cpi_new c.user) lp_amount l)
    l₂ ← called (
        H.transfer_checked
          (record {
            program = c.asset_token_program;
            source = c.vault_asset_account;
            mint = c.asset_mint;
            destination = c.user_asset_account;
            authority =
                cpi_new_with_signer (pda (vault_asset_auth_seeds c.vault)) c.vault_asset_authority;
            additional = c.remaining_accounts;
            amount = assets_after_fee;
            decimals = T.decimals l c.asset_mint;
          })
          l₁)
    v' ← book_withdrawal v lp_amount assets_to_return assets_after_fee
    ok (v', l₂)
