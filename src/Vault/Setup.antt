-- ===== src/Vault/Setup.antt =====
-- `initialize_vault`, `update_config` and `set_active`.
pub mod Caps
use cross_fluf.Base.{
  ℕ, Bool, true, ◌==◌, leb, List, Option, Result, ok, constrain, require, unwrap, ◌>>=◌, ◌>>◌,
}
use cross_fluf.Base.Int.{ℤ}
use cross_fluf.Solana.{Pubkey, AccountInfo, Pda, signer, init}
use cross_fluf.Token.{TokenProgram}
use cross_fluf.Token.Hooked.{HookedProgram}
use cross_fluf.Vault.State.{
  Vault, VaultConfig, VaultError, name_too_long, fee_too_high, unauthorized, invalid_lp_mint,
  precision, fixed_bytes, length, vault_seeds, lp_mint_auth_seeds, vault_asset_auth_seeds,
}

-- The accounts of `InitializeVault`, and the bump that was found for the vault's address.
pub record InitializeVault : Type 0 where
  pub admin : AccountInfo
  pub manager : Pubkey
  pub vault : Pubkey
  pub asset_mint : Pubkey
  pub lp_mint : Pubkey
  pub lp_mint_authority : Pubkey
  pub vault_asset_account : Pubkey
  pub vault_asset_authority : Pubkey
  pub asset_token_program : Pubkey
  pub bump : ℕ

-- The accounts of `UpdateConfig`.
pub record UpdateConfig : Type 0 where
  pub admin : AccountInfo
  pub vault : Pubkey

-- The vault that `initialize_vault` writes.
unfoldable pub new_vault : InitializeVault → List ℕ → VaultConfig → ℤ → Vault
unfolding fixed_bytes
new_vault c name config now = record {
  name = fixed_bytes 32 name;
  admin = c.admin.key;
  manager = c.manager;
  asset_mint = c.asset_mint;
  lp_mint = c.lp_mint;
  vault_asset_account = c.vault_asset_account;
  total_assets = 0;
  idle_assets = 0;
  lp_supply = 0;
  max_cap = config.max_cap;
  performance_fee_bps = config.performance_fee_bps;
  management_fee_bps = config.management_fee_bps;
  deposit_fee_bps = config.deposit_fee_bps;
  withdrawal_fee_bps = config.withdrawal_fee_bps;
  locked_profit_degradation = config.locked_profit_degradation;
  withdrawal_wait_period = config.withdrawal_wait_period;
  high_water_mark = precision;
  last_fee_harvest_ts = now;
  locked_profit = 0;
  locked_profit_ts = now;
  num_strategies = 0;
  accumulated_fees = 0;
  is_active = true;
  bump = c.bump;
}

module _ {Ledger : Type 0} (T : TokenProgram Ledger) (H : HookedProgram Ledger) (pda : Pda) where
  -- The constraints of `InitializeVault`.
  unfoldable pub check_initialize :
      InitializeVault → List ℕ → Option Vault → Ledger → Result VaultError (Unit {0})
  check_initialize c name existing l = do
    signer c.admin
    constrain (c.vault == pda (vault_seeds c.admin.key name))
    init existing
    authority ← unwrap (T.mint_authority l c.lp_mint)
    require (authority == c.lp_mint_authority) invalid_lp_mint
    require (T.supply l c.lp_mint == 0) invalid_lp_mint
    constrain (c.lp_mint_authority == pda (lp_mint_auth_seeds c.vault))
    constrain (T.mint_of l c.vault_asset_account == c.asset_mint)
    constrain (T.owner_of l c.vault_asset_account == c.vault_asset_authority)
    constrain (H.program_of l c.vault_asset_account == c.asset_token_program)
    constrain (c.vault_asset_authority == pda (vault_asset_auth_seeds c.vault))

  unfoldable pub initialize_vault :
      InitializeVault → List ℕ → VaultConfig → ℤ → Option Vault → Ledger → Result VaultError Vault
  unfolding check_initialize new_vault
  initialize_vault c name config now existing l = do
    check_initialize c name existing l
    require (leb (length name) 32) name_too_long
    require (leb config.performance_fee_bps 5000) fee_too_high
    require (leb config.management_fee_bps 1000) fee_too_high
    ok (new_vault c name config now)

unfoldable pub update_config : UpdateConfig → VaultConfig → Vault → Result VaultError Vault
update_config c new_config v = do
  signer c.admin
  require (c.admin.key == v.admin) unauthorized
  require (leb new_config.performance_fee_bps 5000) fee_too_high
  ok (record v {
    max_cap = new_config.max_cap;
    performance_fee_bps = new_config.performance_fee_bps;
    management_fee_bps = new_config.management_fee_bps;
    deposit_fee_bps = new_config.deposit_fee_bps;
    withdrawal_fee_bps = new_config.withdrawal_fee_bps;
    locked_profit_degradation = new_config.locked_profit_degradation;
    withdrawal_wait_period = new_config.withdrawal_wait_period;
  })

unfoldable pub set_active : UpdateConfig → Bool → Vault → Result VaultError Vault
set_active c is_active v = do
  signer c.admin
  require (c.admin.key == v.admin) unauthorized
  ok (record v { is_active = is_active })
