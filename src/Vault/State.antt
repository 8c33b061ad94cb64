-- ===== src/Vault/State.antt =====
-- The accounts, errors and constants of programs/vault/src/lib.rs.
use cross_fluf.Base.{ℕ, zero, suc, Bool, List, [], ◌∷◌}
use cross_fluf.Base.Int.{ℤ}
use cross_fluf.Solana.{Pubkey, Seed, literal, address, bytes}

abbrev pub precision : ℕ
precision = 1_000_000_000_000_000_000

abbrev pub bps_denominator : ℕ
bps_denominator = 10_000

abbrev pub max_strategies : ℕ
max_strategies = 10

-- `VaultError`
pub data VaultError : Type 0 where
  name_too_long fee_too_high vault_inactive zero_amount max_cap_exceeded : VaultError
  zero_lp_tokens insufficient_idle instant_withdraw_not_allowed unauthorized : VaultError
  max_strategies_reached strategy_inactive invalid_account invalid_lp_mint : VaultError
  invalid_strategy strategy_not_empty insufficient_strategy_balance : VaultError

pub record Vault : Type 0 where
  pub name : List ℕ
  pub admin : Pubkey
  pub manager : Pubkey
  pub asset_mint : Pubkey
  pub lp_mint : Pubkey
  pub vault_asset_account : Pubkey
  pub total_assets : ℕ  -- u64
  pub idle_assets : ℕ  -- u64
  pub lp_supply : ℕ  -- u64
  pub max_cap : ℕ  -- u64
  pub performance_fee_bps : ℕ  -- u16
  pub management_fee_bps : ℕ  -- u16
  pub deposit_fee_bps : ℕ  -- u16
  pub withdrawal_fee_bps : ℕ  -- u16
  pub locked_profit_degradation : ℕ  -- u64
  pub withdrawal_wait_period : ℕ  -- u64
  pub high_water_mark : ℕ  -- u128
  pub last_fee_harvest_ts : ℤ  -- i64
  pub locked_profit : ℕ  -- u64
  pub locked_profit_ts : ℤ  -- i64
  pub num_strategies : ℕ  -- u8
  pub accumulated_fees : ℕ  -- u64
  pub is_active : Bool
  pub bump : ℕ  -- u8

pub record Strategy : Type 0 where
  pub vault : Pubkey
  pub index : ℕ  -- u8
  pub name : List ℕ
  pub protocol : List ℕ
  pub position_value : ℕ  -- u64
  pub allocated : ℕ  -- u64
  pub is_active : Bool
  pub last_update_ts : ℤ  -- i64
  pub bump : ℕ  -- u8

pub record VaultConfig : Type 0 where
  pub max_cap : ℕ  -- u64
  pub performance_fee_bps : ℕ  -- u16
  pub management_fee_bps : ℕ  -- u16
  pub deposit_fee_bps : ℕ  -- u16
  pub withdrawal_fee_bps : ℕ  -- u16
  pub locked_profit_degradation : ℕ  -- u64
  pub withdrawal_wait_period : ℕ  -- u64

-- `[0u8; n]` with the text copied to its front, as far as it goes.
unfoldable pub fixed_bytes : ℕ → List ℕ → List ℕ
fixed_bytes zero text = []
fixed_bytes (suc n) [] = 0 ∷ fixed_bytes n []
fixed_bytes (suc n) (b ∷ text) = b ∷ fixed_bytes n text

abbrev pub length {ℓ} : {A : Type ℓ} → List A → ℕ
length [] = 0
length (x ∷ xs) = suc (length xs)

abbrev pub vault_seeds : Pubkey → List ℕ → List Seed
vault_seeds admin name = literal "vault" ∷ address admin ∷ bytes name ∷ []

abbrev pub lp_mint_auth_seeds : Pubkey → List Seed
lp_mint_auth_seeds vault = literal "lp_mint_auth" ∷ address vault ∷ []

abbrev pub vault_asset_auth_seeds : Pubkey → List Seed
vault_asset_auth_seeds vault = literal "vault_asset_auth" ∷ address vault ∷ []

abbrev pub strategy_seeds : Pubkey → ℕ → List Seed
strategy_seeds vault index = literal "strategy" ∷ address vault ∷ bytes (index ∷ []) ∷ []
