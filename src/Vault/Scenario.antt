-- ===== src/Vault/Scenario.antt =====
-- One vault with a strategy, run over the token program of Token/Memory.
use Prim.Native.String.{len}
use cross_fluf.Base.{
  ◌||◌, Option, ◌+◌, ◌-◌, ◌*◌, true, false, [], ◌∷◌, none, some, Result, ok, err, if◌then◌else◌,
  ◌==◌,
}
use cross_fluf.Base.Int.{pos}
use cross_fluf.Solana.{AccountInfo, literal, address, bytes, Pda}
use cross_fluf.Token.Memory.{Book, memory, hooked_memory, mint_to, burn, transfer_checked}
use cross_fluf.Vault.State.{Vault, VaultConfig, Strategy}
use cross_fluf.Base.Words.{as_u64}
use cross_fluf.Vault.Assets.{effective_total_assets}
use cross_fluf.Vault.Setup.{InitializeVault, initialize_vault}
use cross_fluf.Vault.Shares.{
  Deposit, InstantWithdraw, deposit, instant_withdraw, price_deposit, price_withdrawal, lp_for,
  assets_for, fee_of, book_deposit, book_withdrawal,
}
use cross_fluf.Vault.Strategies.{
  Manage, AddStrategy, add_strategy, allocate, deallocate, report_yield,
}
use cross_fluf.Vault.Fees.{
  HarvestFees, harvest_fees, management_fee, current_ratio, performance_fee, fee_shares,
  book_harvest, pay_fees,
}
use cross_fluf.Vault.Run.{World}

-- Some derivation of addresses: the first text's length in thousands, and the key.
abbrev pub derive : Pda
derive (literal s ∷ address k ∷ []) = 1000 * len s + k
derive (literal s ∷ address k ∷ bytes b ∷ []) = 1000 * len s + k
derive _ = 0

-- The value of a result, or another if there is none.
abbrev pub value_of {ℓ} : {E : Type 0} → {A : Type ℓ} → A → Result E A → A
value_of a (ok b) = b
value_of a (err e) = a

-- The asset is the mint 7, the LP token the mint 60. The admin is 1, the manager 3 and the user 2,
-- with asset account 12 and LP account 22.
abbrev pub start : Book
start = record {
  amounts = λ k. if k == 12 then 5_000_000 else 0;
  mints = λ k. if k == 12 then 7 else if k == 50 then 7 else 60;
  owners = λ k. if k == 12 then 2 else if k == 22 then 2 else if k == 50 then 21_001 else 1;
  opens = λ k. true;
  kinds = λ k. k == 7 || k == 60;
  supplies = λ m. if m == 7 then 5_000_000 else 0;
  scales = λ m. 6;
  authorities = λ m. if m == 60 then some 17_001 else none;
}

abbrev pub config : VaultConfig
config = record {
  max_cap = 10_000_000;
  performance_fee_bps = 1000;
  management_fee_bps = 100;
  deposit_fee_bps = 50;
  withdrawal_fee_bps = 100;
  locked_profit_degradation = 1000;
  withdrawal_wait_period = 0;
}

abbrev pub no_vault : Option Vault
no_vault = none

abbrev pub creation : InitializeVault
creation = record {
  admin = record { key = 1; is_signer = true };
  manager = 3;
  vault = 5001;
  asset_mint = 7;
  lp_mint = 60;
  lp_mint_authority = 17_001;
  vault_asset_account = 50;
  vault_asset_authority = 21_001;
  asset_token_program = 5;
  bump = 254;
}

abbrev pub paying_in : Deposit
paying_in = record {
  user = record { key = 2; is_signer = true };
  vault = 5001;
  user_asset_account = 12;
  vault_asset_account = 50;
  asset_mint = 7;
  lp_mint = 60;
  lp_mint_authority = record { key = 17_001; is_signer = false };
  user_lp_account = 22;
  asset_token_program = 5;
  remaining_accounts = [];
}

abbrev pub paying_out : InstantWithdraw
paying_out = record {
  user = record { key = 2; is_signer = true };
  vault = 5001;
  user_asset_account = 12;
  vault_asset_account = 50;
  vault_asset_authority = record { key = 21_001; is_signer = false };
  asset_mint = 7;
  lp_mint = 60;
  user_lp_account = 22;
  asset_token_program = 5;
  remaining_accounts = [];
}

abbrev pub managed : Manage
managed = record { authority = record { key = 3; is_signer = true }; vault = 5001 }

abbrev pub added : AddStrategy
added = record {
  admin = record { key = 1; is_signer = true };
  vault = 5001;
  strategy = 13_001;
  bump = 253;
}

abbrev pub harvesting : HarvestFees
harvesting = record {
  admin = record { key = 1; is_signer = true };
  vault = 5001;
  lp_mint = 60;
  lp_mint_authority = record { key = 17_001; is_signer = false };
  admin_lp_account = 21;
}

unfoldable pub v₀ : Vault
unfolding initialize_vault
v₀ =
    value_of
      (record {
        name = [];
        admin = 0;
        manager = 0;
        asset_mint = 0;
        lp_mint = 0;
        vault_asset_account = 0;
        total_assets = 0;
        idle_assets = 0;
        lp_supply = 0;
        max_cap = 0;
        performance_fee_bps = 0;
        management_fee_bps = 0;
        deposit_fee_bps = 0;
        withdrawal_fee_bps = 0;
        locked_profit_degradation = 0;
        withdrawal_wait_period = 0;
        high_water_mark = 0;
        last_fee_harvest_ts = pos 0;
        locked_profit = 0;
        locked_profit_ts = pos 0;
        num_strategies = 0;
        accumulated_fees = 0;
        is_active = false;
        bump = 0;
      })
      (initialize_vault memory hooked_memory derive creation (118 ∷ 49 ∷ []) config (pos 0) none
        start)

-- A first deposit.
unfoldable pub first : Vault × Book
unfolding v₀ deposit price_deposit lp_for fee_of book_deposit effective_total_assets mint_to
    transfer_checked as_u64
first =
    value_of (v₀, start) (deposit memory hooked_memory derive paying_in 1_000_000 (pos 10) v₀ start)

unfoldable pub s₀ : Vault × Strategy
unfolding first add_strategy
s₀ =
    value_of
      (
        first.0,
        record {
          vault = 0;
          index = 0;
          name = [];
          protocol = [];
          position_value = 0;
          allocated = 0;
          is_active = false;
          last_update_ts = pos 0;
          bump = 0;
        },
      )
      (add_strategy derive added (97 ∷ []) (98 ∷ []) (pos 20) first.0 none)

unfoldable pub s₁ : Vault × Strategy
unfolding s₀ allocate
s₁ = value_of s₀ (allocate managed 400_000 (pos 30) s₀.0 s₀.1)

unfoldable pub s₂ : Vault × Strategy
unfolding s₁ report_yield
s₂ = value_of s₁ (report_yield managed 500_000 (pos 100) s₁.0 s₁.1)

-- A deposit while half of the profit is locked, and the withdrawal of what it brought.
unfoldable pub second : Vault × Book
unfolding s₂
second =
    value_of (s₂.0, first.1)
      (deposit memory hooked_memory derive paying_in 200_000 (pos 600) s₂.0 first.1)

unfoldable pub out : Vault × Book
unfolding second instant_withdraw price_withdrawal assets_for book_withdrawal burn
out = value_of second (
    instant_withdraw memory hooked_memory derive paying_out (second.0.lp_supply - s₂.0.lp_supply)
      (pos 600) second.0 second.1)

-- A second profit of 10, an hour after the first.
unfoldable pub s₃ : Vault × Strategy
unfolding s₂
s₃ = value_of s₂ (report_yield managed 500_010 (pos 3700) s₂.0 s₂.1)

-- What was allocated comes back.
unfoldable pub s₄ : Vault × Strategy
unfolding s₁ deallocate
s₄ = value_of s₁ (deallocate managed 400_000 (pos 50) s₁.0 s₁.1)

-- The user 2 is neither the admin nor the manager.
abbrev pub foreign : AccountInfo
foreign = record { key = 2; is_signer = true }

unfoldable pub harvested : Vault × Book
unfolding second harvest_fees management_fee current_ratio performance_fee fee_shares book_harvest
    pay_fees
harvested = value_of second (harvest_fees memory derive harvesting (pos 2000) second.0 second.1)

-- The run: a deposit, a strategy, assets for it, its profit, another deposit and its withdrawal.
abbrev pub world₀ : World Book
world₀ = record { vault = v₀; strategies = []; ledger = start }

abbrev pub world₁ : World Book
world₁ = record { vault = first.0; strategies = []; ledger = first.1 }

abbrev pub world₂ : World Book
world₂ = record { vault = s₀.0; strategies = s₀.1 ∷ []; ledger = first.1 }

abbrev pub world₃ : World Book
world₃ = record { vault = s₁.0; strategies = s₁.1 ∷ []; ledger = first.1 }

abbrev pub world₄ : World Book
world₄ = record { vault = s₂.0; strategies = s₂.1 ∷ []; ledger = first.1 }

abbrev pub world₅ : World Book
world₅ = record { vault = second.0; strategies = s₂.1 ∷ []; ledger = second.1 }

abbrev pub world₆ : World Book
world₆ = record { vault = out.0; strategies = s₂.1 ∷ []; ledger = out.1 }
