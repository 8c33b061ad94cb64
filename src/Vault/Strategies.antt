-- ===== src/Vault/Strategies.antt =====
-- The strategies: `add_strategy`, `allocate`, `deallocate`, `report_yield` and `remove_strategy`.
pub mod Books
pub mod Locking
use cross_fluf.Base.{
  ℕ, ◌-◌, ◌≡◌, Bool, true, false, ◌==◌, leb, ltb, if◌then◌else◌, List, Option, Result, ok,
  constrain, require, ◌>>=◌, ◌>>◌,
}
use cross_fluf.Base.Int.{ℤ}
use cross_fluf.Base.Words.{u64_mod, add_word, sub_word, saturating_sub}
use cross_fluf.Solana.{Pubkey, AccountInfo, Pda, signer, init}
use cross_fluf.Vault.State.{
  Vault, Strategy, VaultError, unauthorized, max_strategies_reached, zero_amount, insufficient_idle,
  strategy_inactive, invalid_strategy, insufficient_strategy_balance, strategy_not_empty,
  max_strategies, fixed_bytes, strategy_seeds,
}

abbrev u8_mod : ℕ
u8_mod = 256

-- The accounts of `AddStrategy`, and the bump that was found for the strategy's address.
pub record AddStrategy : Type 0 where
  pub admin : AccountInfo
  pub vault : Pubkey
  pub strategy : Pubkey
  pub bump : ℕ

-- The signer and the vault of `Allocate`, `ReportYield` and `RemoveStrategy`.
pub record Manage : Type 0 where
  pub authority : AccountInfo
  pub vault : Pubkey

unfoldable pub add_strategy :
    Pda
    → AddStrategy
    → List ℕ
    → List ℕ
    → ℤ
    → Vault
    → Option Strategy
    → Result VaultError (Vault × Strategy)
unfolding add_word fixed_bytes
add_strategy pda c name protocol now v existing = do
  signer c.admin
  constrain (c.strategy == pda (strategy_seeds c.vault v.num_strategies))
  init existing
  require (c.admin.key == v.admin) unauthorized
  require (ltb v.num_strategies max_strategies) max_strategies_reached
  count ← add_word u8_mod v.num_strategies 1
  ok (
    record v { num_strategies = count },
    record {
      vault = c.vault;
      index = v.num_strategies;
      name = fixed_bytes 32 name;
      protocol = fixed_bytes 32 protocol;
      position_value = 0;
      allocated = 0;
      is_active = true;
      last_update_ts = now;
      bump = c.bump;
    },
  )

-- The constraints of `Allocate`, which `deallocate` has too.
abbrev pub check_allocate : Manage → Strategy → Result VaultError (Unit {0})
check_allocate c s = do
  signer c.authority
  require (s.vault == c.vault) invalid_strategy
  require s.is_active strategy_inactive

unfoldable pub allocate : Manage → ℕ → ℤ → Vault → Strategy → Result VaultError (Vault × Strategy)
unfolding add_word sub_word
allocate c amount now v s = do
  check_allocate c s
  require (c.authority.key == v.manager) unauthorized
  require (ltb 0 amount) zero_amount
  require (leb amount v.idle_assets) insufficient_idle
  require s.is_active strategy_inactive
  idle ← sub_word v.idle_assets amount
  position ← add_word u64_mod s.position_value amount
  allocated ← add_word u64_mod s.allocated amount
  ok (
    record v { idle_assets = idle },
    record s { position_value = position; allocated = allocated; last_update_ts = now },
  )

unfoldable pub deallocate : Manage → ℕ → ℤ → Vault → Strategy → Result VaultError (Vault × Strategy)
unfolding add_word sub_word
deallocate c amount now v s = do
  check_allocate c s
  require (c.authority.key == v.manager) unauthorized
  require (ltb 0 amount) zero_amount
  require (leb amount s.position_value) insufficient_strategy_balance
  position ← sub_word s.position_value amount
  idle ← add_word u64_mod v.idle_assets amount
  ok (record v { idle_assets = idle }, record s { position_value = position; last_update_ts = now })

-- The vault's books after a strategy's position has changed from one value to another.
unfoldable pub book_yield : ℤ → ℕ → ℕ → Vault → Result VaultError Vault
unfolding add_word
book_yield now old_value new_position_value v =
    if ltb old_value new_position_value
    then (do
      let profit = new_position_value - old_value
      total ← add_word u64_mod v.total_assets profit
      locked ← add_word u64_mod v.locked_profit profit
      ok (record v { total_assets = total; locked_profit = locked; locked_profit_ts = now }))
    else if ltb new_position_value old_value
    then ok
        (record v { total_assets = saturating_sub v.total_assets (old_value - new_position_value) })
    else ok v

unfoldable pub report_yield :
    Manage → ℕ → ℤ → Vault → Strategy → Result VaultError (Vault × Strategy)
unfolding book_yield
report_yield c new_position_value now v s = do
  signer c.authority
  require (s.vault == c.vault) invalid_strategy
  require (c.authority.key == v.manager) unauthorized
  v' ← book_yield now s.position_value new_position_value v
  ok (v', record s { position_value = new_position_value; last_update_ts = now })

unfoldable pub remove_strategy : Manage → Vault → Strategy → Result VaultError Strategy
remove_strategy c v s = do
  signer c.authority
  require (v.admin == c.authority.key) unauthorized
  require (s.vault == c.vault) invalid_strategy
  require (c.authority.key == v.admin) unauthorized
  require (s.position_value == 0) strategy_not_empty
  ok (record s { is_active = false })
