-- ===== src/Vault/Strategies/Books.antt =====
-- What the operations on strategies do to the books: the total, the idle assets, the position.
use cross_fluf.Base.{ℕ, ◌+◌, ◌-◌, ◌≤◌, ◌≡◌, true, false, ok, arith, List, Option}
use cross_fluf.Base.Int.{ℤ}
use cross_fluf.Solana.{Pda}
use cross_fluf.Vault.State.{Vault, Strategy, max_strategies}
use cross_fluf.Vault.Strategies.{
  Manage, AddStrategy, add_strategy, allocate, deallocate, report_yield, remove_strategy,
}

-- A move between idle assets and a strategy that succeeded is the manager's, keeps their sum, and
-- leaves all else in the vault's books as it was.
pub record Moved (c : Manage) (v v' : Vault) (s s' : Strategy) : Type 0 where
  pub by_manager : c.authority.key ≡ v.manager
  pub own : s.vault ≡ c.vault
  pub usable : s.is_active ≡ true
  pub sum : v'.idle_assets + s'.position_value ≡ v.idle_assets + s.position_value
  pub entry : v' ≡ record v { idle_assets = v'.idle_assets }

pub allocate-Moved :
    (c : Manage) (amount : ℕ) (now : ℤ) (v v' : Vault) (s s' : Strategy)
    → allocate c amount now v s ≡ ok (v', s')
    → Moved c v v' s s'
unfolding allocate
allocate-Moved c amount now v v' s s' h = ground arith

pub deallocate-Moved :
    (c : Manage) (amount : ℕ) (now : ℤ) (v v' : Vault) (s s' : Strategy)
    → deallocate c amount now v s ≡ ok (v', s')
    → Moved c v v' s s'
unfolding deallocate
deallocate-Moved c amount now v v' s s' h = ground arith

-- What was allocated and is deallocated again leaves the books of the vault as they were, and the
-- strategy's position too.
pub deallocate-allocate :
    (c d : Manage) (amount : ℕ) (now later : ℤ) (v v' v'' : Vault) (s s' s'' : Strategy)
    → allocate c amount now v s ≡ ok (v', s')
    → deallocate d amount later v' s' ≡ ok (v'', s'')
    → (v'' ≡ v) × (s''.position_value ≡ s.position_value) × (s''.allocated ≡ s.allocated + amount)
unfolding allocate deallocate
deallocate-allocate c d amount now later v v' v'' s s' s'' h k = ground arith

-- A report that succeeded sets the position, and moves the total by as much, but not below zero.
pub record Reported (c : Manage) (value : ℕ) (v v' : Vault) (s s' : Strategy) : Type 0 where
  pub by_manager : c.authority.key ≡ v.manager
  pub position : s'.position_value ≡ value
  pub total :
      v'.total_assets ≡ v.total_assets + (value - s.position_value) - (s.position_value - value)
  pub idle : v'.idle_assets ≡ v.idle_assets
  pub locked : v'.locked_profit ≡ v.locked_profit + (value - s.position_value)
  pub supply : v'.lp_supply ≡ v.lp_supply
  pub mint : v'.lp_mint ≡ v.lp_mint
  pub count : v'.num_strategies ≡ v.num_strategies

pub report_yield-Reported :
    (c : Manage) (value : ℕ) (now : ℤ) (v v' : Vault) (s s' : Strategy)
    → report_yield c value now v s ≡ ok (v', s')
    → Reported c value v v' s s'
unfolding report_yield
report_yield-Reported c value now v v' s s' h = ground arith

-- A strategy that was added is empty, and the count stays within the maximum.
pub record Added (v v' : Vault) (s : Strategy) : Type 0 where
  pub empty : s.position_value ≡ 0
  pub index : s.index ≡ v.num_strategies
  pub count : v'.num_strategies ≡ v.num_strategies + 1
  pub within : v'.num_strategies ≤ max_strategies
  pub entry : v' ≡ record v { num_strategies = v'.num_strategies }

pub add_strategy-Added :
    (pda : Pda) (c : AddStrategy) (name protocol : List ℕ) (now : ℤ) (v v' : Vault)
    (existing : Option Strategy) (s : Strategy)
    → add_strategy pda c name protocol now v existing ≡ ok (v', s)
    → Added v v' s
unfolding add_strategy
add_strategy-Added pda c name protocol now v v' existing s h = ground arith

-- Only an empty strategy is removed, which makes it inactive and nothing else.
pub remove_strategy-kept :
    (c : Manage) (v : Vault) (s s' : Strategy)
    → remove_strategy c v s ≡ ok s'
    → (s.position_value ≡ 0) × (s' ≡ record s { is_active = false })
unfolding remove_strategy
remove_strategy-kept c v s s' h = ground arith
