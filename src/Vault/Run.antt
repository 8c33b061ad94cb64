-- ===== src/Vault/Run.antt =====
-- One vault with its strategies, over any sequence of instructions.
pub mod Books
pub mod Limits
use cross_fluf.Base.{ℕ, ◌+◌, ◌≡◌, Bool, ok, arith, List, [], ◌∷◌, ◌++◌, Option}
use cross_fluf.Base.Int.{ℤ}
use cross_fluf.Solana.{Pda}
use cross_fluf.Token.{TokenProgram}
use cross_fluf.Token.Hooked.{HookedProgram}
use cross_fluf.Vault.State.{Vault, VaultConfig, Strategy}
use cross_fluf.Vault.Setup.{UpdateConfig, update_config, set_active}
use cross_fluf.Vault.Shares.{Deposit, InstantWithdraw, deposit, instant_withdraw}
use cross_fluf.Vault.Strategies.{
  Manage, AddStrategy, add_strategy, allocate, deallocate, report_yield, remove_strategy,
}
use cross_fluf.Vault.Fees.{HarvestFees, harvest_fees}

pub record World (Ledger : Type 0) : Type 0 where
  pub vault : Vault
  pub strategies : List Strategy
  pub ledger : Ledger

-- What the strategies hold together.
abbrev pub positions : List Strategy → ℕ
positions [] = 0
positions (s ∷ rest) = s.position_value + positions rest

pub positions-split :
    (before after : List Strategy) (s : Strategy)
    → positions (before ++ s ∷ after) ≡ positions before + s.position_value + positions after
positions-split [] after s = omega arith
positions-split (b ∷ before) after s = omega (arith, positions-split before after s)

-- What is booked: the idle assets and the positions.
abbrev pub booked : {Ledger : Type 0} → World Ledger → ℕ
booked w = w.vault.idle_assets + positions w.strategies

module _ {Ledger : Type 0} (T : TokenProgram Ledger) (H : HookedProgram Ledger) (pda : Pda) where
  -- An instruction that succeeds: the accounts that it changes are written back, a strategy to its
  -- place among the strategies.
  pub data Step (w w' : World Ledger) : Type 0 where
    deposits :
        (c : Deposit) (amount : ℕ) (now : ℤ)
        → deposit T H pda c amount now w.vault w.ledger ≡ ok (w'.vault, w'.ledger)
        → w'.strategies ≡ w.strategies
        → Step w w'
    withdraws :
        (c : InstantWithdraw) (lp : ℕ) (now : ℤ)
        → instant_withdraw T H pda c lp now w.vault w.ledger ≡ ok (w'.vault, w'.ledger)
        → w'.strategies ≡ w.strategies
        → Step w w'
    adds :
        (c : AddStrategy) (name protocol : List ℕ) (now : ℤ) (existing : Option Strategy)
        (s : Strategy)
        → add_strategy pda c name protocol now w.vault existing ≡ ok (w'.vault, s)
        → w'.strategies ≡ w.strategies ++ s ∷ []
        → Step w w'
    allocates :
        (c : Manage) (amount : ℕ) (now : ℤ) (before after : List Strategy) (s s' : Strategy)
        → w.strategies ≡ before ++ s ∷ after
        → allocate c amount now w.vault s ≡ ok (w'.vault, s')
        → w'.strategies ≡ before ++ s' ∷ after
        → Step w w'
    deallocates :
        (c : Manage) (amount : ℕ) (now : ℤ) (before after : List Strategy) (s s' : Strategy)
        → w.strategies ≡ before ++ s ∷ after
        → deallocate c amount now w.vault s ≡ ok (w'.vault, s')
        → w'.strategies ≡ before ++ s' ∷ after
        → Step w w'
    reports :
        (c : Manage) (value : ℕ) (now : ℤ) (before after : List Strategy) (s s' : Strategy)
        → w.strategies ≡ before ++ s ∷ after
        → report_yield c value now w.vault s ≡ ok (w'.vault, s')
        → w'.strategies ≡ before ++ s' ∷ after
        → Step w w'
    removes :
        (c : Manage) (before after : List Strategy) (s s' : Strategy)
        → w.strategies ≡ before ++ s ∷ after
        → remove_strategy c w.vault s ≡ ok s'
        → w'.vault ≡ w.vault
        → w'.strategies ≡ before ++ s' ∷ after
        → Step w w'
    harvests :
        (c : HarvestFees) (now : ℤ)
        → harvest_fees T pda c now w.vault w.ledger ≡ ok (w'.vault, w'.ledger)
        → w'.strategies ≡ w.strategies
        → Step w w'
    configures :
        (c : UpdateConfig) (config : VaultConfig)
        → update_config c config w.vault ≡ ok w'.vault
        → w'.strategies ≡ w.strategies
        → Step w w'
    pauses :
        (c : UpdateConfig) (is_active : Bool)
        → set_active c is_active w.vault ≡ ok w'.vault
        → w'.strategies ≡ w.strategies
        → Step w w'

  pub data Reach (w : World Ledger) : World Ledger → Type 0 where
    here : Reach w w
    next : {u v : World Ledger} → Reach w u → Step u v → Reach w v
