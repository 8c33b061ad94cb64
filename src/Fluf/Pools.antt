-- ===== src/Fluf/Pools.antt =====
-- `initialize` and `create_pool`.
pub mod Opened
use cross_fluf.Base.{
  ℕ, ◌==◌, Option, none, some, Result, ok, constrain, require, called, ◌>>=◌, ◌>>◌,
}
use cross_fluf.Solana.{Pubkey, AccountInfo, Pda, store, signer, init}
use cross_fluf.Token.{TokenProgram}
use cross_fluf.Fluf.State.{
  FlufError, decimals_mismatch, World, state_seeds, pool_seeds, pool_account_seeds, fluf_mint_seeds,
  pool_fluf_account_seeds,
}

-- The accounts of `Initialize`.
pub record Initialize : Type 0 where
  pub deployer : AccountInfo
  pub state : Pubkey

-- The accounts of `CreatePool`.
pub record CreatePool : Type 0 where
  pub user : AccountInfo
  pub pool : Pubkey
  pub pool_mint : Pubkey
  pub pool_account : Pubkey
  pub fluf_mint : Pubkey
  pub pool_fluf_account : Pubkey

module _ {Ledger : Type 0} (pda : Pda) where
  unfoldable pub initialize : Initialize → World Ledger → Result FlufError (World Ledger)
  initialize c w = do
    signer c.deployer
    constrain (c.state == pda state_seeds)
    init (w.states c.state)
    ok (record w { states = store c.state (record { deployer = c.deployer.key }) w.states })

module _ {Ledger : Type 0} (T : TokenProgram Ledger) (pda : Pda) where
  -- The accounts that the constraints `init` of `CreatePool` open.
  unfoldable pub open_pool : CreatePool → ℕ → Ledger → Option Ledger
  open_pool c decimals l = elim (T.open_account c.pool_account c.pool_mint c.pool l) [
    | none ↦ none
    | some l₁ ↦ elim (T.open_mint c.fluf_mint decimals c.pool l₁) [
      | none ↦ none
      | some l₂ ↦ T.open_account c.pool_fluf_account c.fluf_mint c.pool l₂
    ]
  ]

  unfoldable pub create_pool : CreatePool → ℕ → World Ledger → Result FlufError (World Ledger)
  unfolding open_pool
  create_pool c decimals w = do
    signer c.user
    constrain (c.pool == pda (pool_seeds c.pool_mint))
    init (w.pools c.pool)
    constrain (T.is_mint w.ledger c.pool_mint)
    constrain (c.pool_account == pda (pool_account_seeds c.pool_mint))
    constrain (c.fluf_mint == pda (fluf_mint_seeds c.pool_mint))
    constrain (c.pool_fluf_account == pda (pool_fluf_account_seeds c.pool_mint))
    l ← called (open_pool c decimals w.ledger)
    require (T.decimals w.ledger c.pool_mint == decimals) decimals_mismatch
    ok (record {
      states = w.states;
      pools = store c.pool (record { pool_mint = c.pool_mint; fluf_mint = c.fluf_mint }) w.pools;
      ledger = l;
    })
