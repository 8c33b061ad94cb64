-- ===== src/Fluf/Fees.antt =====
-- `withdraw_fees`: the deployer collects the protocol's fees.
pub mod Blocked
use cross_fluf.Base.{
  ℕ, ◌≡◌, Bool, ◌==◌, List, [], ◌∷◌, Result, ok, constrain, require, called, ◌>>=◌, ◌>>◌,
}
use cross_fluf.Solana.{Pubkey, AccountInfo, Pda, cpi_new, signer, load}
use cross_fluf.Token.{TokenProgram}
use cross_fluf.Fluf.State.{
  FlufError, invalid_admin, invalid_pool, World, state_seeds, pool_seeds, fluf_mint_seeds,
  fee_account_seeds, token_account,
}

-- The accounts of `WithdrawFees`.
pub record WithdrawFees : Type 0 where
  pub user : AccountInfo
  pub state : Pubkey
  pub pool : AccountInfo
  pub pool_mint : Pubkey
  pub fluf_mint : Pubkey
  pub fee_account : Pubkey
  pub collector_account : Pubkey

module _ {Ledger : Type 0} (T : TokenProgram Ledger) (pda : Pda) where
  unfoldable pub withdraw_fees : WithdrawFees → World Ledger → Result FlufError (World Ledger)
  withdraw_fees c w = do
    signer c.user
    constrain (c.state == pda state_seeds)
    state ← load (w.states c.state)
    constrain (c.pool.key == pda (pool_seeds c.pool_mint))
    pool ← load (w.pools c.pool.key)
    constrain (T.is_mint w.ledger c.pool_mint)
    constrain (T.is_mint w.ledger c.fluf_mint)
    constrain (c.fluf_mint == pda (fluf_mint_seeds c.pool_mint))
    token_account T w.ledger c.fee_account c.fluf_mint c.pool.key
    constrain (c.fee_account == pda (fee_account_seeds c.pool_mint))
    constrain (T.is_open w.ledger c.collector_account)
    require (c.user.key == state.deployer) invalid_admin
    require (pool.fluf_mint == c.fluf_mint) invalid_pool
    let balance = T.amount w.ledger c.fee_account
    l ← called (T.transfer c.fee_account c.collector_account (cpi_new c.pool) balance w.ledger)
    ok (record w { ledger = l })
