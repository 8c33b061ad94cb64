-- ===== src/Fluf/Shares.antt =====
-- `deposit` and `withdraw`: pool tokens against fluf.
pub mod Inversion
pub mod Rounding
pub mod Effect
pub mod Price
use cross_fluf.Base.{
  ℕ, ◌*◌, ◌/◌, ◌≡◌, Bool, true, false, ◌==◌, if◌then◌else◌, List, [], ◌∷◌, Result, ok, constrain,
  require, called, ◌>>=◌, ◌>>◌,
}
use cross_fluf.Base.Words.{as_u64}
use cross_fluf.Solana.{Pubkey, AccountInfo, Pda, cpi_new, cpi_new_with_signer, signer, load}
use cross_fluf.Token.{TokenProgram}
use cross_fluf.Fluf.State.{
  FlufError, invalid_pool, Pool, World, pool_seeds, pool_account_seeds, fluf_mint_seeds,
  pool_fluf_account_seeds, token_account, mint_controlled,
}

-- The accounts of `Deposit`, which are those of `Withdraw` too.
pub record UserAccounts : Type 0 where
  pub user : AccountInfo
  pub pool : AccountInfo
  pub pool_mint : Pubkey
  pub pool_account : Pubkey
  pub user_account : Pubkey
  pub fluf_mint : Pubkey
  pub pool_fluf_account : Pubkey
  pub user_fluf_account : Pubkey

-- The fluf issued for a deposit.
unfoldable pub deposit_shares : ℕ → ℕ → ℕ → ℕ
deposit_shares amount pool_balance fluf_total_supply =
    if pool_balance == 0 then amount else as_u64 (amount * fluf_total_supply / pool_balance)

-- The pool tokens paid out for fluf.
unfoldable pub withdraw_amount : ℕ → ℕ → ℕ → ℕ
withdraw_amount amount_fluf pool_balance fluf_total_supply =
    if fluf_total_supply == 0 then 0 else as_u64 (amount_fluf * pool_balance / fluf_total_supply)

-- The two `require!` on the pool that begin a handler.
abbrev pub require_pool : Pool → Pubkey → Pubkey → Result FlufError (Unit {0})
require_pool pool pool_mint fluf_mint = do
  require (pool.pool_mint == pool_mint) invalid_pool
  require (pool.fluf_mint == fluf_mint) invalid_pool

module _ {Ledger : Type 0} (T : TokenProgram Ledger) (pda : Pda) where
  -- The constraints of `Deposit` and of `Withdraw`.
  unfoldable pub check_user_accounts : UserAccounts → World Ledger → Result FlufError Pool
  check_user_accounts c w = do
    signer c.user
    constrain (c.pool.key == pda (pool_seeds c.pool_mint))
    pool ← load (w.pools c.pool.key)
    constrain (T.is_mint w.ledger c.pool_mint)
    token_account T w.ledger c.pool_account c.pool_mint c.pool.key
    constrain (c.pool_account == pda (pool_account_seeds c.pool_mint))
    token_account T w.ledger c.user_account c.pool_mint c.user.key
    mint_controlled T w.ledger c.fluf_mint c.pool.key
    constrain (c.fluf_mint == pda (fluf_mint_seeds c.pool_mint))
    token_account T w.ledger c.pool_fluf_account c.fluf_mint c.pool.key
    constrain (c.pool_fluf_account == pda (pool_fluf_account_seeds c.pool_mint))
    token_account T w.ledger c.user_fluf_account c.fluf_mint c.user.key
    ok pool

  unfoldable pub deposit : UserAccounts → ℕ → World Ledger → Result FlufError (World Ledger)
  deposit c amount w = do
    pool ← check_user_accounts c w
    require_pool pool c.pool_mint c.fluf_mint
    let pool_balance = T.amount w.ledger c.pool_account
    let fluf_total_supply = T.supply w.ledger c.fluf_mint
    let amount_fluf = deposit_shares amount pool_balance fluf_total_supply
    l₁ ← called (T.transfer c.user_account c.pool_account (cpi_new c.user) amount w.ledger)
    l₂ ← called (
        T.mint_to c.fluf_mint c.user_fluf_account
          (cpi_new_with_signer (pda (pool_seeds c.pool_mint)) c.pool) amount_fluf l₁)
    ok (record w { ledger = l₂ })

  unfoldable pub withdraw : UserAccounts → World Ledger → Result FlufError (World Ledger)
  withdraw c w = do
    pool ← check_user_accounts c w
    require_pool pool c.pool_mint c.fluf_mint
    let pool_balance = T.amount w.ledger c.pool_account
    let fluf_total_supply = T.supply w.ledger c.fluf_mint
    let amount_fluf = T.amount w.ledger c.user_fluf_account
    let amount = withdraw_amount amount_fluf pool_balance fluf_total_supply
    l₁ ← called (T.burn c.fluf_mint c.user_fluf_account (cpi_new c.user) amount_fluf w.ledger)
    l₂ ← called (
        T.transfer c.pool_account c.user_account
          (cpi_new_with_signer (pda (pool_seeds c.pool_mint)) c.pool) amount l₁)
    ok (record w { ledger = l₂ })
