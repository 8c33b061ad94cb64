-- ===== src/Fluf/Loan.antt =====
-- `lend_and_call`: the flash loan.
pub mod Inversion
pub mod Opening
pub mod Settlement
pub mod Price
pub mod FeeAccount
pub mod Wrapping
use cross_fluf.Base.{
  ℕ, ◌*◌, ◌/◌, ◌≡◌, Bool, true, false, ◌==◌, leb, ltb, if◌then◌else◌, List, [], ◌∷◌, Result, ok,
  err, cpi, constrain, require, called, ◌>>=◌, ◌>>◌,
}
use cross_fluf.Base.Words.{OverflowMode, sub_u64, mul_u64}
use cross_fluf.Solana.{Pubkey, AccountInfo, Pda, cpi_new, cpi_new_with_signer, signer, load}
use cross_fluf.Token.{TokenProgram}
use cross_fluf.Borrower.{HandleBorrow, BorrowerError, handle_borrow}
use cross_fluf.Fluf.State.{
  FlufError, empty_pool, fees_not_paid_back, Pool, World, pool_seeds, pool_account_seeds,
  fluf_mint_seeds, fee_account_seeds, token_account, mint_controlled,
}
use cross_fluf.Fluf.Shares.{require_pool}

-- The accounts of `LendAndCall`. Of `pool_fluf_account`, `borrower_fluf_account` and
-- `user_fluf_account` it checks only that they are token accounts.
pub record LendAndCall : Type 0 where
  pub user : AccountInfo
  pub pool : AccountInfo
  pub pool_mint : Pubkey
  pub pool_account : Pubkey
  pub fluf_mint : Pubkey
  pub pool_fluf_account : Pubkey
  pub borrower_fluf_account : AccountInfo
  pub user_fluf_account : Pubkey
  pub fee_account : Pubkey

-- The accounts that are handed to `handle_borrow`.
abbrev pub borrow_accounts : LendAndCall → HandleBorrow
borrow_accounts c = record {
  user = c.user;
  borrower_account = c.borrower_fluf_account;
  lender_account = c.pool_fluf_account;
  user_account = c.user_fluf_account;
  mint = c.fluf_mint;
}

-- An error of the called program.
abbrev pub called_program {ℓ} : {A : Type ℓ} → Result BorrowerError A → Result FlufError A
called_program (ok a) = ok a
called_program (err e) = err cpi

module _ {Ledger : Type 0} (T : TokenProgram Ledger) (pda : Pda) where
  -- The constraint `init_if_needed` of the fee account.
  abbrev pub open_fee_account : LendAndCall → Ledger → Result FlufError Ledger
  open_fee_account c l =
      if T.is_open l c.fee_account
      then token_account T l c.fee_account c.fluf_mint c.pool.key >> ok l
      else called (T.open_account c.fee_account c.fluf_mint c.pool.key l)

  -- The constraints of `LendAndCall`, with the ledger after them.
  unfoldable pub check_loan : LendAndCall → World Ledger → Result FlufError (Pool × Ledger)
  check_loan c w = do
    signer c.user
    constrain (c.pool.key == pda (pool_seeds c.pool_mint))
    pool ← load (w.pools c.pool.key)
    constrain (T.is_mint w.ledger c.pool_mint)
    token_account T w.ledger c.pool_account c.pool_mint c.pool.key
    constrain (c.pool_account == pda (pool_account_seeds c.pool_mint))
    mint_controlled T w.ledger c.fluf_mint c.pool.key
    constrain (c.fluf_mint == pda (fluf_mint_seeds c.pool_mint))
    constrain (T.is_open w.ledger c.pool_fluf_account)
    constrain (T.is_open w.ledger c.borrower_fluf_account.key)
    constrain (T.is_open w.ledger c.user_fluf_account)
    constrain (c.fee_account == pda (fee_account_seeds c.pool_mint))
    l ← open_fee_account c w.ledger
    ok (pool, l)

  module _ (mode : OverflowMode) where
    -- The part after the call: the check of the repayment, the protocol's fee, and the burn.
    unfoldable pub settle : LendAndCall → ℕ → Ledger → Result FlufError Ledger
    settle c amount l = do
      let repaid = T.amount l c.pool_fluf_account
      scaled ← mul_u64 mode amount 1025
      require (leb (scaled / 1000) repaid) fees_not_paid_back
      fees ← sub_u64 mode repaid amount
      let fee_amount = fees / 200
      amount_to_burn ← sub_u64 mode repaid fee_amount
      l₁ ← called (
          T.transfer c.pool_fluf_account c.fee_account
            (cpi_new_with_signer (pda (pool_seeds c.pool_mint)) c.pool) fee_amount l)
      called (
          T.burn c.fluf_mint c.pool_fluf_account
            (cpi_new_with_signer (pda (pool_seeds c.pool_mint)) c.pool) amount_to_burn l₁)

  unfoldable pub lend_and_call :
      Pda → OverflowMode → LendAndCall → ℕ → World Ledger → Result FlufError (World Ledger)
  lend_and_call borrower_pda mode c amount w = do
    (pool, l₀) ← check_loan c w
    require_pool pool c.pool_mint c.fluf_mint
    require (ltb 0 (T.amount w.ledger c.pool_account)) empty_pool
    l₁ ← called (
        T.mint_to c.fluf_mint c.borrower_fluf_account.key
          (cpi_new_with_signer (pda (pool_seeds c.pool_mint)) c.pool) amount l₀)
    l₂ ← called_program (handle_borrow T borrower_pda mode (borrow_accounts c) amount l₁)
    l₃ ← settle mode c amount l₂
    ok (record w { ledger = l₃ })
