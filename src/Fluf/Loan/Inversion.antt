-- ===== src/Fluf/Loan/Inversion.antt =====
-- What a flash loan that succeeded went through.
use cross_fluf.Base.{ℕ, ◌<◌, ◌≡◌, true, some, ok, arith, inl, inr, Option-cases, Result-cases}
use cross_fluf.Base.Words.{OverflowMode}
use cross_fluf.Solana.{Pda, cpi_new_with_signer}
use cross_fluf.Token.{TokenProgram}
use cross_fluf.Borrower.{borrower_seeds, handle_borrow, total_repayment}
use cross_fluf.Fluf.State.{Pool, World, pool_seeds}
use cross_fluf.Fluf.Loan.{
  LendAndCall, borrow_accounts, check_loan, open_fee_account, settle, lend_and_call,
}

module _ {Ledger : Type 0} (T : TokenProgram Ledger) (pda borrower_pda : Pda) (mode : OverflowMode)
    (c : LendAndCall) where
  pub record Lent (amount : ℕ) (w w' : World Ledger) : Type 0 where
    pub pool : Pool
    -- after the constraints, the mint and the call of the borrower
    pub ready : Ledger
    pub minted : Ledger
    pub repaid : Ledger
    pub checks : check_loan T pda c w ≡ ok (pool, ready)
    pub stocked : 0 < T.amount w.ledger c.pool_account
    pub mints :
        T.mint_to c.fluf_mint c.borrower_fluf_account.key
          (cpi_new_with_signer (pda (pool_seeds c.pool_mint)) c.pool)
          amount
          ready
        ≡ some minted
    pub borrows : handle_borrow T borrower_pda mode (borrow_accounts c) amount minted ≡ ok repaid
    pub settles : settle T pda mode c amount repaid ≡ ok w'.ledger
    pub same_pools : w'.pools ≡ w.pools
    pub same_states : w'.states ≡ w.states

  pub lend-Lent :
      (amount : ℕ) (w w' : World Ledger)
      → lend_and_call T pda borrower_pda mode c amount w ≡ ok w'
      → Lent amount w w'
  unfolding lend_and_call
  lend-Lent amount w w' h = elim (Result-cases (check_loan T pda c w)) [
    | inr (e, f) ↦ absurd (ground arith)
    | inl ((pool, l₀), e) ↦
        elim (Option-cases (
          T.mint_to c.fluf_mint c.borrower_fluf_account.key
            (cpi_new_with_signer (pda (pool_seeds c.pool_mint)) c.pool) amount l₀)) [
              | inl f ↦ absurd (ground arith)
              | inr (l₁, f) ↦
                  elim (Result-cases
                    (handle_borrow T borrower_pda mode (borrow_accounts c) amount l₁)) [
                      | inr (g, k) ↦ absurd (ground arith)
                      | inl (l₂, g) ↦ record {
                        pool = pool;
                        ready = l₀;
                        minted = l₁;
                        repaid = l₂;
                        checks = e;
                        stocked = ground arith;
                        mints = f;
                        borrows = g;
                        settles = ground arith;
                        same_pools = ground arith;
                        same_states = ground arith;
                      }
                    ]
            ]
  ]

  -- The repayment of the sample borrower.
  pub record Borrowed (amount : ℕ) (l l' : Ledger) : Type 0 where
    pub total : ℕ
    pub sum : total_repayment mode amount ≡ ok total
    pub transfers :
        T.transfer c.borrower_fluf_account.key c.pool_fluf_account
          (cpi_new_with_signer (borrower_pda (borrower_seeds c.fluf_mint)) c.borrower_fluf_account)
          total
          l
        ≡ some l'
    pub owner : T.owner_of l c.borrower_fluf_account.key ≡ c.borrower_fluf_account.key

  pub borrow-Borrowed :
      (amount : ℕ) (l l' : Ledger)
      → handle_borrow T borrower_pda mode (borrow_accounts c) amount l ≡ ok l'
      → Borrowed amount l l'
  unfolding handle_borrow
  borrow-Borrowed amount l l' h = elim (Result-cases (total_repayment mode amount)) [
    | inr (e, f) ↦ absurd (ground arith)
    | inl (total, e) ↦ record {
      total = total;
      sum = e;
      transfers = ground arith;
      owner = ground arith;
    }
  ]

module _ {Ledger : Type 0} (T : TokenProgram Ledger) (pda : Pda) (c : LendAndCall) where
  -- The constraints on the accounts of a loan, with the ledger that they leave.
  pub record Ready (w : World Ledger) (pool : Pool) (l : Ledger) : Type 0 where
    pub signed : c.user.is_signer ≡ true
    pub loaded : w.pools c.pool.key ≡ some pool
    pub pool_account_open : T.is_open w.ledger c.pool_account ≡ true
    pub pool_account_mint : T.mint_of w.ledger c.pool_account ≡ c.pool_mint
    pub pool_account_owner : T.owner_of w.ledger c.pool_account ≡ c.pool.key
    pub opens : open_fee_account T pda c w.ledger ≡ ok l

  pub check_loan-Ready :
      (w : World Ledger) (pool : Pool) (l : Ledger)
      → check_loan T pda c w ≡ ok (pool, l)
      → Ready w pool l
  unfolding check_loan
  check_loan-Ready w pool l h = ground arith
