-- ===== src/Borrower.antt =====
-- programs/borrower_sample/src/lib.rs: the sample borrower that the lending pool calls.
-- `create_accounts` only opens the borrower's token account; `handle_borrow` repays the loan and
-- the fee. The crate is outside the workspace, so what an overflow does is the parameter `mode`.
use cross_fluf.Base.{
  ℕ, ◌/◌, ◌==◌, leb, if◌then◌else◌, List, [], ◌∷◌, Result, ok, constrain, require, called, ◌>>=◌,
  ◌>>◌,
}
use cross_fluf.Base.Words.{OverflowMode, add_u64, mul_u64}
use cross_fluf.Solana.{
  Pubkey, AccountInfo, Seed, literal, address, Pda, cpi_new_with_signer, signer,
}
use cross_fluf.Token.{TokenProgram}

-- `ErrorCode`
pub data BorrowerError : Type 0 where
  insufficient_funds : BorrowerError

-- The accounts of `CreateAccounts`.
pub record CreateAccounts : Type 0 where
  pub user : AccountInfo
  pub borrower_account : Pubkey
  pub mint : Pubkey

-- The accounts of `HandleBorrow`.
pub record HandleBorrow : Type 0 where
  pub user : AccountInfo
  pub borrower_account : AccountInfo
  pub lender_account : Pubkey
  pub user_account : Pubkey
  pub mint : Pubkey

-- The seeds of the borrower's token account.
abbrev pub borrower_seeds : Pubkey → List Seed
borrower_seeds mint = literal "borrower_account" ∷ address mint ∷ []

-- `amount + amount * 25 / 1000`
unfoldable pub total_repayment : OverflowMode → ℕ → Result BorrowerError ℕ
unfolding add_u64 mul_u64
total_repayment mode amount = do
  scaled ← mul_u64 mode amount 25
  add_u64 mode amount (scaled / 1000)

module _ {Ledger : Type 0} (T : TokenProgram Ledger) (pda : Pda) where
  unfoldable pub create_accounts : CreateAccounts → Ledger → Result BorrowerError Ledger
  create_accounts c l = do
    signer c.user
    constrain (c.borrower_account == pda (borrower_seeds c.mint))
    if T.is_open l c.borrower_account
        then (do
          constrain (T.mint_of l c.borrower_account == c.mint)
          constrain (T.owner_of l c.borrower_account == c.borrower_account)
          ok l)
        else called (T.open_account c.borrower_account c.mint c.borrower_account l)

  -- The constraints of `HandleBorrow`.
  abbrev pub check_borrow : HandleBorrow → Ledger → Result BorrowerError (Unit {0})
  check_borrow c l = do
    signer c.user
    constrain (T.mint_of l c.borrower_account.key == c.mint)
    constrain (T.owner_of l c.borrower_account.key == c.borrower_account.key)
    constrain (c.borrower_account.key == pda (borrower_seeds c.mint))

  unfoldable pub handle_borrow :
      OverflowMode → HandleBorrow → ℕ → Ledger → Result BorrowerError Ledger
  handle_borrow mode c amount l = do
    check_borrow c l
    total ← total_repayment mode amount
    require (leb total (T.amount l c.borrower_account.key)) insufficient_funds
    called (
        T.transfer c.borrower_account.key c.lender_account
          (cpi_new_with_signer (pda (borrower_seeds c.mint)) c.borrower_account) total l)
