-- ===== src/Fluf/Loan/Settlement.antt =====
-- The end of a loan, `settle`, in a build that checks for overflow: what must have been repaid, and
-- what becomes of it.
use cross_fluf.Base.{
  err, custom, ◌↔◌, ℕ, ◌-◌, ◌*◌, ◌/◌, ◌≤◌, ◌<◌, ◌≡◌, some, ok, arith, inl, inr, Option-cases,
}
use cross_fluf.Base.Words.{checked, sub_u64, mul_u64, add_u64, u64_mod}
use cross_fluf.Solana.{Pda, cpi_new_with_signer}
use cross_fluf.Token.{TokenProgram}
use cross_fluf.Borrower.{total_repayment}
use cross_fluf.Fluf.State.{pool_seeds, fees_not_paid_back}
use cross_fluf.Fluf.Loan.{LendAndCall, settle}

module _ {Ledger : Type 0} (T : TokenProgram Ledger) (pda : Pda) (c : LendAndCall) where
  -- A settlement that succeeded.
  pub record Settled (amount : ℕ) (l l' : Ledger) : Type 0 where
    pub middle : Ledger
    pub in_range : amount * 1025 < u64_mod
    pub repaid_enough : amount * 1025 / 1000 ≤ T.amount l c.pool_fluf_account
    pub repaid_loan : amount ≤ T.amount l c.pool_fluf_account
    pub transfers :
        T.transfer c.pool_fluf_account c.fee_account
          (cpi_new_with_signer (pda (pool_seeds c.pool_mint)) c.pool)
          ((T.amount l c.pool_fluf_account - amount) / 200)
          l
        ≡ some middle
    pub burns :
        T.burn c.fluf_mint c.pool_fluf_account
          (cpi_new_with_signer (pda (pool_seeds c.pool_mint)) c.pool)
          (T.amount l c.pool_fluf_account - (T.amount l c.pool_fluf_account - amount) / 200)
          middle
        ≡ some l'

  pub settle-Settled :
      (amount : ℕ) (l l' : Ledger) → settle T pda checked c amount l ≡ ok l' → Settled amount l l'
  unfolding settle mul_u64 sub_u64
  settle-Settled amount l l' h =
      elim (Option-cases (
        T.transfer c.pool_fluf_account c.fee_account
          (cpi_new_with_signer (pda (pool_seeds c.pool_mint)) c.pool)
          ((T.amount l c.pool_fluf_account - amount) / 200) l)) [
            | inl f ↦ absurd (ground arith)
            | inr (m, f) ↦ record {
              middle = m;
              in_range = ground arith;
              repaid_enough = ground arith;
              repaid_loan = ground arith;
              transfers = f;
              burns = ground arith;
            }
          ]

-- In a build that checks for overflow, for a loan whose product with 1025 stays within 2 ^ 64, what
-- the sample borrower repays is what the pool asks for, no less and no more: the end of the loan
-- refuses for fees not paid back exactly if the pool's fluf account holds less than that.
pub total_repayment_suffices :
    {Ledger : Type 0} (T : TokenProgram Ledger) (pda : Pda) (c : LendAndCall) (amount : ℕ)
    (l : Ledger)
    → amount * 1025 < u64_mod
    → (total : ℕ) × (total_repayment checked amount ≡ ok total)
      × ((settle T pda checked c amount l ≡ err (custom fees_not_paid_back))
          ↔ (T.amount l c.pool_fluf_account < total))
unfolding total_repayment add_u64 mul_u64 settle sub_u64
total_repayment_suffices T pda c amount l h =
    (amount * 1025 / 1000, ground arith, (λ e. ground arith, λ e. ground arith))
