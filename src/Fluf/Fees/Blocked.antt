-- ===== src/Fluf/Fees/Blocked.antt =====
-- `withdraw_fees` builds its transfer with `CpiContext::new`, so the pool does not sign for it.
use cross_fluf.Base.{◌≡◌, ◌≢◌, false, ok, arith, inl, inr, Option-cases}
use cross_fluf.Solana.{Pda, cpi_new}
use cross_fluf.Token.{TokenProgram, IsTokenProgram}
use cross_fluf.Fluf.State.{World}
use cross_fluf.Fluf.Fees.{WithdrawFees, withdraw_fees}

module _ {Ledger : Type 0} (T : TokenProgram Ledger) (lawful : IsTokenProgram T) (pda : Pda) where
  -- Where the pool's address is not itself a signer of the instruction, `withdraw_fees` never
  -- succeeds, whoever calls it and whatever the fee account holds.
  pub withdraw_fees_never :
      (c : WithdrawFees) (w w' : World Ledger)
      → c.pool.is_signer ≡ false
      → withdraw_fees T pda c w ≢ ok w'
  unfolding withdraw_fees
  withdraw_fees_never c w w' unsigned h =
      elim (Option-cases (
        T.transfer c.fee_account c.collector_account (cpi_new c.pool)
          (T.amount w.ledger c.fee_account) w.ledger)) [
            | inl f ↦ ground arith
            | inr (l, f) ↦ ground (arith, (lawful.transferred _ _ _ _ _ _ f).signed)
          ]
