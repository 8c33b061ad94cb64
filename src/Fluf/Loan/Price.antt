-- ===== src/Fluf/Loan/Price.antt =====
-- A flash loan leaves the pool's tokens alone and burns more fluf than it minted.
use cross_fluf.Base.{ℕ, ◌+◌, ◌-◌, ◌*◌, ◌/◌, ◌≤◌, ◌≡◌, ◌≢◌, sym, ◌∙◌, ok, arith}
use cross_fluf.Base.Words.{checked}
use cross_fluf.Solana.{Pda}
use cross_fluf.Token.{TokenProgram, IsTokenProgram}
use cross_fluf.Fluf.State.{World}
use cross_fluf.Fluf.Loan.{LendAndCall, lend_and_call}
use cross_fluf.Fluf.Loan.Inversion.{lend-Lent, borrow-Borrowed, check_loan-Ready}
use cross_fluf.Fluf.Loan.Opening.{Ready-Opening, other_mint}
use cross_fluf.Fluf.Loan.Settlement.{settle-Settled}

module _ {Ledger : Type 0} (T : TokenProgram Ledger) (lawful : IsTokenProgram T)
    (pda borrower_pda : Pda) (c : LendAndCall) (distinct : c.fluf_mint ≢ c.pool_mint) where
  -- In a build that checks for overflow, a flash loan that succeeds leaves the pool's tokens as they
  -- were. Fluf worth the fees, at least 2.5% of the loan rounded down, was handed in; what is not
  -- the protocol's share of it, one part in 200, is gone from the fluf outstanding.
  pub lend_price :
      (a : ℕ) (w w' : World Ledger)
      → lend_and_call T pda borrower_pda checked c a w ≡ ok w'
      → (T.amount w'.ledger c.pool_account ≡ T.amount w.ledger c.pool_account)
        × ((fees : ℕ) × (a * 25 / 1000 ≤ fees)
            × (T.supply w'.ledger c.fluf_mint + (fees - fees / 200)
                ≡ T.supply w.ledger c.fluf_mint))
  lend_price a w w' h =
      let d = lend-Lent T pda borrower_pda checked c a w w' h in
      let o =
        Ready-Opening T lawful pda c distinct w d.pool d.ready
          (check_loan-Ready T pda c w d.pool d.ready d.checks) in
      let m = lawful.minted _ _ _ _ _ _ d.mints in
      let b = borrow-Borrowed T pda borrower_pda checked c a d.minted d.repaid d.borrows in
      let p = lawful.transferred _ _ _ _ _ _ b.transfers in
      let s = settle-Settled T pda c a d.repaid w'.ledger d.settles in
      let t = lawful.transferred _ _ _ _ _ _ s.transfers in
      let g = lawful.burned _ _ _ _ _ _ s.burns in
      let in_repaid : T.mint_of d.repaid c.pool_account ≡ c.pool_mint =
        p.mints c.pool_account ∙ m.mints c.pool_account ∙ o.mint_same in
      let returned : T.mint_of d.repaid c.pool_fluf_account ≡ c.fluf_mint =
        sym (t.mints c.pool_fluf_account) ∙ g.same_mint in
      let x =
        other_mint T lawful pda c distinct d.ready c.borrower_fluf_account.key o.mint_same
          m.same_mint in
      let y = other_mint T lawful pda c distinct d.repaid c.pool_fluf_account in_repaid returned in
      let z =
        other_mint T lawful pda c distinct d.repaid c.fee_account in_repaid
          (sym t.same_mint ∙ returned) in
      let k = c.pool_account in
      (
        ground (arith, o.amount_same, m.amounts k, p.amounts k, t.amounts k, g.amounts k),
        (
          T.amount d.repaid c.pool_fluf_account - a,
          omega (arith, s.repaid_enough),
          ground (
            arith,
            o.supply_same,
            m.supplies c.fluf_mint,
            p.supplies c.fluf_mint,
            t.supplies c.fluf_mint,
            g.supplies c.fluf_mint,
            s.repaid_loan,
          ),
        ),
      )
