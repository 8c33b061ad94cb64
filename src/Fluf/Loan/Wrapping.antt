-- ===== src/Fluf/Loan/Wrapping.antt =====
-- A loan in a build without overflow checks, which is cargo's default for this crate and the
-- borrower's: `amount * 1025`, the fees and the borrower's repayment wrap.
use cross_fluf.Base.{
  sym, ◌∙◌, ℕ, ◌+◌, ◌-◌, ◌*◌, ◌/◌, ◌%◌, ◌≤◌, ◌<◌, ◌≡◌, ◌≢◌, some, ok, arith, inl, inr, Option-cases,
}
use cross_fluf.Base.Words.{wrapping, sub_u64, mul_u64, add_u64, u64_mod}
use cross_fluf.Solana.{Pda, cpi_new_with_signer}
use cross_fluf.Token.{TokenProgram, IsTokenProgram}
use cross_fluf.Borrower.{total_repayment}
use cross_fluf.Fluf.State.{World, pool_seeds}
use cross_fluf.Fluf.Loan.{LendAndCall, lend_and_call, settle}
use cross_fluf.Fluf.Loan.Inversion.{lend-Lent, borrow-Borrowed, check_loan-Ready}
use cross_fluf.Fluf.Loan.Opening.{Ready-Opening}

-- What the sample borrower repays for a loan of 2 ^ 64 - k.
abbrev pub wrapped_total : ℕ → ℕ
wrapped_total k = (u64_mod - k * 1025) / 1000

wrapped_repayment :
    (k total : ℕ)
    → 0 < k
    → k * 1025 ≤ u64_mod
    → total_repayment wrapping (u64_mod - k) ≡ ok total
    → total ≡ wrapped_total k
unfolding total_repayment mul_u64 add_u64
wrapped_repayment k total pos small h =
    let scaled : (u64_mod - k) * 25 % u64_mod ≡ u64_mod - k * 25 = omega arith in
    let sum : (u64_mod - k + (u64_mod - k * 25) / 1000) % u64_mod ≡ wrapped_total k = omega arith in
    ground (arith, scaled, sum)

module _ {Ledger : Type 0} (T : TokenProgram Ledger) (pda : Pda) (c : LendAndCall) where
  -- The end of a loan of 2 ^ 64 - k that succeeded, with the fee as it wraps.
  settle-wrapped :
      (k : ℕ) (l l' : Ledger)
      → 0 < k
      → T.amount l c.pool_fluf_account + k < u64_mod
      → settle T pda wrapping c (u64_mod - k) l ≡ ok l'
      → (m : Ledger) × (T.transfer c.pool_fluf_account c.fee_account
            (cpi_new_with_signer (pda (pool_seeds c.pool_mint)) c.pool)
            ((T.amount l c.pool_fluf_account + k) / 200)
            l
          ≡ some m)
        × (T.burn c.fluf_mint c.pool_fluf_account
              (cpi_new_with_signer (pda (pool_seeds c.pool_mint)) c.pool)
              ((T.amount l c.pool_fluf_account
                  + u64_mod
                  - (T.amount l c.pool_fluf_account + k) / 200)
                % u64_mod)
              m
            ≡ some l')
  unfolding settle mul_u64 sub_u64
  settle-wrapped k l l' pos fits h =
      let repaid = T.amount l c.pool_fluf_account in
      let fees : (repaid + u64_mod - (u64_mod - k)) % u64_mod ≡ repaid + k = omega arith in
      elim (Option-cases (
        T.transfer c.pool_fluf_account c.fee_account
          (cpi_new_with_signer (pda (pool_seeds c.pool_mint)) c.pool) ((repaid + k) / 200) l)) [
            | inl f ↦ absurd (ground (arith, fees))
            | inr (m, f) ↦ (m, f, ground (arith, fees))
          ]

module _ {Ledger : Type 0} (T : TokenProgram Ledger) (lawful : IsTokenProgram T)
    (pda borrower_pda : Pda) (c : LendAndCall) (distinct : c.fluf_mint ≢ c.pool_mint) where
  -- In a build without overflow checks, a loan of 2 ^ 64 - k to the sample borrower, where k is not
  -- zero and 1025 times k is at most 2 ^ 64, that succeeds is not paid back: what is repaid and what
  -- the pool asks for have wrapped to less than a thousandth of 2 ^ 64. Only that, less the
  -- protocol's share, is burned, and the fluf outstanding grows by all of the rest. Here fluf is not
  -- the pool's token, and the pool's fluf account is empty before the loan, and neither the
  -- borrower's account nor the fee account.
  pub wrapping_loan_inflates :
      (k : ℕ) (w w' : World Ledger)
      → 0 < k
      → k * 1025 ≤ u64_mod
      → c.borrower_fluf_account.key ≢ c.pool_fluf_account
      → c.fee_account ≢ c.pool_fluf_account
      → T.amount w.ledger c.pool_fluf_account ≡ 0
      → lend_and_call T pda borrower_pda wrapping c (u64_mod - k) w ≡ ok w'
      → (T.supply w'.ledger c.fluf_mint + (wrapped_total k - (wrapped_total k + k) / 200)
          ≡ T.supply w.ledger c.fluf_mint + (u64_mod - k))
        × (wrapped_total k * 1000 < u64_mod)
        × (T.supply w.ledger c.fluf_mint < T.supply w'.ledger c.fluf_mint)
  wrapping_loan_inflates k w w' pos small borrower fee_apart empty h =
      let a = u64_mod - k in
      let x = c.pool_fluf_account in
      let d = lend-Lent T pda borrower_pda wrapping c a w w' h in
      let ready = check_loan-Ready T pda c w d.pool d.ready d.checks in
      let o = Ready-Opening T lawful pda c distinct w d.pool d.ready ready in
      let m = lawful.minted _ _ _ _ _ _ d.mints in
      let b = borrow-Borrowed T pda borrower_pda wrapping c a d.minted d.repaid d.borrows in
      let p = lawful.transferred _ _ _ _ _ _ b.transfers in
      let total : b.total ≡ wrapped_total k = wrapped_repayment k b.total pos small b.sum in
      let start : T.amount d.ready x ≡ 0 = o.elsewhere x (λ e. fee_apart (sym e)) ∙ empty in
      let repaid : T.amount d.repaid x ≡ wrapped_total k =
        ground (arith, p.amounts x, m.amounts x, start, total) in
      let (l, e, f) =
        settle-wrapped T pda c k d.repaid w'.ledger pos (omega (arith, repaid)) d.settles in
      let t = lawful.transferred _ _ _ _ _ _ e in
      let g = lawful.burned _ _ _ _ _ _ f in
      let supply : T.supply w'.ledger c.fluf_mint + (wrapped_total k - (wrapped_total k + k) / 200)
          ≡ T.supply w.ledger c.fluf_mint + a =
        ground (
          arith,
          repaid,
          o.supply_same,
          m.supplies c.fluf_mint,
          p.supplies c.fluf_mint,
          t.supplies c.fluf_mint,
          g.supplies c.fluf_mint,
          t.funded,
        ) in
      (supply, omega arith, omega (arith, supply))
