-- ===== src/Fluf/Loan/FeeAccount.antt =====
-- What a loan leaves in the protocol's fee account. `LendAndCall` does not fix
-- `pool_fluf_account`, so a caller may pass the fee account in its place.
use cross_fluf.Base.{ℕ, ◌+◌, ◌-◌, ◌/◌, ◌≡◌, ◌≢◌, ap, ok, arith}
use cross_fluf.Base.Words.{checked}
use cross_fluf.Solana.{Pda}
use cross_fluf.Token.{TokenProgram, IsTokenProgram}
use cross_fluf.Fluf.Loan.{LendAndCall, settle}
use cross_fluf.Fluf.Loan.Settlement.{settle-Settled}

module _ {Ledger : Type 0} (T : TokenProgram Ledger) (lawful : IsTokenProgram T) (pda : Pda)
    (c : LendAndCall) where
  -- With the pool's own fluf account, which is not the fee account, the end of a loan in a build
  -- that checks for overflow empties that account and adds a 200th of the fees to the fee account.
  pub settle_collects :
      (a : ℕ) (l l' : Ledger)
      → c.pool_fluf_account ≢ c.fee_account
      → settle T pda checked c a l ≡ ok l'
      → (T.amount l' c.pool_fluf_account ≡ 0)
        × (T.amount l' c.fee_account
            ≡ T.amount l c.fee_account + (T.amount l c.pool_fluf_account - a) / 200)
  settle_collects a l l' apart h =
      let s = settle-Settled T pda c a l l' h in
      let t = lawful.transferred _ _ _ _ _ _ s.transfers in
      let g = lawful.burned _ _ _ _ _ _ s.burns in
      let k = c.pool_fluf_account in
      let f = c.fee_account in
      (ground (arith, t.amounts k, g.amounts k), ground (arith, t.amounts f, g.amounts f))

  -- With the fee account passed as the pool's fluf account, the end of a loan burns what the
  -- protocol had collected: a 200th of the part above the loan is all that is left.
  pub settle_burns_fees :
      (a : ℕ) (l l' : Ledger)
      → c.pool_fluf_account ≡ c.fee_account
      → settle T pda checked c a l ≡ ok l'
      → T.amount l' c.fee_account ≡ (T.amount l c.fee_account - a) / 200
  settle_burns_fees a l l' same h =
      let s = settle-Settled T pda c a l l' h in
      let t = lawful.transferred _ _ _ _ _ _ s.transfers in
      let g = lawful.burned _ _ _ _ _ _ s.burns in
      let f = c.fee_account in ground (arith, t.amounts f, g.amounts f, ap (T.amount l) same)
