-- ===== src/Fluf/Loan/Opening.antt =====
-- The ledger after the constraints of a loan, which open the fee account if there is none.
use cross_fluf.Base.{◌≡◌, ◌≢◌, sym, ap, ◌∙◌, arith, inl, inr, Bool-cases, Option-cases}
use cross_fluf.Solana.{Pubkey, Pda}
use cross_fluf.Token.{TokenProgram, IsTokenProgram}
use cross_fluf.Fluf.State.{Pool, World}
use cross_fluf.Fluf.Loan.{LendAndCall}
use cross_fluf.Fluf.Loan.Inversion.{Ready}

module _ {Ledger : Type 0} (T : TokenProgram Ledger) (lawful : IsTokenProgram T) (pda : Pda)
    (c : LendAndCall) (distinct : c.fluf_mint ≢ c.pool_mint) where
  -- Opening the fee account, if it has to be opened, leaves the pool's account alone.
  pub record Opening (w : World Ledger) (l : Ledger) : Type 0 where
    pub amount_same : T.amount l c.pool_account ≡ T.amount w.ledger c.pool_account
    pub elsewhere : (k : Pubkey) → k ≢ c.fee_account → T.amount l k ≡ T.amount w.ledger k
    pub mint_same : T.mint_of l c.pool_account ≡ c.pool_mint
    pub supply_same : T.supply l c.fluf_mint ≡ T.supply w.ledger c.fluf_mint

  pub Ready-Opening :
      (w : World Ledger) (pool : Pool) (l : Ledger) → Ready T pda c w pool l → Opening w l
  Ready-Opening w pool l r = elim (Bool-cases (T.is_open w.ledger c.fee_account)) [
    | inl present ↦ ground arith
    | inr absent ↦
        elim (Option-cases (T.open_account c.fee_account c.fluf_mint c.pool.key w.ledger)) [
          | inl f ↦ absurd (ground arith)
          | inr (l', f) ↦
              let o = lawful.opened _ _ _ _ _ f in
              let same : l ≡ l' = ground arith in
              let apart : c.pool_account ≢ c.fee_account =
                λ e. ground (arith, o.was_free, r.pool_account_open, ap (T.is_open w.ledger) e) in
              rw same (record {
                amount_same = o.amounts c.pool_account apart;
                elsewhere = o.amounts;
                mint_same = o.mints c.pool_account apart ∙ r.pool_account_mint;
                supply_same = o.supplies c.fluf_mint;
              })
        ]
  ]

  -- An account of fluf is not the pool's account.
  pub other_mint :
      (l : Ledger) (k : Pubkey)
      → T.mint_of l c.pool_account ≡ c.pool_mint
      → T.mint_of l k ≡ c.fluf_mint
      → c.pool_account ≢ k
  other_mint l k e f q = distinct (sym f ∙ ap (T.mint_of l) (sym q) ∙ e)
