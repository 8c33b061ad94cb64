-- ===== src/Fluf/Pools/Opened.antt =====
-- What a new pool is.
use cross_fluf.Base.{ℕ, ◌≡◌, ◌≢◌, none, some, ok, inl, inr, arith, Option-cases}
use cross_fluf.Solana.{Pda}
use cross_fluf.Token.{TokenProgram, IsTokenProgram, Opened, MintOpened}
use cross_fluf.Fluf.State.{World}
use cross_fluf.Fluf.Pools.{CreatePool, open_pool, create_pool}

module _ {Ledger : Type 0} (T : TokenProgram Ledger) (lawful : IsTokenProgram T) (pda : Pda) where
  record Opening (c : CreatePool) (d : ℕ) (l l' : Ledger) : Type 0 where
    after_account : Ledger
    after_mint : Ledger
    account : Opened T c.pool_account c.pool_mint c.pool l after_account
    mint : MintOpened T c.fluf_mint d c.pool after_account after_mint
    fluf_account : Opened T c.pool_fluf_account c.fluf_mint c.pool after_mint l'

  open_pool-Opening :
      (c : CreatePool) (d : ℕ) (l l' : Ledger) → open_pool T pda c d l ≡ some l' → Opening c d l l'
  unfolding open_pool
  open_pool-Opening c d l l' h =
      elim (Option-cases (T.open_account c.pool_account c.pool_mint c.pool l)) [
        | inl e ↦ absurd (ground arith)
        | inr (l₁, e) ↦ elim (Option-cases (T.open_mint c.fluf_mint d c.pool l₁)) [
          | inl f ↦ absurd (ground arith)
          | inr (l₂, f) ↦ record {
            after_account = l₁;
            after_mint = l₂;
            account = lawful.opened _ _ _ _ _ e;
            mint = lawful.mint_opened _ _ _ _ _ f;
            fluf_account = lawful.opened _ _ _ _ _ (ground arith);
          }
        ]
      ]

  -- Where the two token accounts are at different addresses, a pool that was created is new, and its
  -- accounts are as deposits need them: it holds no tokens, there is no fluf, and the pool owns both
  -- token accounts and is the authority of the fluf mint. The number of decimals that was passed is
  -- that of the pool's token.
  pub create_pool_opens :
      (c : CreatePool) (d : ℕ) (w w' : World Ledger)
      → c.pool_account ≢ c.pool_fluf_account
      → create_pool T pda c d w ≡ ok w'
      → (w.pools c.pool ≡ none)
        × (w'.pools c.pool ≡ some (record { pool_mint = c.pool_mint; fluf_mint = c.fluf_mint }))
        × (T.decimals w.ledger c.pool_mint ≡ d)
        × (T.amount w'.ledger c.pool_account ≡ 0)
        × (T.supply w'.ledger c.fluf_mint ≡ 0)
        × (T.mint_authority w'.ledger c.fluf_mint ≡ some c.pool)
        × (T.mint_of w'.ledger c.pool_account ≡ c.pool_mint)
        × (T.owner_of w'.ledger c.pool_account ≡ c.pool)
        × (T.mint_of w'.ledger c.pool_fluf_account ≡ c.fluf_mint)
        × (T.owner_of w'.ledger c.pool_fluf_account ≡ c.pool)
  unfolding create_pool
  create_pool_opens c d w w' apart h = elim (Option-cases (open_pool T pda c d w.ledger)) [
    | inl e ↦ absurd (ground arith)
    | inr (l, e) ↦
        let o = open_pool-Opening c d w.ledger l e in
        let a = o.account in
        let m = o.mint in
        let f = o.fluf_account in
        let k = c.pool_account in
        (
          ground arith,
          ground arith,
          ground arith,
          ground (arith, a.empty, m.amounts k, f.amounts k apart),
          ground (arith, m.empty, f.supplies c.fluf_mint),
          ground (arith, m.authority_set, f.authorities c.fluf_mint),
          ground (arith, a.mint_set, m.mints k, f.mints k apart),
          ground (arith, a.owner_set, m.owners k, f.owners k apart),
          ground (arith, f.mint_set),
          ground (arith, f.owner_set),
        )
  ]
