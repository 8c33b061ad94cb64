-- ===== src/Fluf/Shares/Effect.antt =====
-- What a deposit and a withdrawal that succeed do to the pool's balance, the fluf supply and the
-- user's two accounts.
use cross_fluf.Base.{ℕ, ◌+◌, ◌≤◌, ◌≡◌, ◌≢◌, sym, ap, ◌∙◌, ok, arith}
use cross_fluf.Solana.{Pda}
use cross_fluf.Token.{TokenProgram, IsTokenProgram}
use cross_fluf.Fluf.State.{Pool, World}
use cross_fluf.Fluf.Shares.{UserAccounts, deposit_shares, deposit, withdraw}
use cross_fluf.Fluf.Shares.Inversion.{Checked, deposit-Deposited, withdraw-Withdrawn, payout}

-- The user is not the pool, whose address has no private key, and fluf is not the pool's token.
pub record IsDistinct (c : UserAccounts) : Type 0 where
  pub users : c.user.key ≢ c.pool.key
  pub mints : c.fluf_mint ≢ c.pool_mint

module _ {Ledger : Type 0} (T : TokenProgram Ledger) (c : UserAccounts) where
  -- The pool's tokens and the fluf outstanding.
  abbrev pub balance : World Ledger → ℕ
  balance w = T.amount w.ledger c.pool_account

  abbrev pub shares : World Ledger → ℕ
  shares w = T.supply w.ledger c.fluf_mint

  pub record DepositEffect (a : ℕ) (w w' : World Ledger) : Type 0 where
    pub pool_gains : balance w' ≡ balance w + a
    pub issued : shares w' ≡ shares w + deposit_shares a (balance w) (shares w)
    pub user_pays : T.amount w'.ledger c.user_account + a ≡ T.amount w.ledger c.user_account
    pub user_gets :
        T.amount w'.ledger c.user_fluf_account
        ≡ T.amount w.ledger c.user_fluf_account + deposit_shares a (balance w) (shares w)

  pub record WithdrawEffect (w w' : World Ledger) : Type 0 where
    pub held : T.amount w.ledger c.user_fluf_account ≤ shares w
    pub at_hand : payout T c w ≤ balance w
    pub pool_pays : balance w' + payout T c w ≡ balance w
    pub redeemed : shares w' + T.amount w.ledger c.user_fluf_account ≡ shares w
    pub user_gets :
        T.amount w'.ledger c.user_account ≡ T.amount w.ledger c.user_account + payout T c w
    pub user_gives : T.amount w'.ledger c.user_fluf_account ≡ 0

module _ {Ledger : Type 0} (T : TokenProgram Ledger) (lawful : IsTokenProgram T) (pda : Pda)
    (c : UserAccounts) (apart : IsDistinct c) where
  -- The pool's account is not one of the user's, and the user's two differ.
  distinct_accounts :
      (w : World Ledger) (pool : Pool)
      → Checked T pda c w pool
      → (c.user_account ≢ c.pool_account)
        × (c.user_fluf_account ≢ c.pool_account)
        × (c.user_account ≢ c.user_fluf_account)
  distinct_accounts w pool k = (
    λ e. apart.users (sym k.user_account_owner ∙ ap (T.owner_of w.ledger) e ∙ k.pool_account_owner),
    λ e. apart.users (sym k.user_fluf_owner ∙ ap (T.owner_of w.ledger) e ∙ k.pool_account_owner),
    λ e. apart.mints (sym k.user_fluf_mint ∙ ap (T.mint_of w.ledger) (sym e) ∙ k.user_account_mint),
  )

  pub deposit-Effect :
      (a : ℕ) (w w' : World Ledger) → deposit T pda c a w ≡ ok w' → DepositEffect T c a w w'
  deposit-Effect a w w' h =
      let d = deposit-Deposited T pda c a w w' h in
      let t = lawful.transferred _ _ _ _ _ _ d.transfers in
      let m = lawful.minted _ _ _ _ _ _ d.mints in
      let (na, nf, nu) = distinct_accounts w d.pool d.checks in
      record {
        pool_gains = ground (arith, t.amounts c.pool_account, m.amounts c.pool_account);
        issued = ground (arith, t.supplies c.fluf_mint, m.supplies c.fluf_mint);
        user_pays = ground (arith, t.amounts c.user_account, m.amounts c.user_account);
        user_gets = ground (arith, t.amounts c.user_fluf_account, m.amounts c.user_fluf_account);
      }

  pub withdraw-Effect : (w w' : World Ledger) → withdraw T pda c w ≡ ok w' → WithdrawEffect T c w w'
  withdraw-Effect w w' h =
      let d = withdraw-Withdrawn T pda c w w' h in
      let b = lawful.burned _ _ _ _ _ _ d.burns in
      let t = lawful.transferred _ _ _ _ _ _ d.transfers in
      let (na, nf, nu) = distinct_accounts w d.pool d.checks in
      record {
        held = b.covered;
        at_hand = ground (arith, t.funded, b.amounts c.pool_account);
        pool_pays = ground (arith, t.funded, t.amounts c.pool_account, b.amounts c.pool_account);
        redeemed = ground (arith, t.supplies c.fluf_mint, b.supplies c.fluf_mint);
        user_gets = ground (arith, t.amounts c.user_account, b.amounts c.user_account);
        user_gives = ground (arith, t.amounts c.user_fluf_account, b.amounts c.user_fluf_account);
      }
