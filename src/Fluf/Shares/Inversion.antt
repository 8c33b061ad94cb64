-- ===== src/Fluf/Shares/Inversion.antt =====
-- What a `deposit` or a `withdraw` that succeeded went through: its checks and its two calls of
-- the token program.
use cross_fluf.Base.{ℕ, ◌≡◌, true, some, ok, arith, inl, inr, Result-cases, Option-cases}
use cross_fluf.Solana.{Pda, cpi_new, cpi_new_with_signer}
use cross_fluf.Token.{TokenProgram}
use cross_fluf.Fluf.State.{Pool, World, pool_seeds, pool_account_seeds, fluf_mint_seeds}
use cross_fluf.Fluf.Shares.{
  UserAccounts, deposit_shares, withdraw_amount, check_user_accounts, deposit, withdraw,
}

module _ {Ledger : Type 0} (T : TokenProgram Ledger) (c : UserAccounts) where
  -- The pool tokens that a `withdraw` pays out for the fluf that the user holds.
  abbrev pub payout : World Ledger → ℕ
  payout w =
      withdraw_amount (T.amount w.ledger c.user_fluf_account) (T.amount w.ledger c.pool_account)
        (T.supply w.ledger c.fluf_mint)

module _ {Ledger : Type 0} (T : TokenProgram Ledger) (pda : Pda) (c : UserAccounts) where
  -- The facts that the constraints leave behind.
  pub record Checked (w : World Ledger) (pool : Pool) : Type 0 where
    pub signed : c.user.is_signer ≡ true
    pub pool_key : c.pool.key ≡ pda (pool_seeds c.pool_mint)
    pub loaded : w.pools c.pool.key ≡ some pool
    pub pool_account_mint : T.mint_of w.ledger c.pool_account ≡ c.pool_mint
    pub pool_account_owner : T.owner_of w.ledger c.pool_account ≡ c.pool.key
    pub pool_account_key : c.pool_account ≡ pda (pool_account_seeds c.pool_mint)
    pub user_account_mint : T.mint_of w.ledger c.user_account ≡ c.pool_mint
    pub user_account_owner : T.owner_of w.ledger c.user_account ≡ c.user.key
    pub fluf_mint_authority : T.mint_authority w.ledger c.fluf_mint ≡ some c.pool.key
    pub fluf_mint_key : c.fluf_mint ≡ pda (fluf_mint_seeds c.pool_mint)
    pub user_fluf_mint : T.mint_of w.ledger c.user_fluf_account ≡ c.fluf_mint
    pub user_fluf_owner : T.owner_of w.ledger c.user_fluf_account ≡ c.user.key

  pub check-Checked :
      (w : World Ledger) (pool : Pool) → check_user_accounts T pda c w ≡ ok pool → Checked w pool
  unfolding check_user_accounts
  check-Checked w pool h = ground arith

  pub record Deposited (amount : ℕ) (w w' : World Ledger) : Type 0 where
    pub pool : Pool
    pub paid : Ledger
    pub checks : Checked w pool
    pub transfers :
        T.transfer c.user_account c.pool_account (cpi_new c.user) amount w.ledger ≡ some paid
    pub mints :
        T.mint_to c.fluf_mint c.user_fluf_account
          (cpi_new_with_signer (pda (pool_seeds c.pool_mint)) c.pool)
          (deposit_shares amount (T.amount w.ledger c.pool_account) (T.supply w.ledger c.fluf_mint))
          paid
        ≡ some w'.ledger
    pub same_pools : w'.pools ≡ w.pools
    pub same_states : w'.states ≡ w.states

  pub deposit-Deposited :
      (amount : ℕ) (w w' : World Ledger) → deposit T pda c amount w ≡ ok w' → Deposited amount w w'
  unfolding deposit
  deposit-Deposited amount w w' h = elim (Result-cases (check_user_accounts T pda c w)) [
    | inr (e, f) ↦ absurd (ground arith)
    | inl (pool, e) ↦
        elim (Option-cases
          (T.transfer c.user_account c.pool_account (cpi_new c.user) amount w.ledger)) [
            | inl f ↦ absurd (ground arith)
            | inr (l, f) ↦ record {
              pool = pool;
              paid = l;
              checks = check-Checked w pool e;
              transfers = f;
              mints = ground arith;
              same_pools = ground arith;
              same_states = ground arith;
            }
          ]
  ]

  pub record Withdrawn (w w' : World Ledger) : Type 0 where
    pub pool : Pool
    pub burned : Ledger
    pub checks : Checked w pool
    pub burns :
        T.burn c.fluf_mint c.user_fluf_account
          (cpi_new c.user)
          (T.amount w.ledger c.user_fluf_account)
          w.ledger
        ≡ some burned
    pub transfers :
        T.transfer c.pool_account c.user_account
          (cpi_new_with_signer (pda (pool_seeds c.pool_mint)) c.pool)
          (payout T c w)
          burned
        ≡ some w'.ledger
    pub same_pools : w'.pools ≡ w.pools
    pub same_states : w'.states ≡ w.states

  pub withdraw-Withdrawn : (w w' : World Ledger) → withdraw T pda c w ≡ ok w' → Withdrawn w w'
  unfolding withdraw
  withdraw-Withdrawn w w' h = elim (Result-cases (check_user_accounts T pda c w)) [
    | inr (e, f) ↦ absurd (ground arith)
    | inl (pool, e) ↦
        elim (Option-cases (
          T.burn c.fluf_mint c.user_fluf_account (cpi_new c.user)
            (T.amount w.ledger c.user_fluf_account) w.ledger)) [
              | inl f ↦ absurd (ground arith)
              | inr (l, f) ↦ record {
                pool = pool;
                burned = l;
                checks = check-Checked w pool e;
                burns = f;
                transfers = ground arith;
                same_pools = ground arith;
                same_states = ground arith;
              }
            ]
  ]
