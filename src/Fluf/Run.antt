-- ===== src/Fluf/Run.antt =====
-- One pool over any sequence of instructions and outside events.
use cross_fluf.Base.{ℕ, ◌≤◌, ◌≡◌, ◌≢◌, ok, arith}
use cross_fluf.Base.Words.{checked}
use cross_fluf.Solana.{Pubkey, Pda}
use cross_fluf.Token.{TokenProgram, IsTokenProgram}
use cross_fluf.Fluf.State.{World}
use cross_fluf.Fluf.Shares.{UserAccounts, deposit, withdraw}
use cross_fluf.Fluf.Shares.Effect.{IsDistinct}
use cross_fluf.Fluf.Shares.Price.{deposit_backed, withdraw_backed}
use cross_fluf.Fluf.Loan.{LendAndCall, lend_and_call}
use cross_fluf.Fluf.Loan.Price.{lend_price}

module _ {Ledger : Type 0} (T : TokenProgram Ledger) (pda borrower_pda : Pda)
    (pool_account fluf_mint : Pubkey) where
  abbrev held : World Ledger → ℕ
  held w = T.amount w.ledger pool_account

  abbrev outstanding : World Ledger → ℕ
  outstanding w = T.supply w.ledger fluf_mint

  -- What can happen to the pool: an instruction of the program that succeeds, on this pool, or an
  -- event outside of it, by which the pool's account can only gain (the program alone signs for it)
  -- and the fluf outstanding can only fall (its mint authority is the pool).
  pub data Step (w w' : World Ledger) : Type 0 where
    deposits :
        (c : UserAccounts) (a : ℕ)
        → c.pool_account ≡ pool_account
        → c.fluf_mint ≡ fluf_mint
        → IsDistinct c
        → deposit T pda c a w ≡ ok w'
        → Step w w'
    withdraws :
        (c : UserAccounts)
        → c.pool_account ≡ pool_account
        → c.fluf_mint ≡ fluf_mint
        → IsDistinct c
        → withdraw T pda c w ≡ ok w'
        → Step w w'
    lends :
        (c : LendAndCall) (a : ℕ)
        → c.pool_account ≡ pool_account
        → c.fluf_mint ≡ fluf_mint
        → c.fluf_mint ≢ c.pool_mint
        → lend_and_call T pda borrower_pda checked c a w ≡ ok w'
        → Step w w'
    outside : held w ≤ held w' → outstanding w' ≤ outstanding w → Step w w'

  pub data Reach (w : World Ledger) : World Ledger → Type 0 where
    here : Reach w w
    next : {u v : World Ledger} → Reach w u → Step u v → Reach w v

  module _ (lawful : IsTokenProgram T) where
    abbrev pub IsBacked : World Ledger → Type 0
    IsBacked w = outstanding w ≤ held w

    Step-IsBacked : (w w' : World Ledger) → Step w w' → IsBacked w → IsBacked w'
    Step-IsBacked w w' (deposits c a e f apart h) b =
        rw (e, f) at (deposit_backed T lawful pda c apart a w w' (rw (e, f) b) h)
    Step-IsBacked w w' (withdraws c e f apart h) b =
        rw (e, f) at (withdraw_backed T lawful pda c apart w w' (rw (e, f) b) h)
    Step-IsBacked w w' (lends c a e f apart h) b =
        let g = lend_price T lawful pda borrower_pda c apart a w w' h in
        let held_same : held w' ≡ held w = rw (e) at g.0 in
        let less : outstanding w' ≤ outstanding w = rw (← f) (omega (arith, g.1.2)) in
        omega (arith, held_same, less)
    Step-IsBacked w w' (outside more less) b = omega arith

    -- From a state in which every fluf is backed by a token of the pool, such as that of a new pool,
    -- every state that is reached by deposits, withdrawals and checked loans of any users, in any
    -- order, with gifts to the pool and burning of fluf in between, has every fluf backed by a token.
    pub run-IsBacked : (w w' : World Ledger) → IsBacked w → Reach w w' → IsBacked w'
    run-IsBacked w _ b here = b
    run-IsBacked w _ b (next {u = u} {v = v} r s) = Step-IsBacked u v s (run-IsBacked w u b r)
