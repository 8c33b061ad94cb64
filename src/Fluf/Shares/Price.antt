-- ===== src/Fluf/Shares/Price.antt =====
-- The price of a fluf: deposits and withdrawals never lower it, whatever the rounding.
use cross_fluf.Base.{ℕ, ◌+◌, ◌-◌, ◌*◌, ◌≤◌, ◌≡◌, ok, arith}
use cross_fluf.Base.Division.{issue_price, redeem_price, redeem_backed}
use cross_fluf.Solana.{Pda}
use cross_fluf.Token.{TokenProgram, IsTokenProgram}
use cross_fluf.Fluf.State.{World}
use cross_fluf.Fluf.Shares.{UserAccounts, deposit_shares, deposit, withdraw}
use cross_fluf.Fluf.Shares.Inversion.{payout}
use cross_fluf.Fluf.Shares.Rounding.{
  deposit_shares-mul-le, withdraw_amount-mul-le, deposit_shares-le, deposit_withdraw-le,
}
use cross_fluf.Fluf.Shares.Effect.{IsDistinct, balance, shares, deposit-Effect, withdraw-Effect}

module _ {Ledger : Type 0} (T : TokenProgram Ledger) (lawful : IsTokenProgram T) (pda : Pda)
    (c : UserAccounts) (apart : IsDistinct c) where
  -- A deposit that succeeds does not lower the price of a fluf: the pool's tokens before, times the
  -- fluf after, are at most the tokens after times the fluf before. The user pays the amount, and
  -- is the only one to get fluf for it.
  pub deposit_price :
      (a : ℕ) (w w' : World Ledger)
      → deposit T pda c a w ≡ ok w'
      → (balance T c w * shares T c w' ≤ balance T c w' * shares T c w)
        × (balance T c w' ≡ balance T c w + a)
        × (T.amount w'.ledger c.user_account + a ≡ T.amount w.ledger c.user_account)
        × (T.amount w'.ledger c.user_fluf_account + shares T c w
            ≡ T.amount w.ledger c.user_fluf_account + shares T c w')
  deposit_price a w w' h =
      let e = deposit-Effect T lawful pda c apart a w w' h in
      let P = balance T c w in
      let S = shares T c w in
      (
        rw (e.issued, e.pool_gains)
            (issue_price P S a (deposit_shares a P S) (deposit_shares-mul-le a P S)),
        e.pool_gains,
        e.user_pays,
        omega (arith, e.issued, e.user_gets),
      )

  -- A withdrawal that succeeds does not lower the price of a fluf for those who stay. It burns all
  -- fluf of the user, and pays out at most what the pool holds.
  pub withdraw_price :
      (w w' : World Ledger)
      → withdraw T pda c w ≡ ok w'
      → (balance T c w * shares T c w' ≤ balance T c w' * shares T c w)
        × (balance T c w' ≤ balance T c w)
        × (T.amount w'.ledger c.user_account + balance T c w'
            ≡ T.amount w.ledger c.user_account + balance T c w)
        × (T.amount w'.ledger c.user_fluf_account ≡ 0)
  withdraw_price w w' h =
      let e = withdraw-Effect T lawful pda c apart w w' h in
      let P = balance T c w in
      let S = shares T c w in
      let f = T.amount w.ledger c.user_fluf_account in
      let left : shares T c w' ≡ S - f = omega (arith, e.redeemed) in
      let kept : balance T c w' ≡ P - payout T c w = omega (arith, e.pool_pays) in
      (
        rw (left, kept) (redeem_price P S f (payout T c w) (withdraw_amount-mul-le f P S) e.held),
        omega (arith, e.pool_pays),
        omega (arith, e.user_gets, e.pool_pays),
        e.user_gives,
      )

  -- A user without fluf who deposits and then withdraws, with nothing in between, ends with at most
  -- the tokens of the beginning.
  pub deposit-withdraw_no_gain :
      (a : ℕ) (w w' w'' : World Ledger)
      → T.amount w.ledger c.user_fluf_account ≡ 0
      → deposit T pda c a w ≡ ok w'
      → withdraw T pda c w' ≡ ok w''
      → T.amount w''.ledger c.user_account ≤ T.amount w.ledger c.user_account
  deposit-withdraw_no_gain a w w' w'' z h k =
      let e = deposit-Effect T lawful pda c apart a w w' h in
      let g = withdraw-Effect T lawful pda c apart w' w'' k in
      let P = balance T c w in
      let S = shares T c w in
      let m = deposit_shares a P S in
      let held : T.amount w'.ledger c.user_fluf_account ≡ m = omega (arith, e.user_gets) in
      let paid : payout T c w' ≤ a =
        rw (held, e.pool_gains, e.issued) (deposit_withdraw-le a P S) in
      omega (arith, e.user_pays, g.user_gets)

  -- Where every fluf is backed by a token of the pool, a deposit that succeeds keeps it so.
  pub deposit_backed :
      (a : ℕ) (w w' : World Ledger)
      → shares T c w ≤ balance T c w
      → deposit T pda c a w ≡ ok w'
      → shares T c w' ≤ balance T c w'
  deposit_backed a w w' b h =
      let e = deposit-Effect T lawful pda c apart a w w' h in
      omega (arith, e.issued, e.pool_gains, deposit_shares-le a (balance T c w) (shares T c w) b)

  -- So does a withdrawal that succeeds.
  pub withdraw_backed :
      (w w' : World Ledger)
      → shares T c w ≤ balance T c w
      → withdraw T pda c w ≡ ok w'
      → shares T c w' ≤ balance T c w'
  withdraw_backed w w' b h =
      let e = withdraw-Effect T lawful pda c apart w w' h in
      let P = balance T c w in
      let S = shares T c w in
      let f = T.amount w.ledger c.user_fluf_account in
      omega (
        arith,
        e.redeemed,
        e.pool_pays,
        redeem_backed P S f (payout T c w) (withdraw_amount-mul-le f P S) e.held b,
      )
