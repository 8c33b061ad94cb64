-- ===== src/Vault/Shares/Price.antt =====
-- The price of an LP token, in effective assets: deposits and withdrawals never lower it.
use native.Mathlib.Nat.{le_trans, mul-le-mul_left, mul-le-mul_right}
use cross_fluf.Base.{ℕ, ◌+◌, ◌-◌, ◌*◌, ◌≤◌, ◌<◌, ◌≡◌, ◌≢◌, sym, ◌∙◌, true, ok, ap, arith}
use cross_fluf.Base.Int.{ℤ}
use cross_fluf.Base.Division.{issue_price, redeem_price, issue_redeem}
use cross_fluf.Solana.{Pda}
use cross_fluf.Token.{TokenProgram, IsTokenProgram}
use cross_fluf.Token.Hooked.{HookedProgram, IsHookedProgram}
use cross_fluf.Vault.State.{Vault}
use cross_fluf.Vault.Assets.{effective_total_assets}
use cross_fluf.Vault.Assets.Unlocking.{effective_raised}
use cross_fluf.Vault.Shares.{Deposit, InstantWithdraw, fee_of, deposit, instant_withdraw}
use cross_fluf.Vault.Shares.Quotes.{lp_for-mul-le, assets_for-mul-le}
use cross_fluf.Vault.Shares.Inversion.{
  BookedDeposit, Deposited, deposit-Deposited, Withdrawn, withdraw-Withdrawn,
}
use cross_fluf.Vault.Shares.Ledger.{PaidOut, deposit-pays, Withdrawn-PaidOut}

booked_raised :
    (v v' : Vault) (now : ℤ) (amount lp fee e e' : ℕ)
    → BookedDeposit v v' amount lp fee
    → effective_total_assets v now ≡ ok e
    → effective_total_assets v' now ≡ ok e'
    → e' ≤ e + amount
booked_raised v v' now amount lp fee e e' b h k =
    effective_raised v now amount (v.idle_assets + amount) (v.lp_supply + lp)
      (v.accumulated_fees + fee) e e' h (rw b.entry at k)

module _ {Ledger : Type 0} (T : TokenProgram Ledger) (H : HookedProgram Ledger) (pda : Pda) where
  -- A deposit into a vault with LP tokens outstanding that succeeds found the vault active, keeps to
  -- its cap, books the whole amount as total and as idle assets, and does not lower the price of an
  -- LP token: effective assets before, times LP tokens after, are at most effective assets plus the
  -- amount, times LP tokens before.
  pub vault_deposit_price :
      (c : Deposit) (amount : ℕ) (now : ℤ) (v v' : Vault) (l l' : Ledger) (e : ℕ)
      → 0 < v.lp_supply
      → effective_total_assets v now ≡ ok e
      → deposit T H pda c amount now v l ≡ ok (v', l')
      → (v.is_active ≡ true)
        × (v'.total_assets ≤ v.max_cap)
        × (v'.total_assets ≡ v.total_assets + amount)
        × (v'.idle_assets ≡ v.idle_assets + amount)
        × (e * v'.lp_supply ≤ (e + amount) * v.lp_supply)
  vault_deposit_price c amount now v v' l l' e pos he h =
      let d = deposit-Deposited T H pda c amount now v v' l l' h in
      let q = d.quoted in
      let b = d.booked.entry in
      let fair = lp_for-mul-le v now amount (d.lp + d.fee) e he pos q.gross in
      let less : d.lp * e ≤ amount * v.lp_supply =
        le_trans (mul-le-mul_right e (omega arith)) fair.0 in
      (q.active, rw b q.capped, rw b, rw b, rw b (issue_price e v.lp_supply amount d.lp less))

  -- A withdrawal that succeeds books the assets before the fee off the total, and the assets after
  -- it off the idle assets: the fee, which is at the vault's rate on what was booked off the total,
  -- stays idle and belongs to no total.
  pub vault_withdraw_fee :
      (c : InstantWithdraw) (lp : ℕ) (now : ℤ) (v v' : Vault) (l l' : Ledger)
      → instant_withdraw T H pda c lp now v l ≡ ok (v', l')
      → (fee : ℕ) × (fee_of (v.total_assets - v'.total_assets) v.withdrawal_fee_bps ≡ ok fee)
        × (v'.idle_assets + v.total_assets ≡ v.idle_assets + v'.total_assets + fee)
  vault_withdraw_fee c lp now v v' l l' h =
      let d = withdraw-Withdrawn T H pda c lp now v v' l l' h in
      let b = d.booked in
      let t = ap (λ (x : Vault). x.total_assets) b.entry in
      let i = ap (λ (x : Vault). x.idle_assets) b.entry in
      let off : v.total_assets - v'.total_assets ≡ d.gross = omega (arith, t, b.total_covers) in
      (
        d.gross - d.net,
        rw off d.quoted.charged,
        omega (arith, t, i, b.total_covers, b.idle_covers, d.quoted.net_le),
      )

  -- The assets that are quoted for the LP tokens of a deposit are at most those deposited.
  gross-le-amount :
      (c : Deposit) (d : InstantWithdraw) (amount : ℕ) (now : ℤ) (v v' v'' : Vault)
      (l l' l'' : Ledger) (e e' : ℕ)
      → 0 < v.lp_supply
      → effective_total_assets v now ≡ ok e
      → effective_total_assets v' now ≡ ok e'
      → (a : Deposited T H pda c amount now v v' l l')
      → (w : Withdrawn T H pda d (v'.lp_supply - v.lp_supply) now v' v'' l' l'') → w.gross ≤ amount
  gross-le-amount c d amount now v v' v'' l l' l'' e e' pos he he' a w =
      let b = a.booked.entry in
      let fair = lp_for-mul-le v now amount (a.lp + a.fee) e he pos a.quoted.gross in
      let issued : a.lp * e ≤ amount * v.lp_supply =
        le_trans (mul-le-mul_right e (omega arith)) fair.0 in
      let supply : v'.lp_supply ≡ v.lp_supply + a.lp = ap (λ (x : Vault). x.lp_supply) b in
      let lp : v'.lp_supply - v.lp_supply ≡ a.lp = omega (arith, supply) in
      let raised = booked_raised v v' now amount a.lp a.fee e e' a.booked he he' in
      let paid =
        assets_for-mul-le v' now (v'.lp_supply - v.lp_supply) w.gross e' he' w.quoted.value in
      let out : w.gross * (v.lp_supply + a.lp) ≤ a.lp * (e + amount) = omega (
        arith,
        paid.0,
        ap (λ (t : ℕ). w.gross * t) supply,
        ap (λ (t : ℕ). t * e') lp,
        mul-le-mul_left a.lp raised,
      ) in
      issue_redeem e v.lp_supply amount a.lp w.gross fair.1 issued out (omega arith)

module _ {Ledger : Type 0} (T : TokenProgram Ledger) (H : HookedProgram Ledger)
    (lawful : IsTokenProgram T) (hooked : IsHookedProgram T H) (pda : Pda) where
  -- Where the vault's account is not the user's, and LP tokens are not the asset, a withdrawal that
  -- succeeds takes no more off the total than the LP tokens burned are worth, at their share of the
  -- effective assets, all of them if all LP tokens are burned, and does not lower the price of an LP
  -- token for those who stay. What goes off the idle assets is at most that; it leaves the vault's
  -- account, and the user gets it, less what the mint withholds, for LP tokens of the user that are
  -- burned.
  pub vault_withdraw_price :
      (c : InstantWithdraw) (lp : ℕ) (now : ℤ) (v v' : Vault) (l l' : Ledger) (e : ℕ)
      → c.user_asset_account ≢ c.vault_asset_account
      → c.lp_mint ≢ c.asset_mint
      → effective_total_assets v now ≡ ok e
      → instant_withdraw T H pda c lp now v l ≡ ok (v', l')
      → (0 < v.lp_supply)
        × (v'.lp_supply + lp ≡ v.lp_supply)
        × ((v.total_assets - v'.total_assets) * v.lp_supply ≤ lp * e)
        × (e * v'.lp_supply ≤ (e - (v.total_assets - v'.total_assets)) * v.lp_supply)
        × (v.idle_assets - v'.idle_assets ≤ v.total_assets - v'.total_assets)
        × (v'.total_assets ≤ v.total_assets)
        × (v'.idle_assets ≤ v.idle_assets)
        × PaidOut T H c lp (v.idle_assets - v'.idle_assets) l l'
  vault_withdraw_price c lp now v v' l l' e accounts mints he h =
      let d = withdraw-Withdrawn T H pda c lp now v v' l l' h in
      let q = d.quoted in
      let b = d.booked in
      let fair = assets_for-mul-le v now lp d.gross e he q.value in
      let off : v.total_assets - (v.total_assets - d.gross) ≡ d.gross =
        omega (arith, b.total_covers) in
      let out : v.idle_assets - (v.idle_assets - d.net) ≡ d.net = omega (arith, b.idle_covers) in
      (
        fair.1,
        rw b.entry (omega (arith, b.supply_covers)),
        rw (b.entry, off) fair.0,
        rw (b.entry, off) (redeem_price e v.lp_supply lp d.gross fair.0 b.supply_covers),
        rw b.entry (omega (arith, q.net_le, b.total_covers)),
        rw b.entry (omega arith),
        rw b.entry (omega arith),
        rw (b.entry, out)
            (Withdrawn-PaidOut T H lawful hooked pda c lp now v v' l l' accounts mints d),
      )

  -- A user who deposits into a vault with LP tokens outstanding, and withdraws again at the same time
  -- with the LP tokens that the deposit brought, to the account from which it was paid, ends with at
  -- most the assets of the beginning. The vault's account is not the user's, and LP tokens are not
  -- the asset.
  pub vault_round_trip :
      (c : Deposit) (d : InstantWithdraw) (amount : ℕ) (now : ℤ) (v v' v'' : Vault)
      (l l' l'' : Ledger) (e e' : ℕ)
      → c.user_asset_account ≢ c.vault_asset_account
      → c.lp_mint ≢ c.asset_mint
      → d.user_asset_account ≡ c.user_asset_account
      → d.asset_mint ≡ c.asset_mint
      → 0 < v.lp_supply
      → effective_total_assets v now ≡ ok e
      → effective_total_assets v' now ≡ ok e'
      → deposit T H pda c amount now v l ≡ ok (v', l')
      → instant_withdraw T H pda d (v'.lp_supply - v.lp_supply) now v' l' ≡ ok (v'', l'')
      → T.amount l'' c.user_asset_account ≤ T.amount l c.user_asset_account
  vault_round_trip c d amount now v v' v'' l l' l'' e e' accounts mints same_account same_mint pos
        he he' h k =
      let a = deposit-Deposited T H pda c amount now v v' l l' h in
      let lp = v'.lp_supply - v.lp_supply in
      let w = withdraw-Withdrawn T H pda d lp now v' v'' l' l'' k in
      let vault : d.vault_asset_account ≡ c.vault_asset_account =
        w.vault_account
        ∙ ap (λ (x : Vault). x.vault_asset_account) a.booked.entry
        ∙ sym a.vault_account in
      let share : d.lp_mint ≡ c.lp_mint =
        w.mint ∙ ap (λ (x : Vault). x.lp_mint) a.booked.entry ∙ sym a.mint in
      let out =
        Withdrawn-PaidOut T H lawful hooked pda d lp now v' v'' l' l''
          (rw (same_account, vault) accounts) (rw (share, same_mint) mints) w in
      let gain = gross-le-amount T H pda c d amount now v v' v'' l l' l'' e e' pos he he' a w in
      omega (
        arith,
        gain,
        w.quoted.net_le,
        out.user_gets,
        ap (T.amount l'') same_account,
        ap (T.amount l') same_account,
        deposit-pays T H lawful hooked pda c amount now v v' l l' accounts mints h,
      )
