-- ===== src/Vault/Shares/Ledger.antt =====
-- What a deposit and a withdrawal move on the ledger of the token programs.
use cross_fluf.Base.{ℕ, ◌+◌, ◌≤◌, ◌≡◌, ◌≢◌, sym, ap, ◌∙◌, some, ok, arith}
use cross_fluf.Base.Int.{ℤ}
use cross_fluf.Solana.{Pda, cpi_new}
use cross_fluf.Token.{TokenProgram, IsTokenProgram}
use cross_fluf.Token.Hooked.{HookedProgram, IsHookedProgram}
use cross_fluf.Vault.State.{Vault}
use cross_fluf.Vault.Shares.{Deposit, InstantWithdraw, deposit}
use cross_fluf.Vault.Shares.Inversion.{deposit-Deposited, Withdrawn}

module _ {Ledger : Type 0} (T : TokenProgram Ledger) (H : HookedProgram Ledger) where
  -- A withdrawal of so many assets for so many LP tokens: the vault's account pays the assets, the
  -- user gets them less what the mint withholds from the transfer, and the LP tokens are burned.
  pub record PaidOut (c : InstantWithdraw) (lp assets : ℕ) (l l' : Ledger) : Type 0 where
    pub burned : Ledger
    pub burns : T.burn c.lp_mint c.user_lp_account (cpi_new c.user) lp l ≡ some burned
    pub withheld_le : H.withheld burned c.asset_mint assets ≤ assets
    pub vault_pays : T.amount l' c.vault_asset_account + assets ≡ T.amount l c.vault_asset_account
    pub user_gets :
        T.amount l' c.user_asset_account + H.withheld burned c.asset_mint assets
        ≡ T.amount l c.user_asset_account + assets
    pub user_gives : T.amount l' c.user_lp_account + lp ≡ T.amount l c.user_lp_account
    pub supply : T.supply l' c.lp_mint + lp ≡ T.supply l c.lp_mint

module _ {Ledger : Type 0} (T : TokenProgram Ledger) (H : HookedProgram Ledger)
    (lawful : IsTokenProgram T) (hooked : IsHookedProgram T H) (pda : Pda) where
  -- A deposit takes its whole amount from the user's account.
  pub deposit-pays :
      (c : Deposit) (amount : ℕ) (now : ℤ) (v v' : Vault) (l l' : Ledger)
      → c.user_asset_account ≢ c.vault_asset_account
      → c.lp_mint ≢ c.asset_mint
      → deposit T H pda c amount now v l ≡ ok (v', l')
      → T.amount l' c.user_asset_account + amount ≡ T.amount l c.user_asset_account
  deposit-pays c amount now v v' l l' accounts mints h =
      let d = deposit-Deposited T H pda c amount now v v' l l' h in
      let t = hooked.transferred _ _ _ d.transfers in
      let m = lawful.minted _ _ _ _ _ _ d.mints in
      let k = c.user_asset_account in
      let apart : k ≢ c.user_lp_account =
        λ e. mints (sym m.same_mint ∙ ap (T.mint_of d.paid) (sym e) ∙ t.mints k ∙ t.source_mint) in
      ground (arith, t.amounts k, m.amounts k)

  pub Withdrawn-PaidOut :
      (c : InstantWithdraw) (lp : ℕ) (now : ℤ) (v v' : Vault) (l l' : Ledger)
      → c.user_asset_account ≢ c.vault_asset_account
      → c.lp_mint ≢ c.asset_mint
      → (w : Withdrawn T H pda c lp now v v' l l') → PaidOut T H c lp w.net l l'
  Withdrawn-PaidOut c lp now v v' l l' accounts mints w =
      let b = lawful.burned _ _ _ _ _ _ w.burns in
      let t = hooked.transferred _ _ _ w.transfers in
      let vault = c.vault_asset_account in
      let user = c.user_asset_account in
      let share = c.user_lp_account in
      let vault_apart : vault ≢ share = λ e.
        mints (sym b.same_mint ∙ ap (T.mint_of l) (sym e) ∙ sym (b.mints vault) ∙ t.source_mint) in
      let user_apart : user ≢ share = λ e.
        mints
          (sym b.same_mint ∙ ap (T.mint_of l) (sym e) ∙ sym (b.mints user) ∙ t.destination_mint) in
      record {
        burned = w.burned;
        burns = w.burns;
        withheld_le = t.fee_le;
        vault_pays = ground (arith, t.amounts vault, b.amounts vault, t.funded);
        user_gets = ground (arith, t.amounts user, b.amounts user);
        user_gives = ground (arith, t.amounts share, b.amounts share);
        supply = ground (arith, t.supplies c.lp_mint, b.supplies c.lp_mint);
      }
