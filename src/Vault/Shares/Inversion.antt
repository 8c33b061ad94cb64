-- ===== src/Vault/Shares/Inversion.antt =====
-- What a `deposit` or an `instant_withdraw` of the vault that succeeded went through.
use cross_fluf.Base.{
  ℕ, ◌+◌, ◌-◌, ◌≤◌, ◌<◌, ◌≡◌, some, ok, arith, inl, inr, Result-cases, Option-cases,
}
use cross_fluf.Base.Int.{ℤ}
use cross_fluf.Base.Words.{u64_mod}
use cross_fluf.Solana.{Pda, cpi_new, cpi_new_with_signer}
use cross_fluf.Token.{TokenProgram}
use cross_fluf.Token.Hooked.{HookedProgram, Transfer}
use cross_fluf.Vault.State.{Vault, lp_mint_auth_seeds, vault_asset_auth_seeds}
use cross_fluf.Vault.Shares.{
  Deposit, InstantWithdraw, price_deposit, price_withdrawal, book_deposit, book_withdrawal, deposit,
  instant_withdraw,
}
use cross_fluf.Vault.Shares.Quotes.{
  QuotedDeposit, price_deposit-Quoted, QuotedWithdrawal, price_withdrawal-Quoted,
}

-- The books after a deposit.
pub record BookedDeposit (v v' : Vault) (amount lp fee : ℕ) : Type 0 where
  pub entry : v' ≡ record v {
    total_assets = v.total_assets + amount;
    idle_assets = v.idle_assets + amount;
    lp_supply = v.lp_supply + lp;
    accumulated_fees = v.accumulated_fees + fee;
  }
  pub total_fits : v.total_assets + amount < u64_mod
  pub idle_fits : v.idle_assets + amount < u64_mod
  pub supply_fits : v.lp_supply + lp < u64_mod
  pub fees_fit : v.accumulated_fees + fee < u64_mod

pub book_deposit-Booked :
    (v v' : Vault) (amount lp fee : ℕ)
    → book_deposit v amount lp fee ≡ ok v'
    → BookedDeposit v v' amount lp fee
unfolding book_deposit
book_deposit-Booked v v' amount lp fee h = ground arith

pub record BookedWithdrawal (v v' : Vault) (lp gross net : ℕ) : Type 0 where
  pub entry : v' ≡ record v {
    total_assets = v.total_assets - gross;
    idle_assets = v.idle_assets - net;
    lp_supply = v.lp_supply - lp;
  }
  pub total_covers : gross ≤ v.total_assets
  pub idle_covers : net ≤ v.idle_assets
  pub supply_covers : lp ≤ v.lp_supply

pub book_withdrawal-Booked :
    (v v' : Vault) (lp gross net : ℕ)
    → book_withdrawal v lp gross net ≡ ok v'
    → BookedWithdrawal v v' lp gross net
unfolding book_withdrawal
book_withdrawal-Booked v v' lp gross net h = ground arith

module _ {Ledger : Type 0} (T : TokenProgram Ledger) (H : HookedProgram Ledger) (pda : Pda) where
  -- The transfer of a deposit, and that of a withdrawal.
  abbrev pub deposit_transfer : Deposit → ℕ → Ledger → Transfer
  deposit_transfer c amount l = record {
    program = c.asset_token_program;
    source = c.user_asset_account;
    mint = c.asset_mint;
    destination = c.vault_asset_account;
    authority = cpi_new c.user;
    additional = c.remaining_accounts;
    amount = amount;
    decimals = T.decimals l c.asset_mint;
  }

  abbrev pub withdraw_transfer : InstantWithdraw → ℕ → Ledger → Transfer
  withdraw_transfer c net l = record {
    program = c.asset_token_program;
    source = c.vault_asset_account;
    mint = c.asset_mint;
    destination = c.user_asset_account;
    authority = cpi_new_with_signer (pda (vault_asset_auth_seeds c.vault)) c.vault_asset_authority;
    additional = c.remaining_accounts;
    amount = net;
    decimals = T.decimals l c.asset_mint;
  }

  pub record Deposited (c : Deposit) (amount : ℕ) (now : ℤ) (v v' : Vault) (l l' : Ledger)
      : Type 0 where
    pub lp : ℕ
    pub fee : ℕ
    pub paid : Ledger
    pub quoted : QuotedDeposit v now amount lp fee
    pub booked : BookedDeposit v v' amount lp fee
    pub transfers : H.transfer_checked (deposit_transfer c amount l) l ≡ some paid
    pub mints :
        T.mint_to c.lp_mint c.user_lp_account
          (cpi_new_with_signer (pda (lp_mint_auth_seeds c.vault)) c.lp_mint_authority)
          lp
          paid
        ≡ some l'
    pub vault_account : c.vault_asset_account ≡ v.vault_asset_account
    pub mint : c.lp_mint ≡ v.lp_mint

  pub deposit-Deposited :
      (c : Deposit) (amount : ℕ) (now : ℤ) (v v' : Vault) (l l' : Ledger)
      → deposit T H pda c amount now v l ≡ ok (v', l')
      → Deposited c amount now v v' l l'
  unfolding deposit
  deposit-Deposited c amount now v v' l l' h = elim (Result-cases (price_deposit v now amount)) [
    | inr (x, e) ↦ absurd (ground arith)
    | inl ((lp, fee), e) ↦
        elim (Option-cases (H.transfer_checked (deposit_transfer c amount l) l)) [
          | inl f ↦ absurd (ground arith)
          | inr (l₁, f) ↦ record {
            lp = lp;
            fee = fee;
            paid = l₁;
            quoted = price_deposit-Quoted v now amount lp fee e;
            booked = book_deposit-Booked v v' amount lp fee (ground arith);
            transfers = f;
            mints = ground arith;
            vault_account = ground arith;
            mint = ground arith;
          }
        ]
  ]

  pub record Withdrawn (c : InstantWithdraw) (lp : ℕ) (now : ℤ) (v v' : Vault) (l l' : Ledger)
      : Type 0 where
    pub gross : ℕ
    pub net : ℕ
    pub burned : Ledger
    pub quoted : QuotedWithdrawal v now lp gross net
    pub booked : BookedWithdrawal v v' lp gross net
    pub burns : T.burn c.lp_mint c.user_lp_account (cpi_new c.user) lp l ≡ some burned
    pub transfers : H.transfer_checked (withdraw_transfer c net l) burned ≡ some l'
    pub vault_account : c.vault_asset_account ≡ v.vault_asset_account
    pub mint : c.lp_mint ≡ v.lp_mint

  pub withdraw-Withdrawn :
      (c : InstantWithdraw) (lp : ℕ) (now : ℤ) (v v' : Vault) (l l' : Ledger)
      → instant_withdraw T H pda c lp now v l ≡ ok (v', l')
      → Withdrawn c lp now v v' l l'
  unfolding instant_withdraw
  withdraw-Withdrawn c lp now v v' l l' h = elim (Result-cases (price_withdrawal v now lp)) [
    | inr (x, e) ↦ absurd (ground arith)
    | inl ((gross, net), e) ↦
        elim (Option-cases (T.burn c.lp_mint c.user_lp_account (cpi_new c.user) lp l)) [
          | inl f ↦ absurd (ground arith)
          | inr (l₁, f) ↦ record {
            gross = gross;
            net = net;
            burned = l₁;
            quoted = price_withdrawal-Quoted v now lp gross net e;
            booked = book_withdrawal-Booked v v' lp gross net (ground arith);
            burns = f;
            transfers = ground arith;
            vault_account = ground arith;
            mint = ground arith;
          }
        ]
  ]
