-- ===== src/Vault/Fees/Inversion.antt =====
-- What a harvest that succeeded went through.
use cross_fluf.Base.{
  ℕ, ◌+◌, ◌<◌, ◌≡◌, ◌⊎◌, inl, inr, ok, arith, Result, Result-cases, Bool-cases, ltb, called,
  >>=-eq-ok, require, require-ok, ==_iff, ◌==◌, if◌then◌else◌,
}
use cross_fluf.Base.Int.{ℤ}
use cross_fluf.Base.Words.{u64_mod, add_word, elapsed_i64}
use cross_fluf.Solana.{Pda, cpi_new_with_signer}
use cross_fluf.Token.{TokenProgram}
use cross_fluf.Vault.State.{Vault, VaultError, unauthorized, lp_mint_auth_seeds}
use cross_fluf.Vault.Assets.{effective_total_assets}
use cross_fluf.Vault.Fees.{
  HarvestFees, management_fee, current_ratio, performance_fee, fee_shares, book_harvest,
  check_harvest, pay_fees, harvest_fees,
}

add_word-sum : (m a b c : ℕ) → add_word {E = VaultError} m a b ≡ ok c → (a + b ≡ c) × (a + b < m)
unfolding add_word
add_word-sum m a b c h = ground arith

module _ {Ledger : Type 0} (T : TokenProgram Ledger) (pda : Pda) (c : HarvestFees) (now : ℤ) where
  pub record Harvested (v v' : Vault) (l l' : Ledger) : Type 0 where
    pub elapsed : ℕ
    pub effective : ℕ
    pub management : ℕ
    pub ratio : ℕ
    pub performance : ℕ
    pub checks : check_harvest T pda c v l ≡ ok tt
    pub by_admin : c.admin.key ≡ v.admin
    pub elapsed_eq : elapsed_i64 {E = VaultError} now v.last_fee_harvest_ts ≡ ok elapsed
    pub effective_eq : effective_total_assets v now ≡ ok effective
    pub management_eq : management_fee v effective elapsed ≡ ok management
    pub ratio_eq : current_ratio v effective ≡ ok ratio
    pub performance_eq : performance_fee v ratio ≡ ok performance
    pub fits : management + performance < u64_mod
    pub paid : pay_fees T pda c now effective ratio (management + performance) v l ≡ ok (v', l')

  pub harvest-Harvested :
      (v v' : Vault) (l l' : Ledger)
      → harvest_fees T pda c now v l ≡ ok (v', l')
      → Harvested v v' l l'
  unfolding harvest_fees
  harvest-Harvested v v' l l' h =
      let (u, checks, h₁) = >>=-eq-ok (check_harvest T pda c v l) _ h in
      let (_, admin, h₂) = >>=-eq-ok (require (c.admin.key == v.admin) unauthorized) _ h₁ in
      let (elapsed, e₁, h₃) =
        >>=-eq-ok (elapsed_i64 {E = VaultError} now v.last_fee_harvest_ts) _ h₂ in
      let (effective, e₂, h₄) = >>=-eq-ok (effective_total_assets v now) _ h₃ in
      let (management, e₃, h₅) = >>=-eq-ok (management_fee v effective elapsed) _ h₄ in
      let (ratio, e₄, h₆) = >>=-eq-ok (current_ratio v effective) _ h₅ in
      let (performance, e₅, h₇) = >>=-eq-ok (performance_fee v ratio) _ h₆ in
      let (total, e₆, paid) =
        >>=-eq-ok (add_word {E = VaultError} u64_mod management performance) _ h₇ in
      let (same, fits) = add_word-sum u64_mod management performance total e₆ in
      record {
        elapsed = elapsed;
        effective = effective;
        management = management;
        ratio = ratio;
        performance = performance;
        checks = checks;
        by_admin = (==_iff _ _).0 (require-ok _ unauthorized admin);
        elapsed_eq = e₁;
        effective_eq = e₂;
        management_eq = e₃;
        ratio_eq = e₄;
        performance_eq = e₅;
        fits = fits;
        paid = rw same paid;
      }

  -- The mint of a harvest, which is left out where there is nothing to mint.
  abbrev pub mint_fee : ℕ → Ledger → Result VaultError Ledger
  mint_fee lp l =
      if ltb 0 lp
      then called (
          T.mint_to c.lp_mint c.admin_lp_account
            (cpi_new_with_signer (pda (lp_mint_auth_seeds c.vault)) c.lp_mint_authority) lp l)
      else ok l

  -- A fee was paid in LP tokens, or there was none and nothing has changed.
  pub record Paid (effective ratio fee : ℕ) (v v' : Vault) (l l' : Ledger) : Type 0 where
    pub lp : ℕ
    pub quoted : fee_shares v effective fee ≡ ok lp
    pub minted : mint_fee lp l ≡ ok l'
    pub entry : v' ≡ record v {
      lp_supply = v.lp_supply + lp;
      last_fee_harvest_ts = now;
      accumulated_fees = v.accumulated_fees + fee;
      high_water_mark = if ltb v.high_water_mark ratio then ratio else v.high_water_mark;
    }

  pub pay_fees-Paid :
      (effective ratio fee : ℕ) (v v' : Vault) (l l' : Ledger)
      → pay_fees T pda c now effective ratio fee v l ≡ ok (v', l')
      → ((fee ≡ 0) × (v' ≡ v) × (l' ≡ l)) ⊎ Paid effective ratio fee v v' l l'
  unfolding pay_fees book_harvest
  pay_fees-Paid effective ratio fee v v' l l' h = elim (Bool-cases (fee == 0)) [
    | inl e ↦ inl (ground arith, ground arith, ground arith)
    | inr e ↦ elim (Result-cases (fee_shares v effective fee)) [
      | inr (x, f) ↦ absurd (ground arith)
      | inl (lp, f) ↦ elim (Result-cases (mint_fee lp l)) [
        | inr (x, g) ↦ absurd (ground arith)
        | inl (l₁, g) ↦
            inr (record { lp = lp; quoted = f; minted = ground arith; entry = ground arith })
      ]
    ]
  ]
