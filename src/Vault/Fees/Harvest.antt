-- ===== src/Vault/Fees/Harvest.antt =====
-- Harvests of fees: the bound on the performance fee, the high water mark, and no second fee.
use cross_fluf.Base.{
  ℕ, ◌+◌, ◌*◌, ◌/◌, ◌≤◌, ◌<◌, ◌≡◌, refl, ◌∙◌, inl, inr, true, ok, arith, ltb, ◌==◌, if◌then◌else◌,
  Option-cases,
}
use cross_fluf.Base.Int.{ℤ}
use cross_fluf.Base.Words.{u128_mod, elapsed_i64}
use cross_fluf.Base.Division.{div-anti}
use cross_fluf.Base.Time.{elapsed_none}
use cross_fluf.Solana.{Pda, cpi_new_with_signer}
use cross_fluf.Token.{TokenProgram, IsTokenProgram}
use cross_fluf.Vault.State.{Vault, VaultError, precision, lp_mint_auth_seeds}
use cross_fluf.Vault.Assets.{effective_total_assets}
use cross_fluf.Vault.Fees.{
  HarvestFees, management_fee, current_ratio, performance_fee, check_harvest, pay_fees,
  harvest_fees,
}
use cross_fluf.Vault.Fees.Inversion.{harvest-Harvested, pay_fees-Paid, mint_fee}

-- The books after a harvest, in the fields that it writes.
abbrev harvested : Vault → ℕ → ℤ → ℕ → ℕ → Vault
harvested v lp now fee mark = record v {
  lp_supply = v.lp_supply + lp;
  last_fee_harvest_ts = now;
  accumulated_fees = v.accumulated_fees + fee;
  high_water_mark = mark;
}

effective_harvested :
    (v : Vault) (lp : ℕ) (now : ℤ) (fee mark : ℕ)
    → effective_total_assets (harvested v lp now fee mark) now ≡ effective_total_assets v now
unfolding effective_total_assets
effective_harvested v lp now fee mark = refl

management_fee_none : (v : Vault) (e : ℕ) → management_fee v e 0 ≡ ok 0
unfolding management_fee
management_fee_none v e = ground arith

performance_fee_none :
    (v : Vault) (ratio : ℕ) → ratio ≤ v.high_water_mark → performance_fee v ratio ≡ ok 0
unfolding performance_fee
performance_fee_none v ratio h = ground arith

-- With LP tokens outstanding, the ratio is the assets of one, rounded down.
current_ratio-value :
    (v : Vault) (e ratio : ℕ)
    → 0 < v.lp_supply
    → current_ratio v e ≡ ok ratio
    → (ratio ≡ e * precision / v.lp_supply) × (e * precision < u128_mod)
unfolding current_ratio
current_ratio-value v e ratio pos h = ground arith

current_ratio-of :
    (v : Vault) (e : ℕ)
    → 0 < v.lp_supply
    → e * precision < u128_mod
    → current_ratio v e ≡ ok (e * precision / v.lp_supply)
unfolding current_ratio
current_ratio-of v e pos fits = ground arith

module _ {Ledger : Type 0} (T : TokenProgram Ledger) (pda : Pda) (c : HarvestFees) (now : ℤ) where
  -- A harvest of nothing.
  harvest_none :
      (v : Vault) (l : Ledger) (e ratio : ℕ)
      → check_harvest T pda c v l ≡ ok tt
      → c.admin.key ≡ v.admin
      → v.last_fee_harvest_ts ≡ now
      → effective_total_assets v now ≡ ok e
      → current_ratio v e ≡ ok ratio
      → ratio ≤ v.high_water_mark
      → harvest_fees T pda c now v l ≡ ok (v, l)
  unfolding harvest_fees pay_fees
  harvest_none v l e ratio checks admin since he hr below =
      let fresh : elapsed_i64 {E = VaultError} now v.last_fee_harvest_ts ≡ ok 0 =
        rw since (elapsed_none now) in
      let same : (c.admin.key == v.admin) ≡ true = ground arith in
      rw (checks, same, fresh, he, management_fee_none v e, hr, performance_fee_none v ratio below)

module _ {Ledger : Type 0} (T : TokenProgram Ledger) (lawful : IsTokenProgram T) (pda : Pda)
    (c : HarvestFees) where
  -- Minting LP tokens, or none, changes the supply by as much, and no account's mint or owner.
  pub record MintedFee (lp : ℕ) (l l' : Ledger) : Type 0 where
    pub mint_same : T.mint_of l' c.admin_lp_account ≡ T.mint_of l c.admin_lp_account
    pub owner_same : T.owner_of l' c.admin_lp_account ≡ T.owner_of l c.admin_lp_account
    pub supply_up : T.supply l' c.lp_mint ≡ T.supply l c.lp_mint + lp

  pub mint_fee-Minted :
      (now : ℤ) (lp : ℕ) (l l' : Ledger) → mint_fee T pda c now lp l ≡ ok l' → MintedFee lp l l'
  mint_fee-Minted now lp l l' m =
      elim (Option-cases (
        T.mint_to c.lp_mint c.admin_lp_account
          (cpi_new_with_signer (pda (lp_mint_auth_seeds c.vault)) c.lp_mint_authority) lp l)) [
            | inl f ↦ ground arith
            | inr (l₁, f) ↦
                let t = lawful.minted _ _ _ _ _ _ f in
                let k = c.admin_lp_account in
                ground (arith, t.mints k, t.owners k, t.supplies c.lp_mint)
          ]

  -- A second harvest at the time of one that succeeded, in a vault with LP tokens outstanding,
  -- succeeds too and changes nothing: neither fee is charged twice.
  pub harvest_twice :
      (now : ℤ) (v v' : Vault) (l l' : Ledger)
      → 0 < v.lp_supply
      → harvest_fees T pda c now v l ≡ ok (v', l')
      → harvest_fees T pda c now v' l' ≡ ok (v', l')
  harvest_twice now v v' l l' pos h =
      let d = harvest-Harvested T pda c now v v' l l' h in
      let fee = d.management + d.performance in
      elim (pay_fees-Paid T pda c now d.effective d.ratio fee v v' l l' d.paid) [
        | inl (_, same, same_ledger) ↦ rw (same, same_ledger) (rw (same, same_ledger) at h)
        | inr p ↦
            let m = mint_fee-Minted now p.lp l l' p.minted in
            let mark = if ltb v.high_water_mark d.ratio then d.ratio else v.high_water_mark in
            let r = current_ratio-value v d.effective d.ratio pos d.ratio_eq in
            let checks : check_harvest T pda c (harvested v p.lp now fee mark) l' ≡ ok tt =
              rw (m.mint_same, m.owner_same) d.checks in
            let less =
              div-anti (d.effective * precision) v.lp_supply (v.lp_supply + p.lp) pos
                (omega arith) in
            let below : d.effective * precision / (v.lp_supply + p.lp) ≤ mark =
              ground (arith, r.0, less) in
            rw p.entry (
              harvest_none T pda c now (harvested v p.lp now fee mark) l' d.effective
                (d.effective * precision / (v.lp_supply + p.lp)) checks d.by_admin refl
                (effective_harvested v p.lp now fee mark ∙ d.effective_eq)
                (current_ratio-of (harvested v p.lp now fee mark) d.effective (omega arith) r.1)
                below)
      ]
