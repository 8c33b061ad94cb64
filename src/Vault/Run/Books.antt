-- ===== src/Vault/Run/Books.antt =====
-- The total of a vault against what is booked as idle and as held by strategies.
use cross_fluf.Base.{ℕ, ◌+◌, ◌-◌, ◌≤◌, ◌≡◌, refl, ap, inl, inr, ok, arith, List, [], ◌∷◌, ◌++◌}
use cross_fluf.Base.Int.{ℤ}
use cross_fluf.Solana.{Pda}
use cross_fluf.Token.{TokenProgram}
use cross_fluf.Token.Hooked.{HookedProgram}
use cross_fluf.Vault.State.{Vault, VaultConfig, Strategy}
use cross_fluf.Vault.Setup.{UpdateConfig, update_config, set_active}
use cross_fluf.Vault.Shares.{fee_of}
use cross_fluf.Vault.Shares.Inversion.{deposit-Deposited, withdraw-Withdrawn}
use cross_fluf.Vault.Strategies.Books.{
  allocate-Moved, deallocate-Moved, report_yield-Reported, add_strategy-Added, remove_strategy-kept,
}
use cross_fluf.Vault.Fees.{HarvestFees, harvest_fees}
use cross_fluf.Vault.Fees.Inversion.{harvest-Harvested, pay_fees-Paid}
use cross_fluf.Vault.Run.{
  World, positions, positions-split, booked, Step, deposits, withdraws, adds, allocates,
  deallocates, reports, removes, harvests, configures, pauses, Reach, here, next,
}

-- The difference that a step makes: books that cover the total still do, and in books that agree
-- with it the fee of a withdrawal is what is booked beyond the total.
record Balance {Ledger : Type 0} (w w' : World Ledger) : Type 0 where
  fee : ℕ
  covered : w.vault.total_assets ≤ booked w → w'.vault.total_assets ≤ booked w'
  exact : w.vault.total_assets ≡ booked w → w'.vault.total_assets + fee ≡ booked w'
  free : w.vault.withdrawal_fee_bps ≡ 0 → fee ≡ 0

no_fee : (amount fee : ℕ) → fee_of amount 0 ≡ ok fee → fee ≡ 0
unfolding fee_of
no_fee amount fee h = ground arith

-- Where the total, the idle assets and the positions are as they were.
same_books :
    {Ledger : Type 0} (w w' : World Ledger)
    → w'.vault.total_assets ≡ w.vault.total_assets
    → w'.vault.idle_assets ≡ w.vault.idle_assets
    → positions w'.strategies ≡ positions w.strategies
    → Balance w w'
same_books w w' t i p = record {
  fee = 0;
  covered = λ b. omega (arith, t, i, p);
  exact = λ b. omega (arith, t, i, p);
  free = λ z. refl;
}

-- Where a strategy's position moves, the positions move with it.
replaced :
    (before after : List Strategy) (s s' : Strategy) (xs ys : List Strategy)
    → xs ≡ before ++ s ∷ after
    → ys ≡ before ++ s' ∷ after
    → positions ys + s.position_value ≡ positions xs + s'.position_value
replaced before after s s' xs ys e e' = omega (
  arith,
  ap positions e,
  ap positions e',
  positions-split before after s,
  positions-split before after s',
)

-- Where assets move between idle and a strategy.
moved_books :
    {Ledger : Type 0} (w w' : World Ledger) (s s' : Strategy)
    → w'.vault.total_assets ≡ w.vault.total_assets
    → w'.vault.idle_assets + s'.position_value ≡ w.vault.idle_assets + s.position_value
    → positions w'.strategies + s.position_value ≡ positions w.strategies + s'.position_value
    → Balance w w'
moved_books w w' s s' t i p = record {
  fee = 0;
  covered = λ b. omega (arith, t, i, p);
  exact = λ b. omega (arith, t, i, p);
  free = λ z. refl;
}

config_books :
    (c : UpdateConfig) (config : VaultConfig) (v v' : Vault)
    → update_config c config v ≡ ok v'
    → (v'.total_assets ≡ v.total_assets) × (v'.idle_assets ≡ v.idle_assets)
unfolding update_config
config_books c config v v' h = ground arith

pause_books :
    (c : UpdateConfig) (active : _) (v v' : Vault)
    → set_active c active v ≡ ok v'
    → (v'.total_assets ≡ v.total_assets) × (v'.idle_assets ≡ v.idle_assets)
unfolding set_active
pause_books c active v v' h = ground arith

module _ {Ledger : Type 0} (T : TokenProgram Ledger) (H : HookedProgram Ledger) (pda : Pda) where
  harvest_books :
      (c : HarvestFees) (now : ℤ) (v v' : Vault) (l l' : Ledger)
      → harvest_fees T pda c now v l ≡ ok (v', l')
      → (v'.total_assets ≡ v.total_assets) × (v'.idle_assets ≡ v.idle_assets)
  harvest_books c now v v' l l' h =
      let d = harvest-Harvested T pda c now v v' l l' h in
      elim (pay_fees-Paid T pda c now d.effective d.ratio _ v v' l l' d.paid) [
        | inl (_, same, _) ↦ rw same (refl, refl)
        | inr p ↦ rw p.entry (refl, refl)
      ]

  Step-Balance : (w w' : World Ledger) → Step T H pda w w' → Balance w w'
  Step-Balance w w' (deposits c amount now h same) =
      let d = deposit-Deposited T H pda c amount now w.vault w'.vault w.ledger w'.ledger h in
      let t = ap (λ (v : Vault). v.total_assets) d.booked.entry in
      let i = ap (λ (v : Vault). v.idle_assets) d.booked.entry in
      let p = ap positions same in
      record {
        fee = 0;
        covered = λ b. omega (arith, t, i, p);
        exact = λ b. omega (arith, t, i, p);
        free = λ z. refl;
      }
  Step-Balance w w' (withdraws c lp now h same) =
      let d = withdraw-Withdrawn T H pda c lp now w.vault w'.vault w.ledger w'.ledger h in
      let t = ap (λ (v : Vault). v.total_assets) d.booked.entry in
      let i = ap (λ (v : Vault). v.idle_assets) d.booked.entry in
      let p = ap positions same in
      let k = d.booked in
      record {
        fee = d.gross - d.net;
        covered = λ b. omega (arith, t, i, p, k.idle_covers, k.total_covers, d.quoted.net_le);
        exact = λ b. omega (arith, t, i, p, k.idle_covers, k.total_covers, d.quoted.net_le);
        free = λ z. no_fee d.gross (d.gross - d.net) (rw (← z) d.quoted.charged);
      }
  Step-Balance w w' (adds c name protocol now existing s h same) =
      let d = add_strategy-Added pda c name protocol now w.vault w'.vault existing s h in
      same_books w w' (ap (λ (v : Vault). v.total_assets) d.entry)
        (ap (λ (v : Vault). v.idle_assets) d.entry)
        (omega (arith, ap positions same, positions-split w.strategies [] s, d.empty))
  Step-Balance w w' (allocates c amount now before after s s' e h e') =
      let d = allocate-Moved c amount now w.vault w'.vault s s' h in
      moved_books w w' s s' (ap (λ (v : Vault). v.total_assets) d.entry) d.sum
        (replaced before after s s' w.strategies w'.strategies e e')
  Step-Balance w w' (deallocates c amount now before after s s' e h e') =
      let d = deallocate-Moved c amount now w.vault w'.vault s s' h in
      moved_books w w' s s' (ap (λ (v : Vault). v.total_assets) d.entry) d.sum
        (replaced before after s s' w.strategies w'.strategies e e')
  Step-Balance w w' (reports c value now before after s s' e h e') =
      let d = report_yield-Reported c value now w.vault w'.vault s s' h in
      let r = replaced before after s s' w.strategies w'.strategies e e' in
      let held = positions-split before after s in
      record {
        fee = 0;
        covered = λ b. omega (arith, d.total, d.idle, d.position, r, held, ap positions e);
        exact = λ b. omega (arith, d.total, d.idle, d.position, r, held, ap positions e);
        free = λ z. refl;
      }
  Step-Balance w w' (removes c before after s s' e h same e') =
      let d = remove_strategy-kept c w.vault s s' h in
      let r = replaced before after s s' w.strategies w'.strategies e e' in
      same_books w w' (ap (λ (v : Vault). v.total_assets) same)
        (ap (λ (v : Vault). v.idle_assets) same)
        (omega (arith, r, ap (λ (x : Strategy). x.position_value) d.1))
  Step-Balance w w' (harvests c now h same) =
      let d = harvest_books c now w.vault w'.vault w.ledger w'.ledger h in
      same_books w w' d.0 d.1 (ap positions same)
  Step-Balance w w' (configures c config h same) =
      let d = config_books c config w.vault w'.vault h in
      same_books w w' d.0 d.1 (ap positions same)
  Step-Balance w w' (pauses c active h same) =
      let d = pause_books c active w.vault w'.vault h in same_books w w' d.0 d.1 (ap positions same)

  -- Whatever instructions follow one another, on whichever strategies: a total that is at most the
  -- idle assets and the positions of the strategies together stays so.
  pub run_covered :
      (w w' : World Ledger)
      → w.vault.total_assets ≤ booked w
      → Reach T H pda w w'
      → w'.vault.total_assets ≤ booked w'
  run_covered w _ b here = b
  run_covered w _ b (next {u = u} {v = v} r s) = (Step-Balance u v s).covered (run_covered w u b r)

  -- In books that agree, total assets being idle assets and positions together, an instruction that
  -- succeeds keeps them so if the withdrawal fee is zero. In general it leaves an excess
  -- booked beyond the total.
  pub Step-exact :
      (w w' : World Ledger)
      → w.vault.total_assets ≡ booked w
      → Step T H pda w w'
      → (excess : ℕ) × (w'.vault.total_assets + excess ≡ booked w')
        × (w.vault.withdrawal_fee_bps ≡ 0 → excess ≡ 0)
  Step-exact w w' b s = let d = Step-Balance w w' s in (d.fee, d.exact b, d.free)
