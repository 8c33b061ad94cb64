-- ===== src/Vault/Run/Limits.antt =====
-- Limits that hold after any sequence of instructions.
use cross_fluf.Base.{
  ℕ, suc, ◌+◌, ◌≤◌, ◌<◌, ◌≡◌, refl, sym, ap, inl, inr, ok, arith, List, [], ◌∷◌, ◌++◌, Option, ◌∙◌,
}
use cross_fluf.Base.Int.{ℤ}
use cross_fluf.Solana.{Pda}
use cross_fluf.Token.{TokenProgram}
use cross_fluf.Token.Hooked.{HookedProgram}
use cross_fluf.Vault.State.{Vault, VaultConfig, Strategy, length, max_strategies}
use cross_fluf.Vault.Setup.{UpdateConfig, update_config, set_active}
use cross_fluf.Vault.Shares.Inversion.{deposit-Deposited, withdraw-Withdrawn}
use cross_fluf.Vault.Strategies.{
  AddStrategy, add_strategy, allocate, deallocate, report_yield, remove_strategy,
}
use cross_fluf.Vault.Fees.{HarvestFees, harvest_fees}
use cross_fluf.Vault.Fees.Inversion.{harvest-Harvested, pay_fees-Paid}
use cross_fluf.Vault.Run.{
  World, Step, deposits, withdraws, adds, allocates, deallocates, reports, removes, harvests,
  configures, pauses, Reach, here, next,
}

-- Strategies numbered from a number on.
abbrev pub IsNumbered : ℕ → List Strategy → Type 0
IsNumbered n [] = Unit {0}
IsNumbered n (s ∷ rest) = (s.index ≡ n) × IsNumbered (suc n) rest

-- The count of strategies is that of the list and within the maximum, the performance fee is at
-- most half, and the strategies are numbered in the order in which they were added.
pub record IsLimited {Ledger : Type 0} (w : World Ledger) : Type 0 where
  pub counted : w.vault.num_strategies ≡ length w.strategies
  pub within : w.vault.num_strategies ≤ max_strategies
  pub fee : w.vault.performance_fee_bps ≤ 5000
  pub numbered : IsNumbered 0 w.strategies

length-append : (xs : List Strategy) (s : Strategy) → length (xs ++ s ∷ []) ≡ suc (length xs)
length-append [] s = refl
length-append (x ∷ xs) s = ap suc (length-append xs s)

IsNumbered-append :
    (n : ℕ) (xs : List Strategy) (s : Strategy)
    → IsNumbered n xs
    → s.index ≡ n + length xs
    → IsNumbered n (xs ++ s ∷ [])
IsNumbered-append n [] s a e = (omega (arith, e), tt)
IsNumbered-append n (x ∷ xs) s a e = (a.0, IsNumbered-append (suc n) xs s a.1 (omega (arith, e)))

length-replace :
    (before after : List Strategy) (s s' : Strategy)
    → length (before ++ s' ∷ after) ≡ length (before ++ s ∷ after)
length-replace [] after s s' = refl
length-replace (b ∷ before) after s s' = ap suc (length-replace before after s s')

IsNumbered-replace :
    (n : ℕ) (before after : List Strategy) (s s' : Strategy)
    → s'.index ≡ s.index
    → IsNumbered n (before ++ s ∷ after)
    → IsNumbered n (before ++ s' ∷ after)
IsNumbered-replace n [] after s s' e a = (e ∙ a.0, a.1)
IsNumbered-replace n (b ∷ before) after s s' e a =
    (a.0, IsNumbered-replace (suc n) before after s s' e a.1)

-- What an instruction leaves alone, unless it is one that changes the configuration or adds a
-- strategy.
record Kept (v v' : Vault) : Type 0 where
  count : v'.num_strategies ≡ v.num_strategies
  fee : v'.performance_fee_bps ≡ v.performance_fee_bps

Kept-limits :
    {Ledger : Type 0} (w w' : World Ledger)
    → Kept w.vault w'.vault
    → w'.strategies ≡ w.strategies
    → IsLimited w
    → IsLimited w'
Kept-limits w w' k same a = record {
  counted = rw (k.count, same) a.counted;
  within = rw k.count a.within;
  fee = rw k.fee a.fee;
  numbered = rw same a.numbered;
}

replaced_limits :
    {Ledger : Type 0} (w w' : World Ledger) (before after : List Strategy) (s s' : Strategy)
    → Kept w.vault w'.vault
    → w.strategies ≡ before ++ s ∷ after
    → w'.strategies ≡ before ++ s' ∷ after
    → s'.index ≡ s.index
    → IsLimited w
    → IsLimited w'
replaced_limits w w' before after s s' k e e' i a = record {
  counted =
      k.count
      ∙ a.counted
      ∙ ap length e
      ∙ sym (length-replace before after s s')
      ∙ ap length (sym e');
  within = rw k.count a.within;
  fee = rw k.fee a.fee;
  numbered = rw e' (IsNumbered-replace 0 before after s s' i (rw e at a.numbered));
}

add_strategy_numbers :
    (pda : Pda) (c : AddStrategy) (name protocol : List ℕ) (now : ℤ) (v v' : Vault)
    (existing : Option Strategy) (s : Strategy)
    → add_strategy pda c name protocol now v existing ≡ ok (v', s)
    → (v'.num_strategies ≡ suc v.num_strategies)
      × (v.num_strategies < max_strategies)
      × (v'.performance_fee_bps ≡ v.performance_fee_bps)
      × (s.index ≡ v.num_strategies)
unfolding add_strategy
add_strategy_numbers pda c name protocol now v v' existing s h =
    (ground arith, ground arith, ground arith, ground arith)

configured :
    (c : UpdateConfig) (config : VaultConfig) (v v' : Vault)
    → update_config c config v ≡ ok v'
    → (v'.num_strategies ≡ v.num_strategies) × (v'.performance_fee_bps ≤ 5000)
unfolding update_config
configured c config v v' h = (ground arith, ground arith)

module _ {Ledger : Type 0} (T : TokenProgram Ledger) (H : HookedProgram Ledger) (pda : Pda) where
  harvest_keeps :
      (c : HarvestFees) (now : ℤ) (v v' : Vault) (l l' : Ledger)
      → harvest_fees T pda c now v l ≡ ok (v', l')
      → Kept v v'
  harvest_keeps c now v v' l l' h =
      let d = harvest-Harvested T pda c now v v' l l' h in
      elim (pay_fees-Paid T pda c now d.effective d.ratio (d.management + d.performance) v v' l l'
        d.paid) [
          | inl (_, same, _) ↦ record {
            count = ap (λ (x : Vault). x.num_strategies) same;
            fee = ap (λ (x : Vault). x.performance_fee_bps) same;
          }
          | inr p ↦ record {
            count = ap (λ (x : Vault). x.num_strategies) p.entry;
            fee = ap (λ (x : Vault). x.performance_fee_bps) p.entry;
          }
        ]

  Step-IsLimited : (w w' : World Ledger) → IsLimited w → Step T H pda w w' → IsLimited w'
  Step-IsLimited w w' a (deposits c amount now h same) =
      let d =
        (deposit-Deposited T H pda c amount now w.vault w'.vault w.ledger w'.ledger h).booked in
      Kept-limits w w'
        (record {
          count = ap (λ (x : Vault). x.num_strategies) d.entry;
          fee = ap (λ (x : Vault). x.performance_fee_bps) d.entry;
        })
        same a
  Step-IsLimited w w' a (withdraws c lp now h same) =
      let d = (withdraw-Withdrawn T H pda c lp now w.vault w'.vault w.ledger w'.ledger h).booked in
      Kept-limits w w'
        (record {
          count = ap (λ (x : Vault). x.num_strategies) d.entry;
          fee = ap (λ (x : Vault). x.performance_fee_bps) d.entry;
        })
        same a
  Step-IsLimited w w' a (adds c name protocol now existing s h same) =
      let d = add_strategy_numbers pda c name protocol now w.vault w'.vault existing s h in
      record {
        counted = rw (same, length-append w.strategies s, d.0) (omega (arith, a.counted));
        within = omega (arith, d.0, d.1);
        fee = rw d.2 a.fee;
        numbered =
            rw same (IsNumbered-append 0 w.strategies s a.numbered (omega (arith, d.3, a.counted)));
      }
  Step-IsLimited w w' a (allocates c amount now before after s s' e h e') =
      replaced_limits w w' before after s s'
        (unfold allocate in record { count = ground arith; fee = ground arith }) e e'
        (unfold allocate in ground arith) a
  Step-IsLimited w w' a (deallocates c amount now before after s s' e h e') =
      replaced_limits w w' before after s s'
        (unfold deallocate in record { count = ground arith; fee = ground arith }) e e'
        (unfold deallocate in ground arith) a
  Step-IsLimited w w' a (reports c value now before after s s' e h e') =
      replaced_limits w w' before after s s'
        (unfold report_yield in record { count = ground arith; fee = ground arith }) e e'
        (unfold report_yield in ground arith) a
  Step-IsLimited w w' a (removes c before after s s' e h same e') =
      replaced_limits w w' before after s s'
        (record {
          count = ap (λ (x : Vault). x.num_strategies) same;
          fee = ap (λ (x : Vault). x.performance_fee_bps) same;
        })
        e e' (unfold remove_strategy in ground arith) a
  Step-IsLimited w w' a (harvests c now h same) =
      Kept-limits w w' (harvest_keeps c now w.vault w'.vault w.ledger w'.ledger h) same a
  Step-IsLimited w w' a (configures c config h same) =
      let k = configured c config w.vault w'.vault h in
      record {
        counted = rw (k.0, same) a.counted;
        within = rw k.0 a.within;
        fee = k.1;
        numbered = rw same a.numbered;
      }
  Step-IsLimited w w' a (pauses c active h same) =
      Kept-limits w w' (unfold set_active in record { count = ground arith; fee = ground arith })
        same a

  -- Whatever instructions follow one another: a vault's count of strategies stays that of its
  -- strategies, and at most ten, its performance fee at most half, and its strategies numbered in
  -- the order in which they were added.
  pub run-IsLimited : (w w' : World Ledger) → IsLimited w → Reach T H pda w w' → IsLimited w'
  run-IsLimited w _ a here = a
  run-IsLimited w _ a (next {u = u} {v = v} r s) = Step-IsLimited u v (run-IsLimited w u a r) s
