-- ===== src/Vault/Tests/Run.antt =====
-- The run of Vault/Scenario as steps, and an instance of each theorem on runs, on a new vault and on
-- its configuration.
use cross_fluf.Base.{some, ◌↔◌, ℕ, ◌+◌, ◌-◌, ◌≤◌, ◌≡◌, refl, true, [], ◌∷◌, none, ok, arith}
use cross_fluf.Base.Int.{pos}
use cross_fluf.Token.Memory.{memory, hooked_memory}
use cross_fluf.Vault.State.{Vault}
use cross_fluf.Vault.Setup.{initialize_vault, update_config}
use cross_fluf.Vault.Run.{booked, deposits, withdraws, adds, allocates, reports, here, next}
use cross_fluf.Vault.Run.Books.{run_covered, Step-exact}
use cross_fluf.Vault.Setup.Caps.{initialize_vault_limits, update_config_iff}
use cross_fluf.Vault.Run.Limits.{IsLimited, run-IsLimited}
use cross_fluf.Vault.Scenario.{
  no_vault, config, creation, derive, start, paying_in, paying_out, managed, added, v₀, s₀, s₁, s₂,
  second, out, world₀, world₁, world₂, world₃, world₄, world₅, world₆,
}
use cross_fluf.Vault.Tests.{
  first-deposit_ok, second-deposit_ok, withdrawal_ok, add_strategy_ok, allocate_ok, report_ok,
}

new_vault_covered : v₀.total_assets ≤ booked world₀
unfolding v₀
new_vault_covered = omega arith

run_covered_example : out.0.total_assets ≤ booked world₆
run_covered_example = run_covered memory hooked_memory derive world₀ world₆ new_vault_covered (
    next {u = world₅}
      (next {u = world₄}
        (next {u = world₃}
          (next {u = world₂}
            (next {u = world₁}
              (next {u = world₀} here (deposits paying_in 1_000_000 (pos 10) first-deposit_ok refl))
              (adds added (97 ∷ []) (98 ∷ []) (pos 20) none s₀.1 add_strategy_ok refl))
            (allocates managed 400_000 (pos 30) [] [] s₀.1 s₁.1 refl allocate_ok refl))
          (reports managed 500_000 (pos 100) [] [] s₁.1 s₂.1 refl report_ok refl))
        (deposits paying_in 200_000 (pos 600) second-deposit_ok refl))
      (withdraws paying_out (second.0.lp_supply - s₂.0.lp_supply) (pos 600) withdrawal_ok refl))

second_agrees : second.0.total_assets ≡ booked world₅
unfolding second
second_agrees = refl

Step-exact_example :
    (excess : ℕ) × (out.0.total_assets + excess ≡ booked world₆)
    × (second.0.withdrawal_fee_bps ≡ 0 → excess ≡ 0)
Step-exact_example =
    Step-exact memory hooked_memory derive world₅ world₆ second_agrees
      (withdraws paying_out (second.0.lp_supply - s₂.0.lp_supply) (pos 600) withdrawal_ok refl)

initialize_ok :
    initialize_vault memory hooked_memory derive creation (118 ∷ 49 ∷ []) config (pos 0) none start
    ≡ ok v₀
unfolding v₀
initialize_ok = refl

initialize_vault_limits_example :
    (no_vault ≡ none)
    × (2 ≤ 32)
    × (v₀.total_assets ≡ 0)
    × (v₀.idle_assets ≡ 0)
    × (v₀.lp_supply ≡ start.supplies v₀.lp_mint)
    × (start.authorities v₀.lp_mint ≡ some 17_001)
    × (v₀.performance_fee_bps ≤ 5000)
    × (v₀.management_fee_bps ≤ 1000)
initialize_vault_limits_example =
    initialize_vault_limits memory hooked_memory derive creation (118 ∷ 49 ∷ []) config (pos 0) none
      start v₀ initialize_ok

-- All of the assets as a management fee.
update_config_iff_example :
    ((w : Vault) × (update_config
          (record { admin = record { key = 1; is_signer = true }; vault = 5001 })
          (record config { management_fee_bps = 10_000 })
          v₀
        ≡ ok w))
    ↔ ((true ≡ true) × (1 ≡ v₀.admin) × (1000 ≤ 5000))
update_config_iff_example =
    update_config_iff (record { admin = record { key = 1; is_signer = true }; vault = 5001 })
      (record config { management_fee_bps = 10_000 }) v₀

new_vault-IsLimited : IsLimited world₀
unfolding v₀
new_vault-IsLimited = record {
  counted = refl;
  within = omega arith;
  fee = omega arith;
  numbered = tt;
}

run-IsLimited_example : IsLimited world₃
run-IsLimited_example =
    run-IsLimited memory hooked_memory derive world₀ world₃ new_vault-IsLimited (
      next {u = world₂}
        (next {u = world₁}
          (next {u = world₀} here (deposits paying_in 1_000_000 (pos 10) first-deposit_ok refl))
          (adds added (97 ∷ []) (98 ∷ []) (pos 20) none s₀.1 add_strategy_ok refl))
        (allocates managed 400_000 (pos 30) [] [] s₀.1 s₁.1 refl allocate_ok refl))
