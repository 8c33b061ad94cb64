-- ===== src/Vault/Tests.antt =====
-- Tests on the vault of Vault/Scenario, and an instance of each theorem on one or two operations.
mod Run
use cross_fluf.Base.{
  some, ◌↔◌, ℕ, ◌+◌, ◌-◌, ◌*◌, ◌/◌, ◌≤◌, ◌<◌, ◌≡◌, ◌≢◌, refl, true, Bool, List, [], ◌∷◌, Option,
  none, ok, arith,
}
use cross_fluf.Base.Int.{pos}
use cross_fluf.Token.Memory.{
  Book, memory, memory-IsTokenProgram, hooked_memory, memory-IsHookedProgram,
}
use cross_fluf.Vault.State.{Vault, VaultConfig, Strategy}
use cross_fluf.Base.Words.{elapsed_i64}
use cross_fluf.Vault.Assets.{effective_total_assets}
use cross_fluf.Vault.Setup.{initialize_vault, update_config, set_active}
use cross_fluf.Vault.Shares.{deposit, instant_withdraw, fee_of}
use cross_fluf.Vault.Strategies.{add_strategy, allocate, deallocate, report_yield, remove_strategy}
use cross_fluf.Vault.Fees.{harvest_fees}
use cross_fluf.Vault.Assets.Unlocking.{effective_released, effective_mono}
use cross_fluf.Vault.Shares.Ledger.{PaidOut}
use cross_fluf.Vault.Shares.Price.{
  vault_deposit_price, vault_withdraw_price, vault_round_trip, vault_withdraw_fee,
}
use cross_fluf.Vault.Strategies.Locking.{report_yield_first, report_yield_relocks}
use cross_fluf.Vault.Strategies.Books.{deallocate-allocate}
use cross_fluf.Vault.Access.{vault_admin_only, vault_manager_only}
use cross_fluf.Vault.Fees.Harvest.{harvest_twice}
use cross_fluf.Vault.Run.{booked, deposits, withdraws, adds, allocates, reports, here, next}
use cross_fluf.Vault.Run.Books.{run_covered, Step-exact}
use cross_fluf.Vault.Setup.Caps.{initialize_vault_limits, update_config_iff}
use cross_fluf.Vault.Run.Limits.{IsLimited, run-IsLimited}
use cross_fluf.Vault.Scenario.{
  no_vault, config, creation, derive, start, paying_in, paying_out, managed, added, harvesting, v₀,
  first, s₀, s₁, s₂, second, out, s₃, s₄, foreign, harvested, world₀, world₁, world₂, world₃,
  world₄, world₅, world₆,
}

pub first-deposit_ok :
    deposit memory hooked_memory derive paying_in 1_000_000 (pos 10) v₀ start ≡ ok first
unfolding first
first-deposit_ok = refl

pub second-deposit_ok :
    deposit memory hooked_memory derive paying_in 200_000 (pos 600) s₂.0 first.1 ≡ ok second
unfolding second
second-deposit_ok = refl

pub withdrawal_ok :
    instant_withdraw memory hooked_memory derive paying_out
      (second.0.lp_supply - s₂.0.lp_supply)
      (pos 600)
      second.0
      second.1
    ≡ ok out
unfolding out
withdrawal_ok = refl

pub add_strategy_ok : add_strategy derive added (97 ∷ []) (98 ∷ []) (pos 20) first.0 none ≡ ok s₀
unfolding s₀
add_strategy_ok = refl

pub allocate_ok : allocate managed 400_000 (pos 30) s₀.0 s₀.1 ≡ ok s₁
unfolding s₁
allocate_ok = refl

pub report_ok : report_yield managed 500_000 (pos 100) s₁.0 s₁.1 ≡ ok s₂
unfolding s₂
report_ok = refl

-- The profit of 100,000 is locked at 100, and half of it at 600; 5,000 of the first LP tokens were
-- kept back.
locked_half :
    (effective_total_assets s₂.0 (pos 100) ≡ ok 1_000_000)
    × (effective_total_assets s₂.0 (pos 600) ≡ ok 1_050_000)
    × (effective_total_assets s₂.0 (pos 1100) ≡ ok 1_100_000)
    × (first.0.lp_supply ≡ 995_000)
    × (first.0.accumulated_fees ≡ 5_000)
unfolding s₂
locked_half = (refl, refl, refl, refl, refl)

effective_half : effective_total_assets s₂.0 (pos 600) ≡ ok 1_050_000
unfolding s₂
effective_half = refl

effective_second : effective_total_assets second.0 (pos 600) ≡ ok 1_250_000
unfolding second
effective_second = refl

some_supply : 0 < s₂.0.lp_supply
unfolding s₂
some_supply = omega arith

effective_released_example :
    effective_total_assets s₂.0 (pos 600) ≡ ok (1_100_000 - 100_000 * 500 / 1000)
unfolding s₂ elapsed_i64
effective_released_example = effective_released s₂.0 (omega arith) (omega arith) (pos 600) 500 refl

effective_mono_example : 1_050_000 ≤ 1_100_000
unfolding s₂
effective_mono_example =
    effective_mono s₂.0 (omega arith) (omega arith) (pos 600) (pos 1100) 1_050_000 1_100_000
      (ground arith) (ground arith) refl refl

vault_deposit_price_example :
    (s₂.0.is_active ≡ true)
    × (second.0.total_assets ≤ s₂.0.max_cap)
    × (second.0.total_assets ≡ s₂.0.total_assets + 200_000)
    × (second.0.idle_assets ≡ s₂.0.idle_assets + 200_000)
    × (1_050_000 * second.0.lp_supply ≤ (1_050_000 + 200_000) * s₂.0.lp_supply)
vault_deposit_price_example =
    vault_deposit_price memory hooked_memory derive paying_in 200_000 (pos 600) s₂.0 second.0
      first.1 second.1 1_050_000 some_supply effective_half second-deposit_ok

vault_withdraw_price_example :
    (0 < second.0.lp_supply)
    × (out.0.lp_supply + (second.0.lp_supply - s₂.0.lp_supply) ≡ second.0.lp_supply)
    × ((second.0.total_assets - out.0.total_assets) * second.0.lp_supply
        ≤ (second.0.lp_supply - s₂.0.lp_supply) * 1_250_000)
    × (1_250_000 * out.0.lp_supply
        ≤ (1_250_000 - (second.0.total_assets - out.0.total_assets)) * second.0.lp_supply)
    × (second.0.idle_assets - out.0.idle_assets ≤ second.0.total_assets - out.0.total_assets)
    × (out.0.total_assets ≤ second.0.total_assets)
    × (out.0.idle_assets ≤ second.0.idle_assets)
    × PaidOut memory hooked_memory paying_out
        (second.0.lp_supply - s₂.0.lp_supply)
        (second.0.idle_assets - out.0.idle_assets)
        second.1
        out.1
vault_withdraw_price_example =
    vault_withdraw_price memory hooked_memory memory-IsTokenProgram memory-IsHookedProgram derive
      paying_out (second.0.lp_supply - s₂.0.lp_supply) (pos 600) second.0 out.0 second.1 out.1
      1_250_000 (omega arith) (omega arith) effective_second withdrawal_ok

vault_round_trip_example : out.1.amounts 12 ≤ first.1.amounts 12
vault_round_trip_example =
    vault_round_trip memory hooked_memory memory-IsTokenProgram memory-IsHookedProgram derive
      paying_in paying_out 200_000 (pos 600) s₂.0 second.0 out.0 first.1 second.1 out.1 1_050_000
      1_250_000 (omega arith) (omega arith) refl refl some_supply effective_half effective_second
      second-deposit_ok withdrawal_ok

vault_withdraw_fee_example :
    (fee : ℕ) × (fee_of (second.0.total_assets - out.0.total_assets) second.0.withdrawal_fee_bps
      ≡ ok fee)
    × (out.0.idle_assets + second.0.total_assets ≡ second.0.idle_assets + out.0.total_assets + fee)
vault_withdraw_fee_example =
    vault_withdraw_fee memory hooked_memory derive paying_out (second.0.lp_supply - s₂.0.lp_supply)
      (pos 600) second.0 out.0 second.1 out.1 withdrawal_ok

report_yield_first_example :
    (effective_total_assets s₁.0 (pos 100) ≡ ok s₁.0.total_assets)
    × (effective_total_assets s₂.0 (pos 100) ≡ ok s₁.0.total_assets)
unfolding s₂
report_yield_first_example =
    report_yield_first managed 500_000 (pos 100) s₁.0 s₂.0 s₁.1 s₂.1 refl (omega arith)
      (omega arith) (omega arith) refl

report_yield_relocks_example :
    (effective_total_assets s₂.0 (pos 3700) ≡ ok s₂.0.total_assets)
    × (effective_total_assets s₃.0 (pos 3700) ≡ ok (s₂.0.total_assets - s₂.0.locked_profit))
unfolding s₃ elapsed_i64
report_yield_relocks_example =
    report_yield_relocks managed 500_010 3600 (pos 3700) s₂.0 s₃.0 s₂.1 s₃.1 refl (omega arith)
      (omega arith) (omega arith) (omega arith) refl

deallocate_ok : deallocate managed 400_000 (pos 50) s₁.0 s₁.1 ≡ ok s₄
unfolding s₄
deallocate_ok = refl

deallocate-allocate_example :
    (s₄.0 ≡ s₀.0)
    × (s₄.1.position_value ≡ s₀.1.position_value)
    × (s₄.1.allocated ≡ s₀.1.allocated + 400_000)
deallocate-allocate_example =
    deallocate-allocate managed managed 400_000 (pos 30) (pos 50) s₀.0 s₁.0 s₄.0 s₀.1 s₁.1 s₄.1
      allocate_ok deallocate_ok

admin_foreign : 2 ≢ s₂.0.admin
unfolding s₂
admin_foreign = omega arith

manager_foreign : 2 ≢ s₂.0.manager
unfolding s₂
manager_foreign = omega arith

vault_admin_only_example :
    ((name protocol : List ℕ) (s : Option Strategy) (r : Vault × Strategy)
      → add_strategy derive (record added { admin = foreign }) name protocol (pos 600) s₂.0 s
        ≢ ok r)
    × ((s r : Strategy) → remove_strategy (record managed { authority = foreign }) s₂.0 s ≢ ok r)
    × ((c : VaultConfig) (r : Vault)
        → update_config (record { admin = foreign; vault = 5001 }) c s₂.0 ≢ ok r)
    × ((active : Bool) (r : Vault)
        → set_active (record { admin = foreign; vault = 5001 }) active s₂.0 ≢ ok r)
    × ((l : Book) (r : Vault × Book)
        → harvest_fees memory derive (record harvesting { admin = foreign }) (pos 600) s₂.0 l
          ≢ ok r)
vault_admin_only_example =
    vault_admin_only memory derive s₂.0 (pos 600) (record added { admin = foreign })
      (record { admin = foreign; vault = 5001 }) (record managed { authority = foreign })
      (record harvesting { admin = foreign }) admin_foreign admin_foreign admin_foreign
      admin_foreign

vault_manager_only_example :
    (allocate (record managed { authority = foreign }) 10 (pos 600) s₂.0 s₂.1 ≢ ok s₂)
    × (deallocate (record managed { authority = foreign }) 10 (pos 600) s₂.0 s₂.1 ≢ ok s₂)
    × (report_yield (record managed { authority = foreign }) 10 (pos 600) s₂.0 s₂.1 ≢ ok s₂)
vault_manager_only_example =
    vault_manager_only s₂.0 (pos 600) (record managed { authority = foreign }) 10 s₂.1 s₂
      manager_foreign

harvested_ok : harvest_fees memory derive harvesting (pos 2000) second.0 second.1 ≡ ok harvested
unfolding harvested
harvested_ok = refl

second_supply : 0 < second.0.lp_supply
unfolding second
second_supply = omega arith

harvest_twice_example :
    harvest_fees memory derive harvesting (pos 2000) harvested.0 harvested.1 ≡ ok harvested
harvest_twice_example =
    harvest_twice memory memory-IsTokenProgram derive harvesting (pos 2000) second.0 harvested.0
      second.1 harvested.1 second_supply harvested_ok
