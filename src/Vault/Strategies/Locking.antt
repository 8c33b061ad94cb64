-- ===== src/Vault/Strategies/Locking.antt =====
-- What a report of a profit does to the price of an LP token.
use native.Mathlib.Nat.{mul-div_cancel}
use cross_fluf.Base.{ℕ, ◌+◌, ◌-◌, ◌≤◌, ◌<◌, ◌≡◌, ok, arith}
use cross_fluf.Base.Int.{ℤ}
use cross_fluf.Base.Words.{u64_mod, elapsed_i64}
use cross_fluf.Base.Time.{elapsed_none}
use cross_fluf.Vault.State.{Vault, Strategy, VaultError}
use cross_fluf.Vault.Assets.{effective_total_assets}
use cross_fluf.Vault.Assets.Unlocking.{effective_released}
use cross_fluf.Vault.Strategies.{Manage, report_yield}

-- The books after a profit: it is in the total, and all of the locked profit is locked from now on.
record Profit (value : ℕ) (now : ℤ) (v v' : Vault) (s : Strategy) : Type 0 where
  total : v'.total_assets ≡ v.total_assets + (value - s.position_value)
  locked : v'.locked_profit ≡ v.locked_profit + (value - s.position_value)
  since : v'.locked_profit_ts ≡ now
  period : v'.locked_profit_degradation ≡ v.locked_profit_degradation
  locked_fits : v'.locked_profit < u64_mod

report_yield-Profit :
    (c : Manage) (value : ℕ) (now : ℤ) (v v' : Vault) (s s' : Strategy)
    → s.position_value < value
    → report_yield c value now v s ≡ ok (v', s')
    → Profit value now v v' s
unfolding report_yield
report_yield-Profit c value now v v' s s' more h = ground arith

-- At the time of locking, nothing has been released.
effective_at_lock :
    (v : Vault) (now : ℤ)
    → v.locked_profit_ts ≡ now
    → v.locked_profit < u64_mod
    → 0 < v.locked_profit_degradation
    → v.locked_profit_degradation < u64_mod
    → effective_total_assets v now ≡ ok (v.total_assets - v.locked_profit)
effective_at_lock v now since fits period short =
    let fresh : elapsed_i64 {E = VaultError} now v.locked_profit_ts ≡ ok 0 =
      rw since (elapsed_none now) in
    ground
      (arith, effective_released v fits short now 0 fresh, mul-div_cancel v.locked_profit period)

-- A profit is not yet in the price when it is reported: where no profit had been reported before,
-- the effective assets stay as they were.
pub report_yield_first :
    (c : Manage) (value : ℕ) (now : ℤ) (v v' : Vault) (s s' : Strategy)
    → v.locked_profit ≡ 0
    → 0 < v.locked_profit_degradation
    → v.locked_profit_degradation < u64_mod
    → s.position_value < value
    → report_yield c value now v s ≡ ok (v', s')
    → (effective_total_assets v now ≡ ok v.total_assets)
      × (effective_total_assets v' now ≡ ok v.total_assets)
unfolding effective_total_assets
report_yield_first c value now v v' s s' none period fits more h =
    let r = report_yield-Profit c value now v v' s s' more h in
    let e =
      effective_at_lock v' now r.since r.locked_fits (rw r.period period) (rw r.period fits) in
    (ground arith, ground (arith, e, r.total, r.locked))

-- A profit reported after all of the earlier profit was released locks the earlier profit again:
-- the effective assets were the total before, and are now below it by all of that profit.
pub report_yield_relocks :
    (c : Manage) (value elapsed : ℕ) (now : ℤ) (v v' : Vault) (s s' : Strategy)
    → elapsed_i64 {E = VaultError} now v.locked_profit_ts ≡ ok elapsed
    → 0 < v.locked_profit_degradation
    → v.locked_profit_degradation ≤ elapsed
    → v.locked_profit_degradation < u64_mod
    → s.position_value < value
    → report_yield c value now v s ≡ ok (v', s')
    → (effective_total_assets v now ≡ ok v.total_assets)
      × (effective_total_assets v' now ≡ ok (v.total_assets - v.locked_profit))
unfolding effective_total_assets
report_yield_relocks c value elapsed now v v' s s' e period over fits more h =
    let r = report_yield-Profit c value now v v' s s' more h in
    let f =
      effective_at_lock v' now r.since r.locked_fits (rw r.period period) (rw r.period fits) in
    (ground arith, ground (arith, f, r.total, r.locked))
