-- ===== src/Fluf/Tests.antt =====
-- Tests on the pool of Fluf/Scenario, and an instance of each theorem.
use cross_fluf.Fluf.Pools.Opened.{create_pool_opens}
use cross_fluf.Base.{
  ◌↔◌, none, some, ℕ, ◌+◌, ◌-◌, ◌*◌, ◌/◌, ◌≤◌, ◌<◌, ◌≡◌, ◌≢◌, refl, ok, err, custom, arith,
}
use cross_fluf.Base.Words.{checked, wrapping, u64_mod}
use cross_fluf.Token.Memory.{memory, memory-IsTokenProgram, open_account, open_mint}
use cross_fluf.Borrower.{total_repayment}
use cross_fluf.Fluf.State.{decimals_mismatch, fees_not_paid_back}
use cross_fluf.Fluf.Pools.{create_pool}
use cross_fluf.Fluf.Shares.{deposit, withdraw}
use cross_fluf.Fluf.Loan.{lend_and_call, settle}
use cross_fluf.Fluf.Fees.{withdraw_fees}
use cross_fluf.Fluf.Shares.Effect.{IsDistinct, balance, shares}
use cross_fluf.Fluf.Shares.Price.{deposit_price, withdraw_price, deposit-withdraw_no_gain}
use cross_fluf.Fluf.Loan.Price.{lend_price}
use cross_fluf.Fluf.Loan.Settlement.{total_repayment_suffices}
use cross_fluf.Fluf.Loan.FeeAccount.{settle_collects, settle_burns_fees}
use cross_fluf.Fluf.Loan.Wrapping.{wrapped_total, wrapping_loan_inflates}
use cross_fluf.Fluf.Fees.Blocked.{withdraw_fees_never}
use cross_fluf.Fluf.Run.{deposits, here, next, run-IsBacked}
use cross_fluf.Fluf.Scenario.{
  derive, w₀, creation, loan, one, two, w₁, w₂, w₃, w₄, w₅, w₆, settling, settled, aliased,
  collected, burnt, shortfall, w₇, collection,
}

created_ok : create_pool memory derive creation 6 w₀ ≡ ok w₁
unfolding w₁
created_ok = refl

-- The wrong number of decimals is refused.
create_pool_wrong : create_pool memory derive creation 9 w₀ ≡ err (custom decimals_mismatch)
unfolding w₀ create_pool open_account open_mint
create_pool_wrong = refl

first_deposit_ok : deposit memory derive one 600_000 w₁ ≡ ok w₂
unfolding w₂
first_deposit_ok = refl

second_deposit_ok : deposit memory derive two 300_000 w₂ ≡ ok w₃
unfolding w₃
second_deposit_ok = refl

first_deposit :
    (w₂.ledger.amounts 12007 ≡ 600_000)
    × (w₂.ledger.amounts 21 ≡ 600_000)
    × (w₂.ledger.supplies 9007 ≡ 600_000)
unfolding w₂
first_deposit = (refl, refl, refl)

loan_ok : lend_and_call memory derive derive checked loan 2_000_000 w₄ ≡ ok w₅
unfolding w₅
loan_ok = refl

-- The fee of 2.5% is 50,000 fluf; the protocol's account gets 250 of it.
loan_burns :
    (w₅.ledger.amounts 11007 ≡ 250)
    × (w₅.ledger.amounts 25007 ≡ 50_000)
    × (w₅.ledger.supplies 9007 ≡ 850_250)
    × (w₅.ledger.amounts 12007 ≡ 900_000)
unfolding w₅
loan_burns = (refl, refl, refl, refl)

withdraw_ok : withdraw memory derive two w₃ ≡ ok w₆
unfolding w₆
withdraw_ok = refl

IsDistinct-one : IsDistinct one
IsDistinct-one = record { users = omega arith; mints = omega arith }

IsDistinct-two : IsDistinct two
IsDistinct-two = record { users = omega arith; mints = omega arith }

deposit_price_example :
    (balance memory one w₁ * shares memory one w₂ ≤ balance memory one w₂ * shares memory one w₁)
    × (balance memory one w₂ ≡ balance memory one w₁ + 600_000)
    × (w₂.ledger.amounts 11 + 600_000 ≡ w₁.ledger.amounts 11)
    × (w₂.ledger.amounts 21 + shares memory one w₁ ≡ w₁.ledger.amounts 21 + shares memory one w₂)
deposit_price_example =
    deposit_price memory memory-IsTokenProgram derive one IsDistinct-one 600_000 w₁ w₂
      first_deposit_ok

withdraw_price_example :
    (balance memory two w₃ * shares memory two w₆ ≤ balance memory two w₆ * shares memory two w₃)
    × (balance memory two w₆ ≤ balance memory two w₃)
    × (w₆.ledger.amounts 12 + balance memory two w₆ ≡ w₃.ledger.amounts 12 + balance memory two w₃)
    × (w₆.ledger.amounts 22 ≡ 0)
withdraw_price_example =
    withdraw_price memory memory-IsTokenProgram derive two IsDistinct-two w₃ w₆ withdraw_ok

no_fluf_yet : w₂.ledger.amounts 22 ≡ 0
unfolding w₂
no_fluf_yet = refl

deposit-withdraw_no_gain_example : w₆.ledger.amounts 12 ≤ w₂.ledger.amounts 12
deposit-withdraw_no_gain_example =
    deposit-withdraw_no_gain memory memory-IsTokenProgram derive two IsDistinct-two 300_000 w₂ w₃ w₆
      no_fluf_yet second_deposit_ok withdraw_ok

lend_price_example :
    (w₅.ledger.amounts 12007 ≡ w₄.ledger.amounts 12007)
    × ((fees : ℕ) × (2_000_000 * 25 / 1000 ≤ fees)
        × (w₅.ledger.supplies 9007 + (fees - fees / 200) ≡ w₄.ledger.supplies 9007))
lend_price_example =
    lend_price memory memory-IsTokenProgram derive derive loan (omega arith) 2_000_000 w₄ w₅ loan_ok

new_pool_backed : w₁.ledger.supplies 9007 ≤ w₁.ledger.amounts 12007
unfolding w₁
new_pool_backed = omega arith

run-IsBacked_example : w₃.ledger.supplies 9007 ≤ w₃.ledger.amounts 12007
run-IsBacked_example =
    run-IsBacked memory derive derive 12007 9007 memory-IsTokenProgram w₁ w₃ new_pool_backed (
      next (next here (deposits one 600_000 refl refl IsDistinct-one first_deposit_ok))
        (deposits two 300_000 refl refl IsDistinct-two second_deposit_ok))

total_repayment_suffices_example :
    (total : ℕ) × (total_repayment checked 2_000_000 ≡ ok total)
    × ((settle memory derive checked loan 2_000_000 settling ≡ err (custom fees_not_paid_back))
        ↔ (2_050_000 < total))
total_repayment_suffices_example =
    total_repayment_suffices memory derive loan 2_000_000 settling (omega arith)

settle_collects_example :
    (settled.amounts 17007 ≡ 0) × (settled.amounts 11007 ≡ 40 + (2_050_000 - 2_000_000) / 200)
unfolding settled
settle_collects_example =
    settle_collects memory memory-IsTokenProgram derive loan 2_000_000 settling settled
      (omega arith) refl

settle_burns_fees_example : burnt.amounts 11007 ≡ (2_110_000 - 2_000_000) / 200
unfolding burnt
settle_burns_fees_example =
    settle_burns_fees memory memory-IsTokenProgram derive aliased 2_000_000 collected burnt refl
      refl

wrapping_loan_ok : lend_and_call memory derive derive wrapping loan (u64_mod - shortfall) w₄ ≡ ok w₇
unfolding w₇
wrapping_loan_ok = refl

empty_before : w₄.ledger.amounts 17007 ≡ 0
unfolding w₄
empty_before = refl

-- The borrower keeps almost all of what was lent, and there was no fluf for it.
borrower_keeps :
    (w₄.ledger.supplies 9007 ≡ 900_000)
    × (w₇.ledger.amounts 25007 ≡ 100_000 + (u64_mod - shortfall) - 201_744_073_709_551)
unfolding w₇
borrower_keeps = (refl, refl)

wrapping_loan_inflates_example :
    (w₇.ledger.supplies 9007
        + (wrapped_total shortfall - (wrapped_total shortfall + shortfall) / 200)
      ≡ w₄.ledger.supplies 9007 + (u64_mod - shortfall))
    × (wrapped_total shortfall * 1000 < u64_mod)
    × (w₄.ledger.supplies 9007 < w₇.ledger.supplies 9007)
wrapping_loan_inflates_example =
    wrapping_loan_inflates memory memory-IsTokenProgram derive derive loan (omega arith) shortfall
      w₄ w₇ (omega arith) (omega arith) (omega arith) (omega arith) empty_before wrapping_loan_ok

withdraw_fees_never_example : withdraw_fees memory derive collection w₅ ≢ ok w₄
withdraw_fees_never_example =
    withdraw_fees_never memory memory-IsTokenProgram derive collection w₅ w₄ refl

create_pool_opens_example :
    (w₀.pools 4007 ≡ none)
    × (w₁.pools 4007 ≡ some (record { pool_mint = 7; fluf_mint = 9007 }))
    × (w₀.ledger.scales 7 ≡ 6)
    × (w₁.ledger.amounts 12007 ≡ 0)
    × (w₁.ledger.supplies 9007 ≡ 0)
    × (w₁.ledger.authorities 9007 ≡ some 4007)
    × (w₁.ledger.mints 12007 ≡ 7)
    × (w₁.ledger.owners 12007 ≡ 4007)
    × (w₁.ledger.mints 17007 ≡ 9007)
    × (w₁.ledger.owners 17007 ≡ 4007)
create_pool_opens_example =
    create_pool_opens memory memory-IsTokenProgram derive creation 6 w₀ w₁ (omega arith) created_ok
