-- ===== src/Fluf/Scenario.antt =====
-- One pool run over the token program of Token/Memory.
use Prim.Native.String.{len}
use cross_fluf.Base.Words.{wrapping, u64_mod, add_u64}
use cross_fluf.Base.{
  ◌-◌, ◌||◌, ℕ, ◌+◌, ◌*◌, true, false, [], ◌∷◌, none, some, Result, ok, err, if◌then◌else◌, ◌==◌,
}
use cross_fluf.Base.Words.{checked, as_u64, sub_u64, mul_u64}
use cross_fluf.Solana.{Pubkey, literal, address, Pda}
use cross_fluf.Token.Memory.{Book, memory, transfer, mint_to, burn, open_account, open_mint}
use cross_fluf.Borrower.{handle_borrow, total_repayment}
use cross_fluf.Fluf.State.{FlufError, World}
use cross_fluf.Fluf.Pools.{CreatePool, initialize, create_pool}
use cross_fluf.Fluf.Shares.{
  UserAccounts, deposit, withdraw, deposit_shares, withdraw_amount, check_user_accounts,
}
use cross_fluf.Fluf.Loan.{LendAndCall, lend_and_call, settle, check_loan}
use cross_fluf.Fluf.Fees.{WithdrawFees}

-- Some derivation of addresses: the name's length in thousands, and the key.
abbrev pub derive : Pda
derive (literal s ∷ []) = 1000 * len s
derive (literal s ∷ address k ∷ []) = 1000 * len s + k
derive _ = 0

-- The pool's token is the mint 7; users are 1 and 2, with token accounts 11, 12 and fluf accounts
-- 21, 22.
abbrev pub start : Book
start = record {
  amounts = λ k. if k == 11 then 1_000_000 else if k == 12 then 500_000 else 0;
  mints = λ k.
      if k == 11
      then 7
      else if k == 12
      then 7
      else if k == 21
      then 9007
      else if k == 22
      then 9007
      else if k == 25007
      then 9007
      else 0;
  owners = λ k.
      if k == 11
      then 1
      else if k == 12
      then 2
      else if k == 21
      then 1
      else if k == 22
      then 2
      else if k == 25007
      then 25007
      else 0;
  opens = λ k. k == 11 || k == 12 || k == 21 || k == 22 || k == 25007;
  kinds = λ k. k == 7;
  supplies = λ m. if m == 7 then 1_500_000 else 0;
  scales = λ m. if m == 7 then 6 else 0;
  authorities = λ m. none;
}

abbrev pub empty_world : World Book
empty_world = record { states = λ k. none; pools = λ k. none; ledger = start }

-- The world after an instruction that succeeds.
abbrev pub after : World Book → Result FlufError (World Book) → World Book
after w (ok w') = w'
after w (err e) = w

-- User 1 is the deployer.
unfoldable pub w₀ : World Book
unfolding initialize
w₀ = after empty_world (
    initialize derive (record { deployer = record { key = 1; is_signer = true }; state = 13000 })
      empty_world)

abbrev pub creation : CreatePool
creation = record {
  user = record { key = 1; is_signer = true };
  pool = 4007;
  pool_mint = 7;
  pool_account = 12007;
  fluf_mint = 9007;
  pool_fluf_account = 17007;
}

abbrev pub users : Pubkey → Pubkey → Pubkey → UserAccounts
users user account fluf_account = record {
  user = record { key = user; is_signer = true };
  pool = record { key = 4007; is_signer = false };
  pool_mint = 7;
  pool_account = 12007;
  user_account = account;
  fluf_mint = 9007;
  pool_fluf_account = 17007;
  user_fluf_account = fluf_account;
}

abbrev pub loan : LendAndCall
loan = record {
  user = record { key = 2; is_signer = true };
  pool = record { key = 4007; is_signer = false };
  pool_mint = 7;
  pool_account = 12007;
  fluf_mint = 9007;
  pool_fluf_account = 17007;
  borrower_fluf_account = record { key = 25007; is_signer = false };
  user_fluf_account = 22;
  fee_account = 11007;
}

abbrev pub one : UserAccounts
one = users 1 11 21

abbrev pub two : UserAccounts
two = users 2 12 22

-- User 1 deposits into the new pool, then user 2.
unfoldable pub w₁ : World Book
unfolding w₀ create_pool open_account open_mint
w₁ = after w₀ (create_pool memory derive creation 6 w₀)

unfoldable pub w₂ : World Book
unfolding w₁ deposit check_user_accounts deposit_shares as_u64 transfer mint_to
w₂ = after w₁ (deposit memory derive one 600_000 w₁)

unfoldable pub w₃ : World Book
unfolding w₂
w₃ = after w₂ (deposit memory derive two 300_000 w₂)

-- User 2 hands the sample borrower fluf for its fees, and takes a loan.
unfoldable pub w₄ : World Book
unfolding w₃
w₄ = elim (transfer 22 25007 (record { key = 2; is_signer = true }) 100_000 w₃.ledger) [
  | none ↦ w₃
  | some b ↦ record w₃ { ledger = b }
]

unfoldable pub w₅ : World Book
unfolding w₄ lend_and_call check_loan settle handle_borrow total_repayment sub_u64 burn
w₅ = after w₄ (lend_and_call memory derive derive checked loan 2_000_000 w₄)

unfoldable pub w₆ : World Book
unfolding w₃ withdraw withdraw_amount burn
w₆ = after w₃ (withdraw memory derive two w₃)

-- The ledger at the end of the loan, when the borrower has repaid 2,050,000 fluf.
abbrev pub settling : Book
settling = record start {
  amounts = λ k. if k == 17007 then 2_050_000 else if k == 11007 then 40 else 0;
  mints = λ k. 9007;
  owners = λ k. 4007;
  supplies = λ m. 2_900_000;
}

unfoldable pub settled : Book
unfolding settle mul_u64 sub_u64 transfer burn
settled = elim (settle memory derive checked loan 2_000_000 settling) [
  | ok b ↦ b
  | err e ↦ settling
]

-- The same loan with the fee account, which holds 60,000 from earlier loans, in the place of the
-- pool's fluf account.
abbrev pub aliased : LendAndCall
aliased = record loan { pool_fluf_account = 11007 }

abbrev pub collected : Book
collected = record settling { amounts = λ k. if k == 11007 then 60_000 + 2_050_000 else 0 }

unfoldable pub burnt : Book
unfolding settled
burnt = elim (settle memory derive checked aliased 2_000_000 collected) [
  | ok b ↦ b
  | err e ↦ collected
]

-- A loan of almost 2 ^ 64 fluf in a build that wraps, from the same state as the other loan.
abbrev pub shortfall : ℕ
shortfall = 17_800_000_000_000_000

unfoldable pub w₇ : World Book
unfolding w₅ add_u64
w₇ = after w₄ (lend_and_call memory derive derive wrapping loan (u64_mod - shortfall) w₄)

abbrev pub collection : WithdrawFees
collection = record {
  user = record { key = 1; is_signer = true };
  state = 13000;
  pool = record { key = 4007; is_signer = false };
  pool_mint = 7;
  fluf_mint = 9007;
  fee_account = 11007;
  collector_account = 21;
}
