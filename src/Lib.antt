-- ===== src/Lib.antt =====
-- CrossFluf: the four on-chain programs (Rust, Anchor) and what holds of them.
--
-- The programs. programs/fluf is a lending pool: depositors of a token get fluf for it, and a flash
-- loan mints fluf to a borrower, calls it, and burns what comes back. programs/borrower_sample is the
-- borrower that it calls. programs/vault takes deposits for LP tokens, lends idle assets to strategies
-- in its books, and harvests fees. programs/kyc_hook is the transfer hook of a Token-2022 mint, which
-- lets a transfer pass only between verified wallets. They interact through token accounts: the pool
-- calls the borrower in lend_and_call, and a transfer that the vault makes of a mint with the hook
-- calls kyc_hook.
--
-- The files.
--   Base            Boolean tests, the outcome of an instruction, machine words, integers, division.
--   Solana          accounts as passed, signers, derived addresses, Anchor's constraints.
--   Token           the token programs as an interface with their documented effects; Token/Hooked is
--                   Token-2022's transfer_checked, Token/Memory an instance of both.
--   Borrower        programs/borrower_sample/src/lib.rs.
--   Fluf            programs/fluf/src/lib.rs: State (accounts, seeds, errors), Pools (initialize,
--                   create_pool), Shares (deposit, withdraw), Loan (lend_and_call), Fees
--                   (withdraw_fees), Run (sequences of instructions).
--   Vault           programs/vault/src/lib.rs: State, Setup (initialize_vault, update_config,
--                   set_active), Assets (effective_total_assets), Shares (deposit, instant_withdraw),
--                   Strategies (add_strategy, allocate, deallocate, report_yield, remove_strategy), Fees
--                   (harvest_fees), Access (who may do what), Run.
--   Kyc             programs/kyc_hook/src/lib.rs: State, Registry (initialize_registry,
--                   initialize_extra_account_meta_list, set_kyc_status, transfer_authority), Hook
--                   (transfer_hook, fallback), Approval, Documented, Authority,
--                   Run.
-- Below an operation's module stand its proofs: Inversion (what a handler that succeeded went through),
-- then one module per kind of theorem. Scenario and Tests hold a run on concrete accounts.
--
-- How the code is read. A handler takes the accounts of its Context, the data that they hold, the
-- clock's time where it asks for it, and returns the new data or a Failure; a failed transaction is
-- reverted, so a failure has no state. Constraints come first, then the body, both in the order of the
-- source. A public key is a number that is only compared. The derivation of addresses is a parameter;
-- a bump that is stored is taken to be the one found, as the programs store it. In fluf, what is loaded
-- as a token account or a mint is tested to be one, and so are mints in kyc_hook; elsewhere it is taken
-- to be one. u64 and u128 are numbers with each overflow written out: vault and kyc_hook are in the workspace, whose release profile
-- checks for overflow, and casts wrap; fluf and borrower_sample are outside it, so the mode is a
-- parameter. i64 timestamps are integers whose difference panics out of range. There are no loops and
-- so no fuel.
--
-- Not modelled: rent and account sizes, log messages, the other side of a transfer hook, and the
-- TypeScript clients, tests and scripts.
pub mod Base
pub mod Solana
pub mod Token
pub mod Borrower
pub mod Fluf
pub mod Vault
pub mod Kyc
