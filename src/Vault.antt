-- ===== src/Vault.antt =====
-- programs/vault/src/lib.rs: the vault. Depositors get LP tokens for assets, the manager accounts
-- for what strategies hold, and the admin harvests fees in LP tokens. A handler takes the accounts
-- of its `Context`, the accounts' data, and the clock's time, and returns the new data. The crate is
-- in the workspace, whose release profile checks for overflow.
pub mod State
pub mod Assets
pub mod Setup
pub mod Shares
pub mod Strategies
pub mod Fees
pub mod Access
pub mod Run
mod Scenario
mod Tests
