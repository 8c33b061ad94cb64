-- ===== src/Fluf.antt =====
-- programs/fluf/src/lib.rs: the lending pool. A pool holds one token and issues fluf, its share
-- token; a flash loan mints fluf, calls the borrower, and burns what comes back. A handler takes
-- the accounts of its `Context` and the world, and returns the new world. Rent is not modelled. The
-- crate is outside the workspace, so what an overflow does is the parameter `mode` of the loan; the
-- other handlers multiply two `u64` in `u128`, which cannot overflow (`product_fits`).
pub mod State
pub mod Pools
pub mod Shares
pub mod Loan
pub mod Fees
pub mod Run
mod Scenario
mod Tests
