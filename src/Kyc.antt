-- ===== src/Kyc.antt =====
-- programs/kyc_hook/src/lib.rs: the transfer hook of the stablecoin's mint. A registry per mint has
-- an authority who marks wallets as verified, and a hook refuses a transfer unless both wallets are.
-- The accounts of the program are in its World, by address.
pub mod State
pub mod Registry
pub mod Hook
pub mod Approval
pub mod Documented
pub mod Authority
pub mod Run
mod Scenario
mod Tests
