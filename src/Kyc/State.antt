-- ===== src/Kyc/State.antt =====
-- The accounts and errors of programs/kyc_hook/src/lib.rs.
use cross_fluf.Base.{ℕ, Bool, List, [], ◌∷◌}
use cross_fluf.Base.Int.{ℤ}
use cross_fluf.Solana.{Pubkey, Seed, literal, address, Accounts}

-- `KycError`
pub data KycError : Type 0 where
  source_not_verified destination_not_verified source_kyc_expired : KycError
  destination_kyc_expired unauthorized_authority not_transferring : KycError

pub record KycRegistry : Type 0 where
  pub authority : Pubkey
  pub mint : Pubkey
  pub total_verified : ℕ  -- u64
  pub bump : ℕ  -- u8

pub record KycStatus : Type 0 where
  pub is_verified : Bool
  pub wallet : Pubkey
  pub verified_at : ℤ  -- i64
  pub expires_at : ℤ  -- i64
  pub verified_by : Pubkey
  pub bump : ℕ  -- u8

-- An entry of the list of extra accounts of a hook: where its address is derived from, and whether
-- it signs or is written.
pub data MetaSeed : Type 0 where
  meta_literal : List ℕ → MetaSeed
  account_key : ℕ → MetaSeed
  account_data : ℕ → ℕ → ℕ → MetaSeed

pub record ExtraAccountMeta : Type 0 where
  pub seeds : List MetaSeed
  pub is_signer : Bool
  pub is_writable : Bool

-- The program's accounts.
pub record World : Type 0 where
  pub registries : Accounts KycRegistry
  pub statuses : Accounts KycStatus
  pub meta_lists : Accounts (List ExtraAccountMeta)

abbrev pub registry_seeds : Pubkey → List Seed
registry_seeds mint = literal "kyc-registry" ∷ address mint ∷ []

abbrev pub status_seeds : Pubkey → List Seed
status_seeds wallet = literal "kyc-status" ∷ address wallet ∷ []

abbrev pub meta_list_seeds : Pubkey → List Seed
meta_list_seeds mint = literal "extra-account-metas" ∷ address mint ∷ []
