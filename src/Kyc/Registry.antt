-- ===== src/Kyc/Registry.antt =====
-- `initialize_registry`, `initialize_extra_account_meta_list`, `set_kyc_status` and
-- `transfer_authority`.
use cross_fluf.Base.{
  ℕ, Bool, false, not, ◌&&◌, ◌==◌, if◌then◌else◌, List, [], ◌∷◌, Option, none, some, Result, ok,
  constrain, require, ◌>>=◌, ◌>>◌,
}
use cross_fluf.Base.Int.{ℤ, pos}
use cross_fluf.Base.Words.{saturating_add_u64, saturating_sub}
use cross_fluf.Solana.{Pubkey, AccountInfo, Pda, signer, load, init, store}
use cross_fluf.Kyc.State.{
  KycError, unauthorized_authority, KycStatus, MetaSeed, meta_literal, account_key, account_data,
  ExtraAccountMeta, World, registry_seeds, status_seeds, meta_list_seeds,
}

-- The accounts of `InitializeRegistry`, and the bump that was found for the registry's address.
pub record InitializeRegistry : Type 0 where
  pub authority : AccountInfo
  pub registry : Pubkey
  pub mint : Pubkey
  pub bump : ℕ

-- The accounts of `InitializeExtraAccountMetaList`.
pub record InitializeExtraAccountMetaList : Type 0 where
  pub payer : AccountInfo
  pub extra_account_meta_list : Pubkey
  pub mint : Pubkey

-- The accounts of `SetKycStatus`, and the bump that was found for the status.
pub record SetKycStatus : Type 0 where
  pub authority : AccountInfo
  pub registry : Pubkey
  pub kyc_status : Pubkey
  pub user : Pubkey
  pub bump : ℕ

-- The accounts of `TransferAuthority`.
pub record TransferAuthority : Type 0 where
  pub authority : AccountInfo
  pub registry : Pubkey

-- An account that is loaded as a mint is one: which accounts are is a function that is passed.
unfoldable pub initialize_registry :
    Pda → (Pubkey → Bool) → InitializeRegistry → World → Result KycError World
initialize_registry pda is_mint c w = do
  signer c.authority
  constrain (c.registry == pda (registry_seeds c.mint))
  init (w.registries c.registry)
  constrain (is_mint c.mint)
  ok (record w {
    registries =
        store c.registry
          (record { authority = c.authority.key; mint = c.mint; total_verified = 0; bump = c.bump })
          w.registries;
  })

-- The bytes of "kyc-registry" and "kyc-status".
abbrev pub registry_text : List ℕ
registry_text = 107 ∷ 121 ∷ 99 ∷ 45 ∷ 114 ∷ 101 ∷ 103 ∷ 105 ∷ 115 ∷ 116 ∷ 114 ∷ 121 ∷ []

abbrev pub status_text : List ℕ
status_text = 107 ∷ 121 ∷ 99 ∷ 45 ∷ 115 ∷ 116 ∷ 97 ∷ 116 ∷ 117 ∷ 115 ∷ []

abbrev pub meta_of : List MetaSeed → ExtraAccountMeta
meta_of seeds = record { seeds = seeds; is_signer = false; is_writable = false }

-- The registry of the mint, and the status of the owners of the source and the destination.
unfoldable pub extra_account_metas : List ExtraAccountMeta
extra_account_metas =
    meta_of (meta_literal registry_text ∷ account_key 1 ∷ [])
    ∷ meta_of (meta_literal status_text ∷ account_data 0 32 32 ∷ [])
    ∷ meta_of (meta_literal status_text ∷ account_data 2 32 32 ∷ [])
    ∷ []

unfoldable pub initialize_extra_account_meta_list :
    Pda → (Pubkey → Bool) → InitializeExtraAccountMetaList → World → Result KycError World
unfolding extra_account_metas
initialize_extra_account_meta_list pda is_mint c w = do
  signer c.payer
  constrain (c.extra_account_meta_list == pda (meta_list_seeds c.mint))
  constrain (is_mint c.mint)
  init (w.meta_lists c.extra_account_meta_list)
  ok (record w { meta_lists = store c.extra_account_meta_list extra_account_metas w.meta_lists })

-- `init_if_needed`: the status at an address, where a new one is all zeros.
abbrev pub status_or_zero : Option KycStatus → KycStatus
status_or_zero (some s) = s
status_or_zero none = record {
  is_verified = false;
  wallet = 0;
  verified_at = pos 0;
  expires_at = pos 0;
  verified_by = 0;
  bump = 0;
}

-- The count of verified wallets after a change.
unfoldable pub recount : Bool → Bool → ℕ → ℕ
unfolding saturating_add_u64
recount was_verified is_verified total =
    if is_verified && not was_verified
    then saturating_add_u64 total 1
    else if not is_verified && was_verified
    then saturating_sub total 1
    else total

unfoldable pub set_kyc_status : Pda → SetKycStatus → Bool → ℤ → ℤ → World → Result KycError World
unfolding recount
set_kyc_status pda c is_verified expires_at now w = do
  signer c.authority
  registry ← load (w.registries c.registry)
  constrain (c.registry == pda (registry_seeds registry.mint))
  constrain (c.kyc_status == pda (status_seeds c.user))
  require (c.authority.key == registry.authority) unauthorized_authority
  let was_verified = (status_or_zero (w.statuses c.kyc_status)).is_verified
  ok (record w {
    statuses =
        store c.kyc_status
          (record {
            is_verified = is_verified;
            wallet = c.user;
            verified_at = now;
            expires_at = expires_at;
            verified_by = c.authority.key;
            bump = c.bump;
          })
          w.statuses;
    registries =
        store c.registry
          (record registry {
            total_verified = recount was_verified is_verified registry.total_verified;
          })
          w.registries;
  })

unfoldable pub transfer_authority : Pda → TransferAuthority → Pubkey → World → Result KycError World
transfer_authority pda c new_authority w = do
  signer c.authority
  registry ← load (w.registries c.registry)
  constrain (c.registry == pda (registry_seeds registry.mint))
  require (c.authority.key == registry.authority) unauthorized_authority
  ok (record w {
    registries = store c.registry (record registry { authority = new_authority }) w.registries;
  })
