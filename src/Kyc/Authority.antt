-- ===== src/Kyc/Authority.antt =====
-- Who decides on the status of a wallet.
use cross_fluf.Base.{
  if◌then◌else◌, ◌+◌, ◌<◌, refl, ℕ, ◌≡◌, ◌≢◌, inl, inr, Bool, true, arith, none, some, ok,
  Result-cases,
}
use cross_fluf.Base.Words.{u64_mod}
use cross_fluf.Base.Int.{ℤ}
use cross_fluf.Solana.{Pubkey, Pda}
use cross_fluf.Kyc.State.{World, KycRegistry, registry_seeds, status_seeds}
use cross_fluf.Kyc.Registry.{
  InitializeRegistry, SetKycStatus, TransferAuthority, initialize_registry, set_kyc_status,
  transfer_authority, recount, status_or_zero,
}

-- The accounts to initialize the registry of a mint, and to verify a wallet through it.
abbrev pub registering : Pda → Pubkey → Pubkey → ℕ → InitializeRegistry
registering pda a mint bump = record {
  authority = record { key = a; is_signer = true };
  registry = pda (registry_seeds mint);
  mint = mint;
  bump = bump;
}

abbrev pub verifying : Pda → Pubkey → Pubkey → Pubkey → ℕ → SetKycStatus
verifying pda a mint wallet bump = record {
  authority = record { key = a; is_signer = true };
  registry = pda (registry_seeds mint);
  kyc_status = pda (status_seeds wallet);
  user = wallet;
  bump = bump;
}

-- The status of a wallet is not tied to a mint: for any mint that has no registry yet, any signer
-- can initialize one and then have any wallet verified, with any expiry, in the status at the
-- address that is derived from the wallet alone.
pub anyone_verifies :
    (pda : Pda) (is_mint : Pubkey → Bool) (a : Pubkey) (mint wallet : Pubkey) (bump bump' : ℕ)
    (expires_at now : ℤ) (w : World)
    → is_mint mint ≡ true
    → w.registries (pda (registry_seeds mint)) ≡ none
    → (w' : World) × (w'' : World) × (initialize_registry pda is_mint
          (registering pda a mint bump)
          w
        ≡ ok w')
      × (set_kyc_status pda (verifying pda a mint wallet bump') true expires_at now w' ≡ ok w'')
      × (w''.statuses (pda (status_seeds wallet))
          ≡ some (record {
            is_verified = true;
            wallet = wallet;
            verified_at = now;
            expires_at = expires_at;
            verified_by = a;
            bump = bump';
          }))
unfolding initialize_registry set_kyc_status
anyone_verifies pda is_mint a mint wallet bump bump' expires_at now w exists fresh =
    elim (Result-cases (initialize_registry pda is_mint (registering pda a mint bump) w)) [
      | inr (e, refused) ↦ absurd (ground arith)
      | inl (w', first) ↦
          elim (Result-cases
            (set_kyc_status pda (verifying pda a mint wallet bump') true expires_at now w')) [
              | inr (e, refused) ↦ absurd (ground arith)
              | inl (w'', second) ↦ (w', w'', first, second, ground arith)
            ]
    ]

-- Once the authority of a registry is handed to another key, the old one can no longer set a status
-- through it or hand it on, and the new one, signing, can set a status of any wallet.
pub handover :
    (pda : Pda) (c : TransferAuthority) (new_authority : Pubkey) (w w' : World)
    → new_authority ≢ c.authority.key
    → transfer_authority pda c new_authority w ≡ ok w'
    → ((s : SetKycStatus) (is_verified : Bool) (expires_at now : ℤ) (w'' : World)
        → s.registry ≡ c.registry
        → s.authority.key ≡ c.authority.key
        → set_kyc_status pda s is_verified expires_at now w' ≢ ok w'')
      × ((k : Pubkey) (w'' : World) → transfer_authority pda c k w' ≢ ok w'')
      × ((s : SetKycStatus) (is_verified : Bool) (expires_at now : ℤ)
          → s.registry ≡ c.registry
          → s.authority ≡ record { key = new_authority; is_signer = true }
          → s.kyc_status ≡ pda (status_seeds s.user)
          → (w'' : World) × (set_kyc_status pda s is_verified expires_at now w' ≡ ok w''))
unfolding transfer_authority set_kyc_status
handover pda c new_authority w w' other h = (
  λ s v x t w'' r k e. ground arith,
  λ k w'' e. ground arith,
  λ s v x t r k p. elim (Result-cases (set_kyc_status pda s v x t w')) [
    | inl done ↦ done
    | inr (e, refused) ↦ absurd (ground arith)
  ],
)

-- A change of a status counts: the registry's count of verified wallets, with the wallet if it was
-- verified before, is the count before with the wallet if it is verified now, as long as the count
-- stays below its maximum and is not zero while the wallet is verified. No other registry and no
-- other status changes.
pub set_kyc_status_counts :
    (pda : Pda) (c : SetKycStatus) (is_verified : Bool) (expires_at now : ℤ) (w w' : World)
    (r : KycRegistry)
    → w.registries c.registry ≡ some r
    → r.total_verified + 1 < u64_mod
    → ((status_or_zero (w.statuses c.kyc_status)).is_verified ≡ true → 0 < r.total_verified)
    → set_kyc_status pda c is_verified expires_at now w ≡ ok w'
    → (r' : KycRegistry) × (w'.registries c.registry ≡ some r')
      × (r'.total_verified
            + (if (status_or_zero (w.statuses c.kyc_status)).is_verified then 1 else 0)
          ≡ r.total_verified + (if is_verified then 1 else 0))
      × (r'.authority ≡ r.authority)
      × ((k : Pubkey) → k ≢ c.registry → w'.registries k ≡ w.registries k)
      × ((k : Pubkey) → k ≢ c.kyc_status → w'.statuses k ≡ w.statuses k)
unfolding set_kyc_status recount
set_kyc_status_counts pda c is_verified expires_at now w w' r found room held h = (
  record r {
    total_verified =
        recount (status_or_zero (w.statuses c.kyc_status)).is_verified is_verified r.total_verified;
  },
  ground arith,
  ground (arith, held),
  refl,
  λ k apart. ground arith,
  λ k apart. ground arith,
)
