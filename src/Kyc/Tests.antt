-- ===== src/Kyc/Tests.antt =====
-- Tests on the registry of Kyc/Scenario, and an instance of each theorem.
use cross_fluf.Base.{
  false, ◌+◌, inl, inr, ◌≡◌, ◌≢◌, ◌↔◌, true, Bool, [], ◌∷◌, none, some, ok, err, custom, refl,
  arith, if◌then◌else◌,
}
use cross_fluf.Base.Int.{ℤ, pos, negsuc}
use cross_fluf.Solana.{Pubkey}
use cross_fluf.Token.Memory.{memory, hooked_memory}
use cross_fluf.Kyc.State.{
  KycRegistry, KycStatus, World, source_kyc_expired, status_seeds, registry_seeds,
}
use cross_fluf.Kyc.Registry.{
  SetKycStatus, status_or_zero, initialize_registry, set_kyc_status, transfer_authority,
}
use cross_fluf.Kyc.Hook.{get_elem?, check_hook, transfer_hook, fallback}
use cross_fluf.Kyc.Approval.{
  IsValidAt, Approved, transfer_hook_iff, fallback_iff, fallback_of_hook, fallback_accepts_expired,
}
use cross_fluf.Kyc.Documented.{IsDocumentedAt, transfer_hook_documented, hook_accepts_past_expiry}
use cross_fluf.Kyc.Authority.{
  registering, verifying, anyone_verifies, handover, set_kyc_status_counts,
}
use cross_fluf.Kyc.Run.{registers, sets, here, next, approved_wallets}
use cross_fluf.Kyc.Scenario.{
  mints, derive, start, empty_world, w₁, w₂, w₃, w₄, giving, moving, in_transfer, encode, unpack,
  unpack_transferring, first_status, second_status, past, past_status,
}

registry_ok : initialize_registry derive mints (registering derive 9 7 250) empty_world ≡ ok w₁
unfolding w₁
registry_ok = refl

first_ok : set_kyc_status derive (verifying derive 9 7 1 251) true (pos 1000) (pos 10) w₁ ≡ ok w₂
unfolding w₂
first_ok = refl

second_ok : set_kyc_status derive (verifying derive 9 7 2 252) true (negsuc 0) (pos 20) w₂ ≡ ok w₃
unfolding w₃
second_ok = refl

giving_ok : transfer_authority derive giving 8 w₃ ≡ ok w₄
unfolding w₄
giving_ok = refl

hook_ok :
    transfer_hook memory hooked_memory in_transfer 5 derive moving 30 (pos 999) w₃ start ≡ ok tt
unfolding w₃ transfer_hook
hook_ok = refl

hook_late :
    transfer_hook memory hooked_memory in_transfer 5 derive moving 30 (pos 1000) w₃ start
    ≡ err (custom source_kyc_expired)
unfolding w₃ transfer_hook
hook_late = refl

checked_ok :
    check_hook memory hooked_memory in_transfer 5 derive moving w₃ start
    ≡ ok (first_status, second_status)
unfolding w₃ check_hook
checked_ok = refl

two_verified :
    w₃.registries 712 ≡ some (record { authority = 9; mint = 7; total_verified = 2; bump = 250 })
unfolding w₃
two_verified = refl

first_field : (s : KycStatus) → get_elem? (encode s) 8 ≡ some (if s.is_verified then 1 else 0)
first_field s = refl

derive_apart : (a b : Pubkey) → derive (status_seeds a) ≡ derive (status_seeds b) → a ≡ b
derive_apart a b h = omega (arith, h)

transfer_hook_iff_example :
    (transfer_hook memory hooked_memory in_transfer 5 derive moving 30 (pos 999) w₃ start ≡ ok tt)
    ↔ ((s : KycStatus) × (d : KycStatus) × Approved memory hooked_memory in_transfer 5 derive moving
          30
          (pos 999)
          w₃
          start
          s
          d)
transfer_hook_iff_example =
    transfer_hook_iff memory hooked_memory in_transfer 5 derive moving 30 (pos 999) w₃ start

transfer_hook_documented_example :
    (transfer_hook memory hooked_memory in_transfer 5 derive moving 30 (pos 999) w₃ start ≡ ok tt)
    ↔ (IsDocumentedAt (pos 999) first_status × IsDocumentedAt (pos 999) second_status)
transfer_hook_documented_example =
    transfer_hook_documented memory hooked_memory in_transfer 5 derive moving 30 (pos 999) w₃ start
      first_status second_status checked_ok refl (inr (omega arith)) (inl refl)

past_ok :
    check_hook memory hooked_memory in_transfer 5 derive moving past start
    ≡ ok (past_status, second_status)
unfolding past check_hook
past_ok = refl

second_valid : IsValidAt (pos 5000) second_status
second_valid = (refl, inl (omega arith))

hook_accepts_past_expiry_example :
    (¬ IsDocumentedAt (pos 5000) past_status)
    × (transfer_hook memory hooked_memory in_transfer 5 derive moving 30 (pos 5000) past start
        ≡ ok tt)
hook_accepts_past_expiry_example =
    hook_accepts_past_expiry memory hooked_memory in_transfer 5 derive moving 30 (pos 5000) past
      start past_status second_status past_ok refl refl (omega arith) (ground arith) (omega arith)
      second_valid

fallback_iff_example :
    (fallback unpack unpack_transferring
        ([] ∷ [] ∷ [] ∷ [] ∷ [] ∷ [] ∷ encode first_status ∷ encode second_status ∷ [])
        (30 ∷ [])
      ≡ ok tt)
    ↔ ((some true ≡ some true) × (true ≡ true) × (true ≡ true))
fallback_iff_example =
    fallback_iff unpack unpack_transferring encode first_field [] [] [] [] [] [] (30 ∷ []) 30 refl
      first_status second_status

fallback_of_hook_example :
    (s : KycStatus) × (d : KycStatus) × (check_hook memory hooked_memory in_transfer 5 derive moving
        w₃ start
      ≡ ok (s, d))
    × (fallback unpack unpack_transferring
          ([] ∷ [] ∷ [] ∷ [] ∷ [] ∷ [] ∷ encode s ∷ encode d ∷ [])
          (30 ∷ [])
        ≡ ok tt)
fallback_of_hook_example =
    fallback_of_hook memory hooked_memory in_transfer 5 derive moving 30 (pos 999) w₃ start unpack
      unpack_transferring encode first_field [] [] [] [] [] [] (30 ∷ []) refl refl hook_ok

fallback_accepts_expired_example :
    (transfer_hook memory hooked_memory in_transfer 5 derive moving 30 (pos 1000) w₃ start
      ≡ err (custom source_kyc_expired))
    × (fallback unpack unpack_transferring
          ([] ∷ [] ∷ [] ∷ [] ∷ [] ∷ [] ∷ encode first_status ∷ encode second_status ∷ [])
          (30 ∷ [])
        ≡ ok tt)
fallback_accepts_expired_example =
    fallback_accepts_expired memory hooked_memory in_transfer 5 derive moving 30 (pos 1000) w₃ start
      unpack unpack_transferring encode first_field [] [] [] [] [] [] (30 ∷ []) refl first_status
      second_status checked_ok refl refl refl refl (omega arith) (omega arith)

approved_wallets_example :
    (s : KycStatus) × (d : KycStatus) × (w₃.statuses 110 ≡ some s)
    × (w₃.statuses 210 ≡ some d)
    × (s.wallet ≡ 1)
    × (d.wallet ≡ 2)
    × IsValidAt (pos 999) s
    × IsValidAt (pos 999) d
approved_wallets_example =
    approved_wallets memory hooked_memory in_transfer 5 derive derive_apart empty_world w₃
      (λ k. refl) (λ k. refl)
      (next
        (next (next here (registers (registering derive 9 7 250) mints registry_ok))
          (sets (verifying derive 9 7 1 251) true (pos 1000) (pos 10) first_ok))
        (sets (verifying derive 9 7 2 252) true (negsuc 0) (pos 20) second_ok))
      moving 30 (pos 999) start hook_ok

-- The key 66, which is no authority, verifies the wallet 3 through a registry for the mint 99.
no_registry : w₃.registries (derive (registry_seeds 99)) ≡ none
unfolding w₃
no_registry = refl

anyone_verifies_example :
    (w' : World) × (w'' : World) × (initialize_registry derive mints
        (registering derive 66 99 250)
        w₃
      ≡ ok w')
    × (set_kyc_status derive (verifying derive 66 99 3 251) true (pos 0) (pos 30) w' ≡ ok w'')
    × (w''.statuses 310
        ≡ some (record {
          is_verified = true;
          wallet = 3;
          verified_at = pos 30;
          expires_at = pos 0;
          verified_by = 66;
          bump = 251;
        }))
anyone_verifies_example =
    anyone_verifies derive mints 66 99 3 250 251 (pos 0) (pos 30) w₃ refl no_registry

handover_example :
    ((s : SetKycStatus) (is_verified : Bool) (expires_at now : ℤ) (w'' : World)
      → s.registry ≡ 712
      → s.authority.key ≡ 9
      → set_kyc_status derive s is_verified expires_at now w₄ ≢ ok w'')
    × ((k : Pubkey) (w'' : World) → transfer_authority derive giving k w₄ ≢ ok w'')
    × ((s : SetKycStatus) (is_verified : Bool) (expires_at now : ℤ)
        → s.registry ≡ 712
        → s.authority ≡ record { key = 8; is_signer = true }
        → s.kyc_status ≡ derive (status_seeds s.user)
        → (w'' : World) × (set_kyc_status derive s is_verified expires_at now w₄ ≡ ok w''))
handover_example = handover derive giving 8 w₃ w₄ (omega arith) giving_ok

new_registry :
    w₁.registries 712 ≡ some (record { authority = 9; mint = 7; total_verified = 0; bump = 250 })
unfolding w₁
new_registry = refl

unverified : (status_or_zero (w₁.statuses 110)).is_verified ≡ false
unfolding w₁
unverified = refl

set_kyc_status_counts_example :
    (r : KycRegistry) × (w₂.registries 712 ≡ some r)
    × (r.total_verified + (if (status_or_zero (w₁.statuses 110)).is_verified then 1 else 0) ≡ 0 + 1)
    × (r.authority ≡ 9)
    × ((k : Pubkey) → k ≢ 712 → w₂.registries k ≡ w₁.registries k)
    × ((k : Pubkey) → k ≢ 110 → w₂.statuses k ≡ w₁.statuses k)
set_kyc_status_counts_example =
    set_kyc_status_counts derive (verifying derive 9 7 1 251) true (pos 1000) (pos 10) w₁ w₂
      (record { authority = 9; mint = 7; total_verified = 0; bump = 250 }) new_registry
      (omega arith) (λ v. ground (arith, unverified, v)) first_ok
