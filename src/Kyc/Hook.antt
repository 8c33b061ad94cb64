-- ===== src/Kyc/Hook.antt =====
-- `transfer_hook` and `fallback`: whether a transfer is approved. Token-2022's reading of token
-- accounts and instruction data is a parameter.
use cross_fluf.Base.{
  ℕ, zero, suc, Bool, false, ◌==◌, if◌then◌else◌, List, [], ◌∷◌, Option, none, some, Result, ok,
  err, program, not_enough_account_keys, invalid_instruction_data, constrain, require, called,
  ◌>>=◌, ◌>>◌,
}
use cross_fluf.Base.Int.{ℤ, pos, ltb_ℤ}
use cross_fluf.Solana.{Pubkey, Pda, load}
use cross_fluf.Token.{TokenProgram}
use cross_fluf.Token.Hooked.{HookedProgram}
use cross_fluf.Kyc.State.{
  KycError, source_not_verified, destination_not_verified, source_kyc_expired,
  destination_kyc_expired, not_transferring, KycStatus, World, registry_seeds, status_seeds,
  meta_list_seeds,
}

-- The accounts of `TransferHook`.
pub record TransferHook : Type 0 where
  pub source_token : Pubkey
  pub mint : Pubkey
  pub destination_token : Pubkey
  pub owner : Pubkey
  pub extra_account_meta_list : Pubkey
  pub kyc_registry : Pubkey
  pub source_kyc_status : Pubkey
  pub destination_kyc_status : Pubkey

-- `TransferHookInstruction`, of which the program handles one.
pub data TransferHookInstruction : Type 0 where
  execute : ℕ → TransferHookInstruction
  others : TransferHookInstruction

-- The verification of one wallet and its expiry, with the errors for each.
unfoldable pub check_status : KycError → KycError → ℤ → KycStatus → Result KycError (Unit {0})
check_status not_verified expired now s = do
  require s.is_verified not_verified
  (if ltb_ℤ (pos 0) s.expires_at then require (ltb_ℤ now s.expires_at) expired else ok tt)

-- `l[n]?`
abbrev pub get_elem? {ℓ} : {A : Type ℓ} → List A → ℕ → Option A
get_elem? [] n = none
get_elem? (x ∷ xs) zero = some x
get_elem? (x ∷ xs) (suc n) = get_elem? xs n

-- `source_data.len() < 9 || data[8] != 1`, negated.
unfoldable pub byte_verified : List ℕ → Bool
byte_verified data_bytes = elim (get_elem? data_bytes 8) [ none ↦ false | some b ↦ b == 1 ]

-- `check_is_transferring`: what unpacking found, and the flag in it.
unfoldable pub check_is_transferring : Option Bool → Result KycError (Unit {0})
check_is_transferring flag = called flag >>= λ transferring. require transferring not_transferring

module _ {Ledger : Type 0} (T : TokenProgram Ledger) (H : HookedProgram Ledger)
    (transferring : Ledger → Pubkey → Option Bool) (token_2022 : Pubkey) (pda : Pda) where
  -- The constraints of `TransferHook`, with the status accounts that it loads.
  unfoldable pub check_hook :
      TransferHook → World → Ledger → Result KycError (KycStatus × KycStatus)
  check_hook c w l = do
    constrain (T.mint_of l c.source_token == c.mint)
    constrain (H.program_of l c.source_token == token_2022)
    constrain (T.is_mint l c.mint)
    constrain (T.mint_of l c.destination_token == c.mint)
    constrain (H.program_of l c.destination_token == token_2022)
    constrain (c.extra_account_meta_list == pda (meta_list_seeds c.mint))
    registry ← load (w.registries c.kyc_registry)
    constrain (c.kyc_registry == pda (registry_seeds c.mint))
    source_kyc ← load (w.statuses c.source_kyc_status)
    constrain (c.source_kyc_status == pda (status_seeds (T.owner_of l c.source_token)))
    destination_kyc ← load (w.statuses c.destination_kyc_status)
    constrain (c.destination_kyc_status == pda (status_seeds (T.owner_of l c.destination_token)))
    ok (source_kyc, destination_kyc)

  unfoldable pub transfer_hook : TransferHook → ℕ → ℤ → World → Ledger → Result KycError (Unit {0})
  unfolding check_hook check_is_transferring check_status
  transfer_hook c amount now w l = do
    (source_kyc, destination_kyc) ← check_hook c w l
    check_is_transferring (transferring l c.source_token)
    check_status source_not_verified source_kyc_expired now source_kyc
    check_status destination_not_verified destination_kyc_expired now destination_kyc

module _ (unpack : List ℕ → Option TransferHookInstruction)
    (unpack_transferring : List ℕ → Option Bool) where
  -- The part of `fallback` for a transfer, by the data of the accounts.
  unfoldable pub execute_fallback : List (List ℕ) → Result KycError (Unit {0})
  unfolding check_is_transferring byte_verified
  execute_fallback (a0 ∷ a1 ∷ a2 ∷ a3 ∷ a4 ∷ a5 ∷ a6 ∷ a7 ∷ rest) = do
    check_is_transferring (unpack_transferring a0)
    require (byte_verified a6) source_not_verified
    require (byte_verified a7) destination_not_verified
  execute_fallback _ = err (program not_enough_account_keys)

  unfoldable pub fallback : List (List ℕ) → List ℕ → Result KycError (Unit {0})
  unfolding execute_fallback
  fallback accounts data_bytes = called (unpack data_bytes) >>= λ instruction. elim instruction [
    | execute amount ↦ execute_fallback accounts
    | others ↦ err (program invalid_instruction_data)
  ]
