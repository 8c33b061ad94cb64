-- ===== src/Kyc/Scenario.antt =====
-- A registry for the mint 7 with two verified wallets, over the token program of Token/Memory.
use Prim.Native.String.{len}
use cross_fluf.Base.{
  ◌||◌, Bool, ℕ, ◌+◌, ◌*◌, true, Bool, List, [], ◌∷◌, Option, none, some, Result, ok, err,
  if◌then◌else◌, ◌==◌,
}
use cross_fluf.Base.Int.{pos, negsuc}
use cross_fluf.Solana.{Pubkey, literal, address, Pda}
use cross_fluf.Token.Memory.{Book}
use cross_fluf.Kyc.State.{KycError, KycStatus, World}
use cross_fluf.Kyc.Registry.{
  TransferAuthority, initialize_registry, set_kyc_status, transfer_authority,
}
use cross_fluf.Kyc.Authority.{registering, verifying}
use cross_fluf.Kyc.Hook.{TransferHook, TransferHookInstruction, execute}

-- Some derivation of addresses: the text's length, and the key in hundreds.
abbrev pub derive : Pda
derive (literal s ∷ address k ∷ []) = 100 * k + len s
derive _ = 0

-- The token accounts 11 and 12 of the wallets 1 and 2.
abbrev pub start : Book
start = record {
  amounts = λ k. 1000;
  mints = λ k. 7;
  owners = λ k. if k == 11 then 1 else 2;
  opens = λ k. true;
  kinds = λ k. k == 7;
  supplies = λ m. 2000;
  scales = λ m. 6;
  authorities = λ m. none;
}

-- The mints are 7 and 99.
abbrev pub mints : Pubkey → Bool
mints k = k == 7 || k == 99

abbrev pub empty_world : World
empty_world = record { registries = λ k. none; statuses = λ k. none; meta_lists = λ k. none }

abbrev pub after : World → Result KycError World → World
after w (ok w') = w'
after w (err e) = w

-- The authority is 9. Wallet 1 is verified until 1000, wallet 2 for ever.
unfoldable pub w₁ : World
unfolding initialize_registry
w₁ = after empty_world (initialize_registry derive mints (registering derive 9 7 250) empty_world)

unfoldable pub w₂ : World
unfolding w₁ set_kyc_status
w₂ = after w₁ (set_kyc_status derive (verifying derive 9 7 1 251) true (pos 1000) (pos 10) w₁)

unfoldable pub w₃ : World
unfolding w₂
w₃ = after w₂ (set_kyc_status derive (verifying derive 9 7 2 252) true (negsuc 0) (pos 20) w₂)

abbrev pub giving : TransferAuthority
giving = record { authority = record { key = 9; is_signer = true }; registry = 712 }

unfoldable pub w₄ : World
unfolding w₃ transfer_authority
w₄ = after w₃ (transfer_authority derive giving 8 w₃)

-- A transfer from wallet 1 to wallet 2.
abbrev pub moving : TransferHook
moving = record {
  source_token = 11;
  mint = 7;
  destination_token = 12;
  owner = 1;
  extra_account_meta_list = 719;
  kyc_registry = 712;
  source_kyc_status = 110;
  destination_kyc_status = 210;
}

abbrev pub in_transfer : Book → Pubkey → Option Bool
in_transfer l k = some true

-- An encoding whose only distinction is the field that is read.
abbrev pub encode : KycStatus → List ℕ
encode s = 0 ∷ 0 ∷ 0 ∷ 0 ∷ 0 ∷ 0 ∷ 0 ∷ 0 ∷ (if s.is_verified then 1 else 0) ∷ []

abbrev pub unpack : List ℕ → Option TransferHookInstruction
unpack (n ∷ []) = some (execute n)
unpack _ = none

abbrev pub unpack_transferring : List ℕ → Option Bool
unpack_transferring [] = some true
unpack_transferring (b ∷ bs) = none

abbrev pub first_status : KycStatus
first_status = record {
  is_verified = true;
  wallet = 1;
  verified_at = pos 10;
  expires_at = pos 1000;
  verified_by = 9;
  bump = 251;
}

abbrev pub second_status : KycStatus
second_status = record {
  is_verified = true;
  wallet = 2;
  verified_at = pos 20;
  expires_at = negsuc 0;
  verified_by = 9;
  bump = 252;
}

-- Wallet 1 again, verified with the expiry 0.
unfoldable pub past : World
unfolding w₃
past = after w₃ (set_kyc_status derive (verifying derive 9 7 1 251) true (pos 0) (pos 30) w₃)

abbrev pub past_status : KycStatus
past_status = record first_status { verified_at = pos 30; expires_at = pos 0 }
