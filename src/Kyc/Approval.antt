-- ===== src/Kyc/Approval.antt =====
-- When a transfer is approved: `transfer_hook` and `fallback`.
use cross_fluf.Base.{
  ℕ, ◌≡◌, ◌↔◌, ◌⊎◌, Bool, true, if◌then◌else◌, List, [], ◌∷◌, sym, ◌∙◌, Option, some, refl, arith,
  ok, err, custom, >>=-eq-ok,
}
use cross_fluf.Base.Int.{ℤ, pos, ◌≤ℤ◌, ◌<ℤ◌}
use cross_fluf.Solana.{Pubkey, Pda}
use cross_fluf.Token.{TokenProgram}
use cross_fluf.Token.Hooked.{HookedProgram}
use cross_fluf.Kyc.State.{
  KycError, source_not_verified, destination_not_verified, source_kyc_expired,
  destination_kyc_expired, KycStatus, World,
}
use cross_fluf.Kyc.Hook.{
  TransferHook, TransferHookInstruction, execute, check_status, get_elem?, byte_verified,
  check_is_transferring, check_hook, transfer_hook, fallback,
}

-- A status that the code counts as valid: verified, with an expiry that is not positive or later
-- than now.
abbrev pub IsValidAt : ℤ → KycStatus → Type 0
IsValidAt now s = (s.is_verified ≡ true) × ((s.expires_at ≤ℤ pos 0) ⊎ (now <ℤ s.expires_at))

check_status-valid :
    (e f : KycError) (now : ℤ) (s : KycStatus) → check_status e f now s ≡ ok tt → IsValidAt now s
unfolding check_status
check_status-valid e f now s h = ground arith

valid-check_status :
    (e f : KycError) (now : ℤ) (s : KycStatus) → IsValidAt now s → check_status e f now s ≡ ok tt
unfolding check_status
valid-check_status e f now s h = ground arith

transferring-ok : (o : Option Bool) → check_is_transferring o ≡ ok tt → o ≡ some true
unfolding check_is_transferring
transferring-ok o h = ground arith

module _ (unpack : List ℕ → Option TransferHookInstruction)
    (unpack_transferring : List ℕ → Option Bool) (encode : KycStatus → List ℕ)
    (first_field : (s : KycStatus) → get_elem? (encode s) 8 ≡ some (if s.is_verified then 1 else 0))
    (a0 a1 a2 a3 a4 a5 call : List ℕ) (amount : ℕ)
    (is_execute : unpack call ≡ some (execute amount)) where
  byte_verified-encode : (s : KycStatus) → byte_verified (encode s) ≡ s.is_verified
  unfolding byte_verified
  byte_verified-encode s = ground (arith, first_field s)

  -- On an `Execute` instruction, and statuses whose ninth byte is the verified flag, `fallback`
  -- approves a transfer exactly when the source account is flagged as transferring and both
  -- statuses are verified, whatever their expiry and the time.
  pub fallback_iff :
      (s d : KycStatus)
      → (fallback unpack unpack_transferring
            (a0 ∷ a1 ∷ a2 ∷ a3 ∷ a4 ∷ a5 ∷ encode s ∷ encode d ∷ [])
            call
          ≡ ok tt)
        ↔ ((unpack_transferring a0 ≡ some true) × (s.is_verified ≡ true) × (d.is_verified ≡ true))
  unfolding fallback check_is_transferring
  fallback_iff s d = rw (is_execute, byte_verified-encode s, byte_verified-encode d) (ground arith)

module _ {Ledger : Type 0} (T : TokenProgram Ledger) (H : HookedProgram Ledger)
    (transferring : Ledger → Pubkey → Option Bool) (token_2022 : Pubkey) (pda : Pda)
    (c : TransferHook) (amount : ℕ) (now : ℤ) (w : World) (l : Ledger) where
  -- What an approval has found.
  pub record Approved (s d : KycStatus) : Type 0 where
    pub accounts : check_hook T H transferring token_2022 pda c w l ≡ ok (s, d)
    pub in_transfer : transferring l c.source_token ≡ some true
    pub source_valid : IsValidAt now s
    pub destination_valid : IsValidAt now d

  hook-Approved :
      transfer_hook T H transferring token_2022 pda c amount now w l ≡ ok tt
      → (s : KycStatus) × (d : KycStatus) × Approved s d
  unfolding transfer_hook
  hook-Approved h =
      let ((s, d), e, h₁) = >>=-eq-ok (check_hook T H transferring token_2022 pda c w l) _ h in
      let (_, flag, h₂) = >>=-eq-ok (check_is_transferring (transferring l c.source_token)) _ h₁ in
      let (_, from, to) =
        >>=-eq-ok (check_status source_not_verified source_kyc_expired now s) _ h₂ in
      (
        s,
        d,
        record {
          accounts = e;
          in_transfer = transferring-ok (transferring l c.source_token) flag;
          source_valid = check_status-valid source_not_verified source_kyc_expired now s from;
          destination_valid =
              check_status-valid destination_not_verified destination_kyc_expired now d to;
        },
      )

  Approved-hook :
      (s d : KycStatus)
      → Approved s d
      → transfer_hook T H transferring token_2022 pda c amount now w l ≡ ok tt
  unfolding transfer_hook check_is_transferring
  Approved-hook s d a =
      let from = valid-check_status source_not_verified source_kyc_expired now s a.source_valid in
      let to =
        valid-check_status destination_not_verified destination_kyc_expired now d
          a.destination_valid in
      rw (a.accounts, a.in_transfer, from, to) refl

  -- `transfer_hook` approves a transfer exactly when its accounts pass the constraints, the source
  -- account is flagged as transferring, and the statuses of both owners are verified, each with an
  -- expiry that is later than now or not positive.
  pub transfer_hook_iff :
      (transfer_hook T H transferring token_2022 pda c amount now w l ≡ ok tt)
      ↔ ((s : KycStatus) × (d : KycStatus) × Approved s d)
  transfer_hook_iff = (hook-Approved, λ a. Approved-hook a.0 a.1 a.2)

  module _ (unpack : List ℕ → Option TransferHookInstruction)
      (unpack_transferring : List ℕ → Option Bool) (encode : KycStatus → List ℕ)
      (first_field : (s : KycStatus)
        → get_elem? (encode s) 8 ≡ some (if s.is_verified then 1 else 0))
      (a0 a1 a2 a3 a4 a5 call : List ℕ) (is_execute : unpack call ≡ some (execute amount)) where
    -- What `transfer_hook` approves, `fallback` approves too, on an `Execute` instruction and the data
    -- of the same statuses, where their ninth byte is the verified flag and both handlers read the
    -- same transferring flag.
    pub fallback_of_hook :
        transferring l c.source_token ≡ unpack_transferring a0
        → transfer_hook T H transferring token_2022 pda c amount now w l ≡ ok tt
        → (s : KycStatus) × (d : KycStatus) × (check_hook T H transferring token_2022 pda c w l
            ≡ ok (s, d))
          × (fallback unpack unpack_transferring
                (a0 ∷ a1 ∷ a2 ∷ a3 ∷ a4 ∷ a5 ∷ encode s ∷ encode d ∷ [])
                call
              ≡ ok tt)
    fallback_of_hook same h =
        let (s, d, a) = hook-Approved h in
        (
          s,
          d,
          a.accounts,
          (fallback_iff unpack unpack_transferring encode first_field a0 a1 a2 a3 a4 a5 call amount
                is_execute s d).1
              (sym same ∙ a.in_transfer, a.source_valid.0, a.destination_valid.0),
        )

    -- The converse fails. Where the accounts pass the constraints during a transfer and both
    -- statuses are verified, but that of the source has expired, `transfer_hook` refuses the
    -- transfer, and `fallback` approves it, on an `Execute` instruction and statuses whose ninth
    -- byte is the verified flag.
    pub fallback_accepts_expired :
        (s d : KycStatus)
        → check_hook T H transferring token_2022 pda c w l ≡ ok (s, d)
        → transferring l c.source_token ≡ some true
        → unpack_transferring a0 ≡ some true
        → s.is_verified ≡ true
        → d.is_verified ≡ true
        → pos 0 <ℤ s.expires_at
        → s.expires_at ≤ℤ now
        → (transfer_hook T H transferring token_2022 pda c amount now w l
            ≡ err (custom source_kyc_expired))
          × (fallback unpack unpack_transferring
                (a0 ∷ a1 ∷ a2 ∷ a3 ∷ a4 ∷ a5 ∷ encode s ∷ encode d ∷ [])
                call
              ≡ ok tt)
    unfolding transfer_hook check_is_transferring check_status
    fallback_accepts_expired s d e flag raw sv dv some_expiry over = (
      rw (e, flag, sv) (ground arith),
      (fallback_iff unpack unpack_transferring encode first_field a0 a1 a2 a3 a4 a5 call amount
            is_execute s d).1
          (raw, sv, dv),
    )
