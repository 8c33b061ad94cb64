-- ===== src/Kyc/Documented.antt =====
-- `transfer_hook` against what the comments say of `expires_at`.
use cross_fluf.Base.{ℕ, ◌≡◌, ◌≢◌, ◌↔◌, ◌⊎◌, inl, Bool, true, Option, some, arith, Result, ok}
use cross_fluf.Base.Int.{ℤ, pos, negsuc, ◌≤ℤ◌, ◌<ℤ◌}
use cross_fluf.Solana.{Pubkey, Pda}
use cross_fluf.Token.{TokenProgram}
use cross_fluf.Token.Hooked.{HookedProgram}
use cross_fluf.Kyc.State.{KycError, KycStatus, World}
use cross_fluf.Kyc.Hook.{TransferHook, check_hook, transfer_hook}
use cross_fluf.Kyc.Approval.{IsValidAt, transfer_hook_iff}

-- A status that is valid as the comments on `expires_at` have it: -1 stands for never, and any
-- other value is a timestamp.
abbrev pub IsDocumentedAt : ℤ → KycStatus → Type 0
IsDocumentedAt now s = (s.is_verified ≡ true) × ((s.expires_at ≡ negsuc 0) ⊎ (now <ℤ s.expires_at))

valid-documented :
    (now : ℤ) (s : KycStatus)
    → (s.expires_at ≡ negsuc 0) ⊎ (pos 0 <ℤ s.expires_at)
    → IsValidAt now s ↔ IsDocumentedAt now s
valid-documented now s range = ground arith

-- A check finds one pair of statuses.
same_statuses :
    (r : Result KycError (KycStatus × KycStatus)) (s d s' d' : KycStatus)
    → r ≡ ok (s, d)
    → r ≡ ok (s', d')
    → (s' ≡ s) × (d' ≡ d)
same_statuses r s d s' d' h k = (cc, cc)

module _ {Ledger : Type 0} (T : TokenProgram Ledger) (H : HookedProgram Ledger)
    (transferring : Ledger → Pubkey → Option Bool) (token_2022 : Pubkey) (pda : Pda)
    (c : TransferHook) (amount : ℕ) (now : ℤ) (w : World) (l : Ledger) where
  -- Where the accounts pass the constraints during a transfer, and the expiry of each status is -1 or
  -- positive, `transfer_hook` does what the comments say: it approves exactly if both are verified,
  -- with the expiry -1, which stands for never, or one that is later than now.
  pub transfer_hook_documented :
      (s d : KycStatus)
      → check_hook T H transferring token_2022 pda c w l ≡ ok (s, d)
      → transferring l c.source_token ≡ some true
      → (s.expires_at ≡ negsuc 0) ⊎ (pos 0 <ℤ s.expires_at)
      → (d.expires_at ≡ negsuc 0) ⊎ (pos 0 <ℤ d.expires_at)
      → (transfer_hook T H transferring token_2022 pda c amount now w l ≡ ok tt)
        ↔ (IsDocumentedAt now s × IsDocumentedAt now d)
  transfer_hook_documented s d e flag sr dr = (
    λ h.
        let (s', d', a) =
          (transfer_hook_iff T H transferring token_2022 pda c amount now w l).0 h in
        let (from, to) = same_statuses _ s d s' d' e a.accounts in
        (
          (valid-documented now s sr).0 (rw from at a.source_valid),
          (valid-documented now d dr).0 (rw to at a.destination_valid),
        ),
    λ k. (transfer_hook_iff T H transferring token_2022 pda c amount now w l).1 (
      s,
      d,
      record {
        accounts = e;
        in_transfer = flag;
        source_valid = (valid-documented now s sr).1 k.0;
        destination_valid = (valid-documented now d dr).1 k.1;
      },
    ),
  )

  -- Where the accounts pass the constraints during a transfer, the destination is verified with an
  -- expiry that is later than now or not positive, and the source is verified with an expiry that is
  -- zero, or negative and not -1: the source's status is not valid as the comments have it, at any
  -- time from zero on, and `transfer_hook` approves the transfer all the same.
  pub hook_accepts_past_expiry :
      (s d : KycStatus)
      → check_hook T H transferring token_2022 pda c w l ≡ ok (s, d)
      → transferring l c.source_token ≡ some true
      → s.is_verified ≡ true
      → s.expires_at ≤ℤ pos 0
      → s.expires_at ≢ negsuc 0
      → pos 0 ≤ℤ now
      → IsValidAt now d
      → (¬ IsDocumentedAt now s)
        × (transfer_hook T H transferring token_2022 pda c amount now w l ≡ ok tt)
  hook_accepts_past_expiry s d e flag verified past other later to = (
    λ k. ground arith,
    (transfer_hook_iff T H transferring token_2022 pda c amount now w l).1 (
      s,
      d,
      record {
        accounts = e;
        in_transfer = flag;
        source_valid = (verified, inl past);
        destination_valid = to;
      },
    ),
  )
