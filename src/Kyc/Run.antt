-- ===== src/Kyc/Run.antt =====
-- The registries and statuses of the program over any sequence of instructions.
use cross_fluf.Base.{ℕ, ◌≡◌, Bool, sym, ◌∙◌, arith, Option, none, some, ok}
use cross_fluf.Base.Int.{ℤ}
use cross_fluf.Solana.{Pubkey, Pda}
use cross_fluf.Token.{TokenProgram}
use cross_fluf.Token.Hooked.{HookedProgram}
use cross_fluf.Kyc.State.{KycRegistry, KycStatus, World, registry_seeds, status_seeds}
use cross_fluf.Kyc.Registry.{
  InitializeRegistry, InitializeExtraAccountMetaList, SetKycStatus, TransferAuthority,
  initialize_registry, initialize_extra_account_meta_list, set_kyc_status, transfer_authority,
}
use cross_fluf.Kyc.Hook.{TransferHook, check_hook, transfer_hook}
use cross_fluf.Kyc.Approval.{IsValidAt, transfer_hook_iff}

module _ (pda : Pda) where
  pub data Step (w w' : World) : Type 0 where
    registers :
        (c : InitializeRegistry) (is_mint : Pubkey → Bool)
        → initialize_registry pda is_mint c w ≡ ok w'
        → Step w w'
    lists :
        (c : InitializeExtraAccountMetaList) (is_mint : Pubkey → Bool)
        → initialize_extra_account_meta_list pda is_mint c w ≡ ok w'
        → Step w w'
    sets :
        (c : SetKycStatus) (is_verified : Bool) (expires_at now : ℤ)
        → set_kyc_status pda c is_verified expires_at now w ≡ ok w'
        → Step w w'
    hands :
        (c : TransferAuthority) (new_authority : Pubkey)
        → transfer_authority pda c new_authority w ≡ ok w'
        → Step w w'

  pub data Reach (w : World) : World → Type 0 where
    here : Reach w w
    next : {u v : World} → Reach w u → Step u v → Reach w v

  -- Every registry and every status is at the address of its mint or wallet.
  pub record IsAddressed (w : World) : Type 0 where
    pub registries :
        (k : Pubkey) (r : KycRegistry) → w.registries k ≡ some r → k ≡ pda (registry_seeds r.mint)
    pub statuses :
        (k : Pubkey) (s : KycStatus) → w.statuses k ≡ some s → k ≡ pda (status_seeds s.wallet)

  Step-IsAddressed : (w w' : World) → IsAddressed w → Step w w' → IsAddressed w'
  Step-IsAddressed w w' a (registers c is_mint h) = record {
    registries = λ k r e. unfold initialize_registry in ground (arith, a.registries k r);
    statuses = λ k s e. unfold initialize_registry in ground (arith, a.statuses k s);
  }
  Step-IsAddressed w w' a (lists c is_mint h) = record {
    registries =
        λ k r e. unfold initialize_extra_account_meta_list in ground (arith, a.registries k r);
    statuses = λ k s e. unfold initialize_extra_account_meta_list in ground (arith, a.statuses k s);
  }
  Step-IsAddressed w w' a (sets c is_verified expires_at now h) = record {
    registries = λ k r e. unfold set_kyc_status in ground (arith, a.registries k r);
    statuses = λ k s e. unfold set_kyc_status in ground (arith, a.statuses k s);
  }
  Step-IsAddressed w w' a (hands c new_authority h) = record {
    registries = λ k r e. unfold transfer_authority in ground (arith, a.registries k r);
    statuses = λ k s e. unfold transfer_authority in ground (arith, a.statuses k s);
  }

  pub run-IsAddressed : (w w' : World) → IsAddressed w → Reach w w' → IsAddressed w'
  run-IsAddressed w _ a here = a
  run-IsAddressed w _ a (next {u = u} {v = v} r s) =
      Step-IsAddressed u v (run-IsAddressed w u a r) s

-- The statuses that the hook loads.
record Loaded {Ledger : Type 0} (T : TokenProgram Ledger) (pda : Pda) (c : TransferHook) (w : World)
    (l : Ledger) (s d : KycStatus) : Type 0 where
  source : w.statuses c.source_kyc_status ≡ some s
  destination : w.statuses c.destination_kyc_status ≡ some d
  source_address : c.source_kyc_status ≡ pda (status_seeds (T.owner_of l c.source_token))
  destination_address :
      c.destination_kyc_status ≡ pda (status_seeds (T.owner_of l c.destination_token))

loaded :
    {Ledger : Type 0} (T : TokenProgram Ledger) (H : HookedProgram Ledger)
    (transferring : Ledger → Pubkey → Option Bool) (token_2022 : Pubkey) (pda : Pda)
    (c : TransferHook) (w : World) (l : Ledger) (s d : KycStatus)
    → check_hook T H transferring token_2022 pda c w l ≡ ok (s, d)
    → Loaded T pda c w l s d
unfolding check_hook
loaded T H transferring token_2022 pda c w l s d h = record {
  source = ground arith;
  destination = ground arith;
  source_address = ground arith;
  destination_address = ground arith;
}

-- After instructions from an empty state, whatever they are: where distinct wallets have distinct
-- status addresses, and `transfer_hook` approves a transfer, the program holds a status at the
-- address of the owner of each of the two token accounts. It is that wallet's own, verified, with an
-- expiry that is later than now or not positive.
pub approved_wallets :
    {Ledger : Type 0} (T : TokenProgram Ledger) (H : HookedProgram Ledger)
    (transferring : Ledger → Pubkey → Option Bool) (token_2022 : Pubkey) (pda : Pda)
    → ((a b : Pubkey) → pda (status_seeds a) ≡ pda (status_seeds b) → a ≡ b)
    → (w₀ w : World) → ((k : Pubkey) → w₀.registries k ≡ none)
    → ((k : Pubkey) → w₀.statuses k ≡ none)
    → Reach pda w₀ w
    → (c : TransferHook) (amount : ℕ) (now : ℤ) (l : Ledger)
    → transfer_hook T H transferring token_2022 pda c amount now w l ≡ ok tt
    → (s : KycStatus) × (d : KycStatus) × (w.statuses
          (pda (status_seeds (T.owner_of l c.source_token)))
        ≡ some s)
      × (w.statuses (pda (status_seeds (T.owner_of l c.destination_token))) ≡ some d)
      × (s.wallet ≡ T.owner_of l c.source_token)
      × (d.wallet ≡ T.owner_of l c.destination_token)
      × IsValidAt now s
      × IsValidAt now d
unfolding check_hook
approved_wallets T H transferring token_2022 pda apart w₀ w no_registry no_status r c amount now l
      h =
    let addressed₀ : IsAddressed pda w₀ = record {
      registries = λ k r e. absurd (ground (arith, no_registry k));
      statuses = λ k s e. absurd (ground (arith, no_status k));
    } in
    let addressed = run-IsAddressed pda w₀ w addressed₀ r in
    let (s, d, a) = (transfer_hook_iff T H transferring token_2022 pda c amount now w l).0 h in
    let found = loaded T H transferring token_2022 pda c w l s d a.accounts in
    (
      s,
      d,
      rw (← found.source_address) found.source,
      rw (← found.destination_address) found.destination,
      apart _ _ (sym (addressed.statuses _ s found.source) ∙ found.source_address),
      apart _ _ (sym (addressed.statuses _ d found.destination) ∙ found.destination_address),
      a.source_valid,
      a.destination_valid,
    )
