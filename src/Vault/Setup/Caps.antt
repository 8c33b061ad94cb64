-- ===== src/Vault/Setup/Caps.antt =====
-- The limits that a new vault and a new configuration have to keep.
use cross_fluf.Base.{
  ℕ, ◌≤◌, ◌≡◌, true, List, Option, none, some, ok, inl, inr, arith, ◌↔◌, Result-cases,
}
use cross_fluf.Base.Int.{ℤ}
use cross_fluf.Solana.{Pda}
use cross_fluf.Token.{TokenProgram}
use cross_fluf.Token.Hooked.{HookedProgram}
use cross_fluf.Vault.State.{Vault, VaultConfig, length}
use cross_fluf.Vault.Setup.{InitializeVault, UpdateConfig, initialize_vault, update_config}

-- An initialization that succeeds makes a vault where there was none, under a name of at most 32
-- bytes: it is empty, its LP supply is that of its LP mint, whose authority is the one passed, and
-- its performance fee is at most half and its management fee at most a tenth.
pub initialize_vault_limits :
    {Ledger : Type 0} (T : TokenProgram Ledger) (H : HookedProgram Ledger) (pda : Pda)
    (c : InitializeVault) (name : List ℕ) (config : VaultConfig) (now : ℤ) (existing : Option Vault)
    (l : Ledger) (v : Vault)
    → initialize_vault T H pda c name config now existing l ≡ ok v
    → (existing ≡ none)
      × (length name ≤ 32)
      × (v.total_assets ≡ 0)
      × (v.idle_assets ≡ 0)
      × (v.lp_supply ≡ T.supply l v.lp_mint)
      × (T.mint_authority l v.lp_mint ≡ some c.lp_mint_authority)
      × (v.performance_fee_bps ≤ 5000)
      × (v.management_fee_bps ≤ 1000)
unfolding initialize_vault
initialize_vault_limits T H pda c name config now existing l v h = (
  ground arith,
  ground arith,
  ground arith,
  ground arith,
  ground arith,
  ground arith,
  ground arith,
  ground arith,
)

-- A configuration is accepted exactly from the vault's admin, signing, with a performance fee of at
-- most half. Its other fees can be anything: the management fee is not limited to a tenth.
pub update_config_iff :
    (c : UpdateConfig) (config : VaultConfig) (v : Vault)
    → ((w : Vault) × (update_config c config v ≡ ok w))
      ↔ ((c.admin.is_signer ≡ true) × (c.admin.key ≡ v.admin) × (config.performance_fee_bps ≤ 5000))
unfolding update_config
update_config_iff c config v = (
  λ h. (ground (arith, h.1), ground (arith, h.1), ground (arith, h.1)),
  λ k. elim (Result-cases (update_config c config v)) [
    | inl done ↦ done
    | inr (e, refused) ↦ absurd (ground (arith, k.0, k.1, k.2))
  ],
)
