-- ===== src/Vault/Access.antt =====
-- Who may do what: the operations of the admin and those of the manager.
use cross_fluf.Base.{ℕ, ◌≢◌, Bool, ok, arith, List, Option}
use cross_fluf.Base.Int.{ℤ}
use cross_fluf.Solana.{Pda}
use cross_fluf.Token.{TokenProgram}
use cross_fluf.Vault.State.{Vault, VaultConfig, Strategy}
use cross_fluf.Vault.Setup.{UpdateConfig, update_config, set_active}
use cross_fluf.Vault.Strategies.{
  Manage, AddStrategy, add_strategy, allocate, deallocate, report_yield, remove_strategy,
}
use cross_fluf.Vault.Fees.{HarvestFees, harvest_fees}

-- For a signer who is not the vault's admin, none of the admin's operations succeeds: adding or
-- removing a strategy, a change of the configuration, a pause, a harvest of fees.
pub vault_admin_only :
    {Ledger : Type 0} (T : TokenProgram Ledger) (pda : Pda) (v : Vault) (now : ℤ) (a : AddStrategy)
    (u : UpdateConfig) (m : Manage) (f : HarvestFees)
    → a.admin.key ≢ v.admin
    → u.admin.key ≢ v.admin
    → m.authority.key ≢ v.admin
    → f.admin.key ≢ v.admin
    → ((name protocol : List ℕ) (s : Option Strategy) (r : Vault × Strategy)
        → add_strategy pda a name protocol now v s ≢ ok r)
      × ((s r : Strategy) → remove_strategy m v s ≢ ok r)
      × ((config : VaultConfig) (r : Vault) → update_config u config v ≢ ok r)
      × ((active : Bool) (r : Vault) → set_active u active v ≢ ok r)
      × ((l : Ledger) (r : Vault × Ledger) → harvest_fees T pda f now v l ≢ ok r)
unfolding add_strategy remove_strategy update_config set_active harvest_fees
vault_admin_only T pda v now a u m f na nu nm nf = (
  λ name protocol s r h. ground arith,
  λ s r h. ground arith,
  λ config r h. ground arith,
  λ active r h. ground arith,
  λ l r h. ground arith,
)

-- For a signer who is not the vault's manager, none of the manager's operations succeeds: moving
-- idle assets to a strategy or back, a report of its value.
pub vault_manager_only :
    (v : Vault) (now : ℤ) (m : Manage) (amount : ℕ) (s : Strategy) (r : Vault × Strategy)
    → m.authority.key ≢ v.manager
    → (allocate m amount now v s ≢ ok r)
      × (deallocate m amount now v s ≢ ok r)
      × (report_yield m amount now v s ≢ ok r)
unfolding allocate deallocate report_yield
vault_manager_only v now m amount s r nm = (λ h. ground arith, λ h. ground arith, λ h. ground arith)
