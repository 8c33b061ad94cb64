-- ===== src/Fluf/State.antt =====
-- The accounts, errors and seeds of programs/fluf/src/lib.rs.
use cross_fluf.Base.{◌==◌, List, [], ◌∷◌, Result, constrain, ◌>>=◌, ◌>>◌}
use cross_fluf.Solana.{Pubkey, Seed, literal, address, Accounts, load}
use cross_fluf.Token.{TokenProgram}

-- `ErrorCode`
pub data FlufError : Type 0 where
  decimals_mismatch invalid_mint_authority mint_authority_mismatch invalid_pool : FlufError
  empty_pool invalid_admin fees_not_paid_back : FlufError

pub record ProgramState : Type 0 where
  pub deployer : Pubkey

pub record Pool : Type 0 where
  pub pool_mint : Pubkey
  pub fluf_mint : Pubkey

-- The accounts of the program, and the ledger of the token program.
pub record World (Ledger : Type 0) : Type 0 where
  pub states : Accounts ProgramState
  pub pools : Accounts Pool
  pub ledger : Ledger

abbrev pub state_seeds : List Seed
state_seeds = literal "program_state" ∷ []

abbrev pub pool_seeds : Pubkey → List Seed
pool_seeds pool_mint = literal "pool" ∷ address pool_mint ∷ []

abbrev pub pool_account_seeds : Pubkey → List Seed
pool_account_seeds pool_mint = literal "pool_account" ∷ address pool_mint ∷ []

abbrev pub fluf_mint_seeds : Pubkey → List Seed
fluf_mint_seeds pool_mint = literal "fluf_mint" ∷ address pool_mint ∷ []

abbrev pub pool_fluf_account_seeds : Pubkey → List Seed
pool_fluf_account_seeds pool_mint = literal "pool_fluf_account" ∷ address pool_mint ∷ []

abbrev pub fee_account_seeds : Pubkey → List Seed
fee_account_seeds pool_mint = literal "fee_account" ∷ address pool_mint ∷ []

module _ {Ledger : Type 0} (T : TokenProgram Ledger) where
  -- `Account<'info, TokenAccount>`, which loads an account that is open, with the constraints
  -- `token::mint = mint, token::authority = owner`.
  abbrev pub token_account : {E : Type 0} → Ledger → Pubkey → Pubkey → Pubkey → Result E (Unit {0})
  token_account l k mint owner = do
    constrain (T.is_open l k)
    constrain (T.mint_of l k == mint)
    constrain (T.owner_of l k == owner)

  -- The constraint `mint::authority = authority`.
  abbrev pub mint_controlled : {E : Type 0} → Ledger → Pubkey → Pubkey → Result E (Unit {0})
  mint_controlled l m authority = do by ← load (T.mint_authority l m); constrain (by == authority)
