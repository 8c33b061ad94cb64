-- ===== src/Solana.antt =====
-- What the Solana runtime and Anchor hand to an instruction. A public key is only compared, so it
-- is a number. The derivation of program addresses (`find_program_address`) is a parameter of the
-- modules that use it, a function of the type `Pda`, one for each program.
use Prim.Native.String.{String}
use cross_fluf.Base.{
  ℕ, Bool, ◌||◌, ◌==◌, if◌then◌else◌, List, Option, none, some, Result, ok, err, constraint,
  constrain,
}

abbrev pub Pubkey : Type 0
Pubkey = ℕ

-- An account as it is passed to a program: its address, and whether it signed.
pub record AccountInfo : Type 0 where
  pub key : Pubkey
  pub is_signer : Bool

pub data Seed : Type 0 where
  literal : String → Seed
  address : Pubkey → Seed
  bytes : List ℕ → Seed

-- The address that a program derives from seeds.
abbrev pub Pda : Type 0
Pda = List Seed → Pubkey

-- `CpiContext::new`: the authority signs if it signed the instruction.
abbrev pub cpi_new : AccountInfo → AccountInfo
cpi_new authority = authority

-- `CpiContext::new_with_signer`: the authority also signs if the seeds derive its address.
abbrev pub cpi_new_with_signer : Pubkey → AccountInfo → AccountInfo
cpi_new_with_signer derived authority = record authority {
  is_signer = authority.is_signer || authority.key == derived;
}

module _ {E : Type 0} where
  -- `Signer<'info>`
  abbrev pub signer : AccountInfo → Result E (Unit {0})
  signer a = constrain a.is_signer

  -- `Account<'info, A>`: an account of the program that has been initialized.
  abbrev pub load {ℓ} : {A : Type ℓ} → Option A → Result E A
  load none = err constraint
  load (some a) = ok a

  -- The constraint `init`: there is no such account yet.
  abbrev pub init {ℓ} : {A : Type ℓ} → Option A → Result E (Unit {0})
  init none = ok tt
  init (some a) = err constraint

-- The accounts of one type that a program owns, by address.
abbrev pub Accounts {ℓ} : Type ℓ → Type ℓ
Accounts A = Pubkey → Option A

abbrev pub store {ℓ} : {A : Type ℓ} → Pubkey → A → Accounts A → Accounts A
store k a accounts j = if j == k then some a else accounts j
