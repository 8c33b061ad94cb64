-- ===== src/Token.antt =====
-- The token programs that the source calls (SPL Token and Token-2022), which are not part of the
-- repository: an interface of the calls and the account fields that the source uses, over an
-- unknown ledger of token accounts and mints, and the documented effect of each call that succeeds.

pub mod Hooked
pub mod Memory
use cross_fluf.Base.{
  ℕ, ◌+◌, ◌≤◌, ◌<◌, ◌≡◌, ◌≢◌, Bool, true, false, ◌==◌, if◌then◌else◌, Option, none, some,
}
use cross_fluf.Base.Words.{u64_mod}
use cross_fluf.Solana.{Pubkey, AccountInfo}

pub record TokenProgram (Ledger : Type 0) : Type 0 where
  -- `TokenAccount.mint`, `TokenAccount.owner`, `TokenAccount.amount`
  pub mint_of : Ledger → Pubkey → Pubkey
  pub owner_of : Ledger → Pubkey → Pubkey
  pub amount : Ledger → Pubkey → ℕ
  -- `Mint.supply`, `Mint.decimals`, `Mint.mint_authority`
  pub supply : Ledger → Pubkey → ℕ
  pub decimals : Ledger → Pubkey → ℕ
  pub mint_authority : Ledger → Pubkey → Option Pubkey
  -- whether an account is a token account or a mint that has been initialized, and whether it is
  -- a mint
  pub is_open : Ledger → Pubkey → Bool
  pub is_mint : Ledger → Pubkey → Bool
  -- `init` of a token account: account, mint, owner
  pub open_account : Pubkey → Pubkey → Pubkey → Ledger → Option Ledger
  -- `init` of a mint: mint, decimals, authority
  pub open_mint : Pubkey → ℕ → Pubkey → Ledger → Option Ledger
  -- `token::transfer`: from, to, authority, amount
  pub transfer : Pubkey → Pubkey → AccountInfo → ℕ → Ledger → Option Ledger
  -- `token::mint_to`: mint, to, authority, amount
  pub mint_to : Pubkey → Pubkey → AccountInfo → ℕ → Ledger → Option Ledger
  -- `token::burn`: mint, from, authority, amount
  pub burn : Pubkey → Pubkey → AccountInfo → ℕ → Ledger → Option Ledger

module _ {Ledger : Type 0} (T : TokenProgram Ledger) where
  open T use {
    amount, supply, mint_of, owner_of, mint_authority, decimals, is_open, is_mint, open_account,
    open_mint, transfer, mint_to, burn,
  }

  -- `k` is the account that the amount counts at.
  abbrev at : Pubkey → Pubkey → ℕ → ℕ
  at k here n = if k == here then n else 0

  -- What a transfer of `n` that succeeds has done: the authority signed, the source held `n`, and
  -- `n` has moved.
  pub record Transferred (from to : Pubkey) (a : AccountInfo) (n : ℕ) (l l' : Ledger) : Type 0 where
    pub signed : a.is_signer ≡ true
    pub funded : n ≤ amount l from
    pub same_mint : mint_of l from ≡ mint_of l to
    pub mints : (k : Pubkey) → mint_of l' k ≡ mint_of l k
    pub owners : (k : Pubkey) → owner_of l' k ≡ owner_of l k
    pub amounts : (k : Pubkey) → amount l' k + at k from n ≡ amount l k + at k to n
    pub supplies : (m : Pubkey) → supply l' m ≡ supply l m

  pub record Minted (mint to : Pubkey) (a : AccountInfo) (n : ℕ) (l l' : Ledger) : Type 0 where
    pub signed : a.is_signer ≡ true
    pub in_range : supply l mint + n < u64_mod
    pub same_mint : mint_of l to ≡ mint
    pub mints : (k : Pubkey) → mint_of l' k ≡ mint_of l k
    pub owners : (k : Pubkey) → owner_of l' k ≡ owner_of l k
    pub amounts : (k : Pubkey) → amount l' k ≡ amount l k + at k to n
    pub supplies : (m : Pubkey) → supply l' m ≡ supply l m + at m mint n

  pub record Burned (mint from : Pubkey) (a : AccountInfo) (n : ℕ) (l l' : Ledger) : Type 0 where
    pub signed : a.is_signer ≡ true
    pub funded : n ≤ amount l from
    pub covered : n ≤ supply l mint
    pub same_mint : mint_of l from ≡ mint
    pub mints : (k : Pubkey) → mint_of l' k ≡ mint_of l k
    pub owners : (k : Pubkey) → owner_of l' k ≡ owner_of l k
    pub amounts : (k : Pubkey) → amount l' k + at k from n ≡ amount l k
    pub supplies : (m : Pubkey) → supply l' m + at m mint n ≡ supply l m

  -- A new account holds nothing, and a new mint has no supply.
  pub record Opened (k mint owner : Pubkey) (l l' : Ledger) : Type 0 where
    pub was_free : is_open l k ≡ false
    pub opened : is_open l' k ≡ true
    pub mint_set : mint_of l' k ≡ mint
    pub owner_set : owner_of l' k ≡ owner
    pub empty : amount l' k ≡ 0
    pub amounts : (j : Pubkey) → j ≢ k → amount l' j ≡ amount l j
    pub mints : (j : Pubkey) → j ≢ k → mint_of l' j ≡ mint_of l j
    pub owners : (j : Pubkey) → j ≢ k → owner_of l' j ≡ owner_of l j
    pub supplies : (m : Pubkey) → supply l' m ≡ supply l m
    pub authorities : (m : Pubkey) → mint_authority l' m ≡ mint_authority l m

  pub record MintOpened (m : Pubkey) (d : ℕ) (authority : Pubkey) (l l' : Ledger) : Type 0 where
    pub was_free : is_open l m ≡ false
    pub empty : supply l' m ≡ 0
    pub mint_set : is_mint l' m ≡ true
    pub decimals_set : decimals l' m ≡ d
    pub authority_set : mint_authority l' m ≡ some authority
    pub amounts : (j : Pubkey) → amount l' j ≡ amount l j
    pub mints : (j : Pubkey) → mint_of l' j ≡ mint_of l j
    pub owners : (j : Pubkey) → owner_of l' j ≡ owner_of l j
    pub supplies : (j : Pubkey) → j ≢ m → supply l' j ≡ supply l j

  -- The documented behaviour of the token program.
  pub record IsTokenProgram : Type 0 where
    pub transferred :
        (from to : Pubkey) (a : AccountInfo) (n : ℕ) (l l' : Ledger)
        → transfer from to a n l ≡ some l'
        → Transferred from to a n l l'
    pub minted :
        (mint to : Pubkey) (a : AccountInfo) (n : ℕ) (l l' : Ledger)
        → mint_to mint to a n l ≡ some l'
        → Minted mint to a n l l'
    pub burned :
        (mint from : Pubkey) (a : AccountInfo) (n : ℕ) (l l' : Ledger)
        → burn mint from a n l ≡ some l'
        → Burned mint from a n l l'
    pub opened :
        (k mint owner : Pubkey) (l l' : Ledger)
        → open_account k mint owner l ≡ some l'
        → Opened k mint owner l l'
    pub mint_opened :
        (m : Pubkey) (d : ℕ) (authority : Pubkey) (l l' : Ledger)
        → open_mint m d authority l ≡ some l'
        → MintOpened m d authority l l'
