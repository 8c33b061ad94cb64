-- ===== src/Token/Hooked.antt =====
-- Token-2022 as the vault calls it: `spl_token_2022::onchain::invoke_transfer_checked`, which runs
-- a mint's transfer hook with the extra accounts given and withholds the transfer fee that the mint
-- is configured with.
use cross_fluf.Base.{ℕ, ◌+◌, ◌≤◌, ◌≡◌, true, List, Option, some}
use cross_fluf.Solana.{Pubkey, AccountInfo}
use cross_fluf.Token.{TokenProgram, at}

-- The arguments of a call, in the order of the function's parameters.
pub record Transfer : Type 0 where
  pub program : Pubkey
  pub source : Pubkey
  pub mint : Pubkey
  pub destination : Pubkey
  pub authority : AccountInfo
  pub additional : List Pubkey
  pub amount : ℕ
  pub decimals : ℕ

pub record HookedProgram (Ledger : Type 0) : Type 0 where
  -- the token program that a token account belongs to
  pub program_of : Ledger → Pubkey → Pubkey
  -- what is withheld from a transfer of an amount of a mint
  pub withheld : Ledger → Pubkey → ℕ → ℕ
  pub transfer_checked : Transfer → Ledger → Option Ledger

module _ {Ledger : Type 0} (T : TokenProgram Ledger) (H : HookedProgram Ledger) where
  -- What a transfer that succeeded has done: the amount has left the source, and the destination
  -- has got it less what was withheld.
  pub record TransferredChecked (t : Transfer) (l l' : Ledger) : Type 0 where
    pub signed : t.authority.is_signer ≡ true
    pub funded : t.amount ≤ T.amount l t.source
    pub fee_le : H.withheld l t.mint t.amount ≤ t.amount
    pub source_mint : T.mint_of l t.source ≡ t.mint
    pub destination_mint : T.mint_of l t.destination ≡ t.mint
    pub scale : T.decimals l t.mint ≡ t.decimals
    pub amounts :
        (k : Pubkey)
        → T.amount l' k
            + at T k t.source t.amount
            + at T k t.destination (H.withheld l t.mint t.amount)
          ≡ T.amount l k + at T k t.destination t.amount
    pub mints : (k : Pubkey) → T.mint_of l' k ≡ T.mint_of l k
    pub owners : (k : Pubkey) → T.owner_of l' k ≡ T.owner_of l k
    pub supplies : (m : Pubkey) → T.supply l' m ≡ T.supply l m

  pub record IsHookedProgram : Type 0 where
    pub transferred :
        (t : Transfer) (l l' : Ledger)
        → H.transfer_checked t l ≡ some l'
        → TransferredChecked t l l'
