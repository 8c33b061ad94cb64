-- ===== src/Token/Memory.antt =====
-- A token program over functions, which shows that the assumptions on a token program can be met
-- and on which the examples run.
use cross_fluf.Base.{
  ℕ, ◌+◌, ◌-◌, ◌≡◌, Bool, true, false, ◌&&◌, ltb, leb, ◌==◌, if◌then◌else◌, Option, none, some,
  arith,
}
use cross_fluf.Base.Words.{u64_mod}
use cross_fluf.Solana.{Pubkey, AccountInfo}
use cross_fluf.Token.{TokenProgram, IsTokenProgram, Transferred, Minted, Burned, Opened, MintOpened}
use cross_fluf.Token.Hooked.{Transfer, HookedProgram, TransferredChecked, IsHookedProgram}

pub record Book : Type 0 where
  pub amounts : Pubkey → ℕ
  pub mints : Pubkey → Pubkey
  pub owners : Pubkey → Pubkey
  pub opens : Pubkey → Bool
  pub kinds : Pubkey → Bool  -- whether it is a mint
  pub supplies : Pubkey → ℕ
  pub scales : Pubkey → ℕ
  pub authorities : Pubkey → Option Pubkey

abbrev pub set {ℓ} : {A : Type ℓ} → Pubkey → A → (Pubkey → A) → Pubkey → A
set k a f j = if j == k then a else f j

-- Whether an optional key is a key.
abbrev pub names : Option Pubkey → Pubkey → Bool
names none k = false
names (some j) k = j == k

unfoldable pub transfer : Pubkey → Pubkey → AccountInfo → ℕ → Book → Option Book
transfer from to a n b =
    if a.is_signer && b.owners from == a.key && b.mints from == b.mints to && leb n (b.amounts from)
    then some (record b {
      amounts = λ k. b.amounts k + (if k == to then n else 0) - (if k == from then n else 0);
    })
    else none

unfoldable pub mint_to : Pubkey → Pubkey → AccountInfo → ℕ → Book → Option Book
mint_to mint to a n b =
    if a.is_signer
      && names (b.authorities mint) a.key
      && b.mints to == mint
      && ltb (b.supplies mint + n) u64_mod
    then some (record b {
      amounts = λ k. b.amounts k + (if k == to then n else 0);
      supplies = λ m. b.supplies m + (if m == mint then n else 0);
    })
    else none

unfoldable pub burn : Pubkey → Pubkey → AccountInfo → ℕ → Book → Option Book
burn mint from a n b =
    if a.is_signer
      && b.owners from == a.key
      && b.mints from == mint
      && leb n (b.amounts from)
      && leb n (b.supplies mint)
    then some (record b {
      amounts = λ k. b.amounts k - (if k == from then n else 0);
      supplies = λ m. b.supplies m - (if m == mint then n else 0);
    })
    else none

unfoldable pub open_account : Pubkey → Pubkey → Pubkey → Book → Option Book
open_account k mint owner b =
    if b.opens k
    then none
    else some (record b {
      amounts = set k 0 b.amounts;
      mints = set k mint b.mints;
      owners = set k owner b.owners;
      opens = set k true b.opens;
    })

unfoldable pub open_mint : Pubkey → ℕ → Pubkey → Book → Option Book
open_mint m d authority b =
    if b.opens m
    then none
    else some (record b {
      opens = set m true b.opens;
      kinds = set m true b.kinds;
      supplies = set m 0 b.supplies;
      scales = set m d b.scales;
      authorities = set m (some authority) b.authorities;
    })

abbrev pub memory : TokenProgram Book
memory = record {
  mint_of = λ b. b.mints;
  owner_of = λ b. b.owners;
  amount = λ b. b.amounts;
  supply = λ b. b.supplies;
  decimals = λ b. b.scales;
  mint_authority = λ b. b.authorities;
  is_open = λ b. b.opens;
  is_mint = λ b. b.kinds;
  open_account = open_account;
  open_mint = open_mint;
  transfer = transfer;
  mint_to = mint_to;
  burn = burn;
}

transfer-Transferred :
    (from to : Pubkey) (a : AccountInfo) (n : ℕ) (b b' : Book)
    → transfer from to a n b ≡ some b'
    → Transferred memory from to a n b b'
unfolding transfer
transfer-Transferred from to a n b b' h = record {
  signed = ground arith;
  same_mint = ground arith;
  mints = λ k. ground arith;
  owners = λ k. ground arith;
  funded = ground arith;
  amounts = λ k. ground arith;
  supplies = λ m. ground arith;
}

mint_to-Minted :
    (mint to : Pubkey) (a : AccountInfo) (n : ℕ) (b b' : Book)
    → mint_to mint to a n b ≡ some b'
    → Minted memory mint to a n b b'
unfolding mint_to
mint_to-Minted mint to a n b b' h = record {
  signed = ground arith;
  same_mint = ground arith;
  mints = λ k. ground arith;
  owners = λ k. ground arith;
  in_range = ground arith;
  amounts = λ k. ground arith;
  supplies = λ m. ground arith;
}

burn-Burned :
    (mint from : Pubkey) (a : AccountInfo) (n : ℕ) (b b' : Book)
    → burn mint from a n b ≡ some b'
    → Burned memory mint from a n b b'
unfolding burn
burn-Burned mint from a n b b' h = record {
  signed = ground arith;
  same_mint = ground arith;
  mints = λ k. ground arith;
  owners = λ k. ground arith;
  funded = ground arith;
  covered = ground arith;
  amounts = λ k. ground arith;
  supplies = λ m. ground arith;
}

open_account-Opened :
    (k mint owner : Pubkey) (b b' : Book)
    → open_account k mint owner b ≡ some b'
    → Opened memory k mint owner b b'
unfolding open_account
open_account-Opened k mint owner b b' h = ground arith

open_mint-MintOpened :
    (m : Pubkey) (d : ℕ) (authority : Pubkey) (b b' : Book)
    → open_mint m d authority b ≡ some b'
    → MintOpened memory m d authority b b'
unfolding open_mint
open_mint-MintOpened m d authority b b' h = ground arith

pub memory-IsTokenProgram : IsTokenProgram memory
memory-IsTokenProgram = record {
  transferred = transfer-Transferred;
  minted = mint_to-Minted;
  burned = burn-Burned;
  opened = open_account-Opened;
  mint_opened = open_mint-MintOpened;
}

-- Token-2022 over the same functions, for mints without a hook that withhold nothing. Every token
-- account belongs to the program at address 5.
unfoldable pub transfer_checked : Transfer → Book → Option Book
unfolding transfer
transfer_checked t b =
    if b.mints t.source == t.mint
      && b.mints t.destination == t.mint
      && b.scales t.mint == t.decimals
    then transfer t.source t.destination t.authority t.amount b
    else none

abbrev pub hooked_memory : HookedProgram Book
hooked_memory = record {
  program_of = λ b k. 5;
  withheld = λ b m n. 0;
  transfer_checked = transfer_checked;
}

transfer_checked-TransferredChecked :
    (t : Transfer) (b b' : Book)
    → transfer_checked t b ≡ some b'
    → TransferredChecked memory hooked_memory t b b'
unfolding transfer_checked
transfer_checked-TransferredChecked t b b' h = record {
  signed = ground arith;
  funded = ground arith;
  fee_le = omega arith;
  source_mint = ground arith;
  destination_mint = ground arith;
  scale = ground arith;
  amounts = λ k. ground arith;
  mints = λ k. ground arith;
  owners = λ k. ground arith;
  supplies = λ m. ground arith;
}

pub memory-IsHookedProgram : IsHookedProgram memory hooked_memory
memory-IsHookedProgram = record { transferred = transfer_checked-TransferredChecked }
