-- ===== src/Engine/Types.antt =====
-- What the engine takes from revm: account and block data as far as the source reads them, and the
-- `DatabaseRef` trait as a record of operations on a state `S`, which stands for whatever a
-- fallback keeps behind its shared references.
use forkyard.Base.{ℕ, List, Option, none, Result, ◌≡◌, ap, ℕ_discrete}

-- Addresses, 32-byte words, balances and block numbers are numbers.
pub record AccountInfo (B : Type 0) : Type 0 where
  pub balance : ℕ
  pub nonce : ℕ
  pub code_hash : ℕ
  pub code : Option B

-- The hash of the empty code.
abbrev pub keccak_empty : ℕ
keccak_empty = 0xc5d2460186f7233c927e7db2dcc703c0e500b653ca82273b7bfad8045d85a470

abbrev pub default_account : {B : Type 0} → AccountInfo B
default_account = record { balance = 0; nonce = 0; code_hash = keccak_empty; code = none }

-- The fields that the source sets; the others keep their defaults.
pub record BlockEnv : Type 0 where
  pub number : ℕ
  pub timestamp : ℕ
  pub basefee : ℕ
  pub gas_limit : ℕ

abbrev pub default_block_env : BlockEnv
default_block_env = record { number = 0; timestamp = 0; basefee = 0; gas_limit = 0 }

pub record DatabaseRef (B E S : Type 0) : Type 0 where
  pub basic_ref : ℕ → S → Result E (Option (AccountInfo B)) × S
  pub code_by_hash_ref : ℕ → S → Result E B × S
  pub storage_ref : ℕ → ℕ → S → Result E ℕ × S
  pub block_hash_ref : ℕ → S → Result E ℕ × S

-- A storage slot: an address and a key.
abbrev pub Slot : Type 0
Slot = ℕ × ℕ

pub slot-eq : (p q : Slot) → p.0 ≡ q.0 → p.1 ≡ q.1 → p ≡ q
slot-eq p q h k = λ i. (h i, k i)

-- Slots are compared by address, then by key.
unfoldable pub slot_discrete : Discrete Slot
slot_discrete p q = elim (ℕ_discrete p.0 q.0) [
  | no h ↦ no (λ e. h (ap (λ r. r.0) e))
  | yes h ↦ elim (ℕ_discrete p.1 q.1) [
    | no k ↦ no (λ e. k (ap (λ r. r.1) e))
    | yes k ↦ yes (slot-eq p q h k)
  ]
]

abbrev pub Accounts : Type 0 → Type 0
Accounts B = List (ℕ × AccountInfo B)

abbrev pub Codes : Type 0 → Type 0
Codes B = List (ℕ × B)

abbrev pub Storage : Type 0
Storage = List (Slot × ℕ)
