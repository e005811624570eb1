-- ===== src/Http/Codec.antt =====
-- What crates/api-http/src/lib.rs takes from alloy and revm: parsing of addresses, bytes and
-- words, transactions, and the results of running them.
use Prim.Native.String.{String}
use forkyard.Base.{ℕ, List, Option, Result, Bool, true, false}

-- `TxKind`: an address to call, or none to create a contract.
abbrev pub TxKind : Type 0
TxKind = Option ℕ

-- What is set on a `TxEnv::builder()`; `build_fill` fills in the rest.
pub record TxEnv : Type 0 where
  pub caller : ℕ
  pub kind : TxKind
  pub value : ℕ
  pub input : List ℕ
  pub gas_limit : ℕ
  pub gas_price : ℕ
  pub nonce : Option ℕ
  pub chain_id : Option ℕ

-- A signed legacy transaction.
pub record Legacy : Type 0 where
  pub to : TxKind
  pub value : ℕ
  pub input : List ℕ
  pub gas_limit : ℕ
  pub gas_price : ℕ
  pub nonce : ℕ
  pub chain_id : Option ℕ
  pub hash : ℕ

pub record Log : Type 0 where
  pub address : ℕ
  pub topics : List ℕ
  pub bytes : List ℕ

pub data Outcome : Type 0 where
  success : List ℕ → Outcome
  revert : List ℕ → Outcome
  halt : String → Outcome

-- `X` is revm's `ExecutionResult`, `Envelope` alloy's `TxEnvelope`.
pub record Codec (Envelope X : Type 0) : Type 0 where
  pub parse_address : String → Result String ℕ
  pub decode_hex : String → Result String (List ℕ)
  pub encode_hex : List ℕ → String
  pub from_radix_16 : String → Result String ℕ
  pub decode_2718 : List ℕ → Result String Envelope
  pub legacy : Envelope → Option Legacy
  pub recover_signer : Envelope → Result String ℕ
  pub outcome : X → Outcome
  pub tx_gas_used : X → ℕ
  pub created_address : X → Option ℕ
  pub logs : X → List Log

abbrev pub is_success : Outcome → Bool
is_success (success output) = true
is_success (revert output) = false
is_success (halt reason) = false

abbrev pub is_halt : Outcome → Bool
is_halt (success output) = false
is_halt (revert output) = false
is_halt (halt reason) = true
