-- ===== src/Mcp/Args.antt =====
-- crates/api-mcp/src/lib.rs: the arguments of the tools, as serde reads them, and their parsing.
use Prim.Native.Char.{code}
use Prim.Native.String.{String, ◌∷◌, ◌++◌ as ◌+text+◌}
use forkyard.Base.{ℕ, List, Option, Result, map_err, ◌&&◌, ◌==◌, if◌then◌else◌}
use forkyard.Http.Codec.{Codec}
use forkyard.Http.Params.{trim_0x}
use forkyard.Mcp.Tool.{ErrorData, invalid_params}

pub record BalanceArgs : Type 0 where
  pub session_id : ℕ
  pub address : String

pub record SetBalanceArgs : Type 0 where
  pub session_id : ℕ
  pub address : String
  pub balance : String

pub record SetStorageArgs : Type 0 where
  pub session_id : ℕ
  pub address : String
  pub slot : String
  pub value : String

pub record GetStorageArgs : Type 0 where
  pub session_id : ℕ
  pub address : String
  pub slot : String

-- The gas limit and the nonce are filled in where they are left out.
pub record TransferArgs : Type 0 where
  pub session_id : ℕ
  pub from : String
  pub to : Option String
  pub value : String
  pub gas_limit : ℕ
  pub gas_price : Option ℕ
  pub nonce : ℕ
  pub calldata : Option String

abbrev pub default_gas_limit : ℕ
default_gas_limit = 21000

-- `strip_prefix("0x").unwrap_or`: once.
unfoldable pub strip_0x : String → String
strip_0x String.[] = ""
strip_0x (c ∷ String.[]) = c ∷ ""
strip_0x (c ∷ (d ∷ s)) = if code c == 48 && code d == 120 then s else c ∷ (d ∷ s)

module _ {Envelope X : Type 0} (codec : Codec Envelope X) where
  unfoldable pub parse_address : String → Result ErrorData ℕ
  parse_address s = map_err (λ e. invalid_params ("bad address: " +text+ e)) (codec.parse_address s)

  unfoldable pub parse_bytes_hex : String → Result ErrorData (List ℕ)
  unfolding strip_0x
  parse_bytes_hex s =
      map_err (λ e. invalid_params ("bad hex data: " +text+ e)) (codec.decode_hex (strip_0x s))

  unfoldable pub parse_u256_hex : String → Result ErrorData ℕ
  unfolding trim_0x
  parse_u256_hex s =
      map_err (λ e. invalid_params ("bad hex value: " +text+ e)) (codec.from_radix_16 (trim_0x s))
