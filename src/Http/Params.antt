-- ===== src/Http/Params.antt =====
-- crates/api-http/src/lib.rs: reading the parameters of a call.
use Prim.Native.Char.{Char, code}
use Prim.Native.String.{String, ◌∷◌, ◌++◌ as ◌+text+◌}
use forkyard.Base.{
  ℕ, ◌-◌, List, Option, none, some, Result, ok, err, ◌>>=◌, map_err, ◌&&◌, ◌==◌, leb, if◌then◌else◌,
}
use forkyard.Http.Codec.{Codec}
use forkyard.Http.Digits.{plain, nth_char}
use forkyard.Http.Errors.{RpcErrorObj, invalid_params}
use forkyard.Http.Json.{Value, as_str, get_key, get_elem?}

abbrev pub or_default : {A : Type 0} → A → Option A → A
or_default a none = a
or_default a (some b) = b

abbrev pub map_some : {A C : Type 0} → (A → C) → Option A → Option C
map_some f none = none
map_some f (some a) = some (f a)

-- `Option::and_then`.
abbrev pub bind_some : {A C : Type 0} → Option A → (A → Option C) → Option C
bind_some none f = none
bind_some (some a) f = f a

abbrev pub or_else : {A : Type 0} → Option A → Option A → Option A
or_else none b = b
or_else (some a) b = some a

-- `ok_or_else`.
abbrev pub ok_or : {E A : Type 0} → E → Option A → Result E A
ok_or e none = err e
ok_or e (some a) = ok a

-- `.map(f).transpose()`.
abbrev pub traverse : {E A C : Type 0} → (A → Result E C) → Option A → Result E (Option C)
traverse f none = ok none
traverse f (some a) = f a >>= λ c. ok (some c)

-- `trim_start_matches("0x")`: as often as it stands there.
unfoldable pub trim_0x : String → String
trim_0x String.[] = ""
trim_0x (c ∷ String.[]) = c ∷ ""
trim_0x (c ∷ (d ∷ s)) =
    let rest = trim_0x s in if code c == 48 && code d == 120 then rest else c ∷ (d ∷ s)

-- `to_lowercase`, on the letters of ASCII; no other letter becomes one of a hash.
unfoldable pub lower_char : Char → Char
unfolding nth_char
lower_char c =
    if leb 65 (code c) && leb (code c) 90
    then nth_char "abcdefghijklmnopqrstuvwxyz" (code c - 65)
    else c

unfoldable pub to_lowercase : String → String
unfolding lower_char
to_lowercase String.[] = ""
to_lowercase (c ∷ s) = lower_char c ∷ to_lowercase s

unfoldable pub param_str : List Value → ℕ → Result RpcErrorObj String
unfolding as_str invalid_params plain
param_str params idx =
    ok_or (invalid_params ("missing/invalid params[" +text+ (plain idx +text+ "]")))
      (bind_some (get_elem? params idx) as_str)

unfoldable pub field_str : Value → String → Option String
unfolding get_key as_str
field_str call key = bind_some (get_key call key) as_str

module _ {Envelope X : Type 0} (codec : Codec Envelope X) where
  unfoldable pub parse_address : List Value → ℕ → Result RpcErrorObj ℕ
  unfolding param_str invalid_params
  parse_address params idx = do
    text ← param_str params idx
    map_err invalid_params (codec.parse_address text)

  unfoldable pub parse_raw_tx : List Value → ℕ → Result RpcErrorObj (List ℕ)
  unfolding param_str invalid_params
  parse_raw_tx params idx = do
    text ← param_str params idx
    map_err invalid_params (codec.decode_hex text)

  unfoldable pub parse_u256_hex_str : String → Result RpcErrorObj ℕ
  unfolding trim_0x invalid_params
  parse_u256_hex_str text = map_err invalid_params (codec.from_radix_16 (trim_0x text))

  -- `parse_u256_hex_str(param_str(params, idx)?)`.
  unfoldable pub parse_word : List Value → ℕ → Result RpcErrorObj ℕ
  unfolding param_str parse_u256_hex_str
  parse_word params idx = param_str params idx >>= parse_u256_hex_str

  unfoldable pub address_field : Value → String → Result RpcErrorObj (Option ℕ)
  unfolding field_str invalid_params
  address_field call key =
      map_err invalid_params (traverse codec.parse_address (field_str call key))

  unfoldable pub word_field : Value → String → Result RpcErrorObj (Option ℕ)
  unfolding field_str parse_u256_hex_str
  word_field call key = traverse parse_u256_hex_str (field_str call key)
