-- ===== src/Http/Json.antt =====
-- `serde_json::Value` as crates/api-http/src/lib.rs reads and makes it.
use Prim.Native.String.{String}
use text.Mathlib.Text.{◌==◌ as ◌=text=◌}
use forkyard.Base.{ℕ, zero, suc, Bool, Option, none, some, List, [], ◌∷◌, if◌then◌else◌}

-- `decimal` stands for the numbers that are no natural one.
mutual
  pub data Value : Type 0 where
    null : Value
    boolean : Bool → Value
    number : ℕ → Value
    decimal : String → Value
    string : String → Value
    array : Values → Value
    object : Fields → Value

  pub data Values : Type 0 where
    nil : Values
    item : Value → Values → Values

  pub data Fields : Type 0 where
    end : Fields
    field : String → Value → Fields → Fields

unfoldable pub as_str : Value → Option String
as_str (string s) = some s
as_str null = none
as_str (boolean b) = none
as_str (number n) = none
as_str (decimal s) = none
as_str (array vs) = none
as_str (object fs) = none

unfoldable pub find_field : String → Fields → Option Value
find_field key end = none
find_field key (field k v fs) = if k =text= key then some v else find_field key fs

-- `Value::get` by a key.
unfoldable pub get_key : Value → String → Option Value
unfolding find_field
get_key (object fs) key = find_field key fs
get_key null key = none
get_key (boolean b) key = none
get_key (number n) key = none
get_key (decimal s) key = none
get_key (string s) key = none
get_key (array vs) key = none

-- `Vec<Value>` to the array of its values.
unfoldable pub values : List Value → Values
values [] = nil
values (v ∷ vs) = item v (values vs)

abbrev pub get_elem? : {A : Type 0} → List A → ℕ → Option A
get_elem? [] i = none
get_elem? (x ∷ xs) zero = some x
get_elem? (x ∷ xs) (suc i) = get_elem? xs i
