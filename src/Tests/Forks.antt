-- ===== src/Tests/Forks.antt =====
-- A fork at block 12, two endpoints, reads of three keys, and an error with a comma and a quote in it.
use Prim.Native.String.{String}
use forkyard.Base.{
  ℕ, ℕ_discrete, List, [], ◌∷◌, ◌++◌, Option, none, some, Result, ok, err, ◌≡◌, refl, ap, sym, All,
  inr, ◌↔◌,
}
use forkyard.Base.Maps.{get, insert}
use forkyard.Engine.Types.{BlockEnv}
use forkyard.Fetch.Connections.{
  Process, Call, sets_max, asks, started, shared_upstream, after, one_connection,
}
use forkyard.Fetch.Keys.{StateKey, account, storage, block_hash}
use forkyard.Fetch.Forking.{
  BlockId, latest, Header, Provider, GivesNumber, env_of_header, fork_at, fork_at_pinned,
}
use forkyard.Loadgen.{any_special, csv_field, read_field, read_field-csv_field}
use forkyard.Sessions.Resolver.{IsRead, default_resolver, default_resolver-All}
use forkyard.Tests.{NoError, chain}

abbrev header_at : ℕ → Header
header_at n = record {
  number = n;
  timestamp = 100;
  base_fee_per_gas = some 7;
  gas_limit = 30000000;
}

abbrev block_at : BlockId → Option Header
block_at latest = none
block_at (BlockId.number n) = some (header_at n)

-- A fork is the block that its backend is pinned to.
abbrev pinned_to : BlockId → Result String ℕ
pinned_to latest = err "not pinned"
pinned_to (BlockId.number n) = ok n

abbrev provider : Provider ℕ
provider = record {
  connect = ok tt;
  get_block = λ block. ok (block_at block);
  spawn_backend = λ block env. pinned_to block;
}

abbrev number_in : Result String (Option Header) → ℕ
number_in (ok (some header)) = header.number
number_in _ = 0

provider-GivesNumber : GivesNumber provider
provider-GivesNumber n header h = sym (ap number_in h)

abbrev block_twelve : BlockEnv
block_twelve = record { number = 12; timestamp = 100; basefee = 7; gas_limit = 30000000 }

forked : fork_at provider 12 ≡ ok (12, block_twelve)
unfolding fork_at
forked = refl

fork_at_pinned_example :
    (header : Header) × (provider.get_block (BlockId.number 12) ≡ ok (some header))
    × (env_of_header header ≡ block_twelve)
    × (block_twelve.number ≡ 12)
    × (provider.spawn_backend (BlockId.number 12) block_twelve ≡ ok 12)
fork_at_pinned_example = fork_at_pinned provider 12 12 block_twelve provider-GivesNumber forked

abbrev shown : NoError → String
shown e = "error"

-- The thread of the last key panics.
abbrev keys : List (StateKey × Option (Unit {0}))
keys = (account 3, some tt) ∷ (storage 3 1, some tt) ∷ (block_hash 9, none) ∷ []

default_resolver-All_example :
    (default_resolver shown chain keys ≡ some (ok tt)) ↔ All (IsRead shown chain) keys
default_resolver-All_example = default_resolver-All shown chain keys

panicked : default_resolver shown chain keys ≡ some (err "resolver panicked")
unfolding default_resolver
panicked = refl

-- a,"b
abbrev error : List ℕ
error = 97 ∷ 44 ∷ 34 ∷ 98 ∷ []

written : csv_field error ≡ 34 ∷ 97 ∷ 44 ∷ 34 ∷ 34 ∷ 98 ∷ 34 ∷ []
unfolding csv_field
written = refl

-- A carriage return alone is not quoted, and ends the field for a reader.
split : read_field (csv_field (97 ∷ 13 ∷ 98 ∷ []) ++ 10 ∷ []) ≡ (97 ∷ [], 13 ∷ 98 ∷ 10 ∷ [])
unfolding csv_field read_field
split = refl

read_field-csv_field_example : read_field (csv_field error ++ 10 ∷ []) ≡ (error, 10 ∷ [])
unfolding any_special
read_field-csv_field_example = read_field-csv_field error 10 [] (inr refl) (inr refl)

-- Two endpoints, 1 and 2; any URL parses.
abbrev parse : ℕ → Result String (Unit {0})
parse url = ok tt

abbrev dialed_once : Process ℕ
dialed_once = record {
  fresh = 1;
  upstreams = (1, record { client = 0; in_flight = 256 }) ∷ [];
  max_in_flight = 256;
  keepalives = 0 ∷ [];
}

abbrev later : List (Call ℕ)
later = sets_max 0 ∷ asks 2 ∷ asks 1 ∷ []

first_asked :
    shared_upstream ℕ_discrete parse 1 started
    ≡ (ok (record { client = 0; in_flight = 256 }), dialed_once)
unfolding shared_upstream get insert
first_asked = refl

one_connection_example :
    shared_upstream ℕ_discrete parse 1 (after ℕ_discrete parse later dialed_once)
    ≡ (ok (record { client = 0; in_flight = 256 }), after ℕ_discrete parse later dialed_once)
one_connection_example =
    one_connection ℕ_discrete parse 1 (record { client = 0; in_flight = 256 }) started dialed_once
      later first_asked

-- A cap of 0 is taken as 1.
second_url :
    (shared_upstream ℕ_discrete parse 2 (after ℕ_discrete parse later dialed_once)).0
    ≡ ok (record { client = 1; in_flight = 1 })
unfolding shared_upstream after get insert ℕ_discrete
second_url = refl
