-- ===== src/Tests.antt =====
-- A small chain, sessions over it, and the programs and jobs that the tests run.
mod Speculative
mod Registry
mod Files
mod Branches
mod Restored
mod Flights
mod Upstreams
mod Surfaces
mod Followers
mod Toolbox
mod Restarts
mod Forks
use forkyard.Base.{ℕ, List, [], ◌∷◌, Option, none, some, Result, ok, err}
use forkyard.Engine.Types.{AccountInfo, DatabaseRef, keccak_empty, default_block_env}
use forkyard.Engine.Snapshot.{empty}
use forkyard.Engine.Session.{Session, fork}
use forkyard.Engine.Database.{SessionDbError}
use forkyard.Fetch.Speculation.{Thread}
use forkyard.Fetch.ReadThrough.{Shared, default_cache, read_through}
use forkyard.Sessions.Program.{Program, returns, reads_account}
use forkyard.Sessions.Execute.{Evm}

abbrev pub Bytes : Type 0
Bytes = List ℕ

abbrev pub NoError : Type 0
NoError = Unit {0}

-- Each address holds its own number; no code, every slot is 7.
abbrev pub holder : ℕ → AccountInfo Bytes
holder address = record { balance = address; nonce = 0; code_hash = keccak_empty; code = none }

abbrev pub chain : DatabaseRef Bytes NoError (Unit {0})
chain = record {
  basic_ref = λ address w. (ok (some (holder address)), w);
  code_by_hash_ref = λ hash w. (err tt, w);
  storage_ref = λ address index w. (ok 7, w);
  block_hash_ref = λ number w. (ok 1, w);
}

abbrev pub World : Type 0
World = Shared Bytes (Unit {0})

abbrev pub fresh_session : Session Bytes NoError (Thread World)
unfolding fork
fresh_session = fork empty (read_through chain) default_block_env

abbrev pub cold : Thread World
cold = record { misses = none; shared = record { cache = default_cache; inner = tt } }

-- Account 1 is in the cache.
abbrev pub warm : Thread World
warm = record {
  misses = none;
  shared = record {
    cache = record { accounts = (1, some (holder 1)) ∷ []; storage = []; block_hashes = [] };
    inner = tt;
  };
}

abbrev pub AccountReply : Type 0
AccountReply = Result (SessionDbError NoError) (Option (AccountInfo Bytes))

abbrev pub look_up : ℕ → Program Bytes NoError AccountReply
look_up address = reads_account address returns

-- A transaction is the address that sends it; it reads the sender's account and gives its balance.
abbrev pub tiny_evm : Evm Bytes NoError ℕ ℕ (Unit {0})
tiny_evm = record {
  caller = λ tx. tx;
  callee = λ tx. none;
  transact = λ tx disable_checks env. reads_account tx (λ _. returns (ok (tx, [])));
  original_bytes = λ code. code;
  display = λ e. "error";
}
