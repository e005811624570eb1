-- ===== src/Ingest.antt =====
-- crates/ingest/src/lib.rs, `ChainTipFollower::run`: a loop that forks again when the chain has moved.
use Prim.Native.String.{String}
use forkyard.Base.{ℕ, suc, List, [], ◌∷◌, Result, ok, err, ◌≡◌, ◌==◌, if◌then◌else◌}
use forkyard.Engine.Types.{BlockEnv}

-- What one round meets: the poll of the latest block, and the fork that is made where it is needed.
pub record Tick (Fork : Type 0) : Type 0 where
  pub latest : Result String BlockEnv
  pub fork : Result String (Fork × BlockEnv)

-- The loop's variable, with what `refresh_fallback` sets in the manager, and how often it forked.
pub record Following (Fork : Type 0) : Type 0 where
  pub last_seen_number : ℕ
  pub fallback : Fork
  pub block_env : BlockEnv
  pub forks : ℕ

module _ {Fork : Type 0} where
  unfoldable pub refreshed : Result String (Fork × BlockEnv) → Following Fork → Following Fork
  refreshed (ok (fork, env)) s = record {
    last_seen_number = env.number;
    fallback = fork;
    block_env = env;
    forks = suc s.forks;
  }
  refreshed (err e) s = record s { forks = suc s.forks }

  unfoldable pub polled :
      Result String BlockEnv → Result String (Fork × BlockEnv) → Following Fork → Following Fork
  unfolding refreshed
  polled (err e) fork s = s
  polled (ok tip) fork s = if tip.number == s.last_seen_number then s else refreshed fork s

  -- The rounds until the loop is stopped.
  unfoldable pub follow : List (Tick Fork) → Following Fork → Following Fork
  unfolding polled
  follow [] s = s
  follow (t ∷ ticks) s = follow ticks (polled t.latest t.fork s)

  -- `run` begins with the manager's own block.
  unfoldable pub begins : Fork → BlockEnv → Following Fork
  begins fork env = record {
    last_seen_number = env.number;
    fallback = fork;
    block_env = env;
    forks = 0;
  }

  abbrev pub IsCurrent : Following Fork → Type 0
  IsCurrent s = s.last_seen_number ≡ s.block_env.number

  -- The manager with a new fork and its block.
  abbrev pub installed : Fork → BlockEnv → Following Fork → Following Fork
  installed new at s = record {
    last_seen_number = at.number;
    fallback = new;
    block_env = at;
    forks = suc s.forks;
  }
