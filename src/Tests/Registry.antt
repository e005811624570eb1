-- ===== src/Tests/Registry.antt =====
-- A worker of the registry at work on the small chain, and the cache of pinned blocks.
use mathlib.Core.Logic.{ite}
use forkyard.Base.{◌≢◌, ◌≤◌, some, length, ℕ_discrete, arith}
use forkyard.Base.Maps.{get}
use forkyard.Fetch.Keys.{StateKey}
use forkyard.Sessions.Jobs.{session_id}
use forkyard.Sessions.Handle.{Sessions, deferred, handle}
use forkyard.Sessions.Worker.{Worker, Blocked, unblock, turn}
use forkyard.Sessions.Rounds.{Advances, unblock-Advances}
use forkyard.Sessions.Progress.{handle-ne-deferred}
use forkyard.Sessions.Isolation.{turn-isolated}
use forkyard.Sessions.Registered.{swept}
use forkyard.Sessions.Requests.{Request, perform}
use forkyard.Sessions.Routing.{Routed, perform-Routed}
use forkyard.Sessions.Reaping.{live, turns_counted}
use forkyard.Sessions.Pinned.{PinnedBlocks, others, get_or_insert}
use forkyard.Sessions.Eviction.{
  IsUnique, Synced, IsValid, holds, filled, get_or_insert-IsValid, get_or_insert-keeps,
}
use forkyard.Base.{ℕ, List, [], ◌∷◌, ◌++◌, ◌≡◌, refl, true, false, none}
use forkyard.Engine.Types.{default_block_env}
use forkyard.Engine.Snapshot.{empty}
use forkyard.Fetch.ReadThrough.{read_through}
use forkyard.Sessions.Jobs.{Job}
use forkyard.Sessions.Worker.{Event, receives, times_out, spawned}
use forkyard.Sessions.Accounts.{pending, tickets}
use forkyard.Sessions.Order.{turns, closed_for, arrived_for, closed_in_order}
use forkyard.Sessions.Reading.{Found, handle-Keeps}
use forkyard.Tests.{fresh_session, Bytes, NoError, World, chain, cold, warm, tiny_evm}

-- A fork, a read that misses, one more behind it, and the keys that come in.
abbrev day : List (Event Bytes NoError World ℕ)
day =
    receives 0 (Job.fork 4 empty (read_through chain) default_block_env none 100) cold
    ∷ receives 1 (Job.basic 4 1 101) cold
    ∷ receives 2 (Job.block_env_of 4 102) cold
    ∷ receives 3 (Job.unblock 4 false) warm
    ∷ []

closed_in_order_example :
    closed_for tiny_evm 60 4 day spawned ++ tickets (pending 4 (turns tiny_evm 60 day spawned))
    ≡ arrived_for 4 day
closed_in_order_example = closed_in_order tiny_evm 60 4 day

-- Session 4 waits with a read of account 1.
abbrev waiting_read : Job Bytes NoError World ℕ
waiting_read = Job.basic 4 1 101

abbrev waiting_queue : Blocked Bytes NoError World ℕ
waiting_queue = record { queue = waiting_read ∷ []; rounds = 1 }

abbrev two_sessions : Sessions Bytes NoError World
two_sessions = (4, (fresh_session, 0)) ∷ (5, (fresh_session, 90)) ∷ []

abbrev stalled : Worker Bytes NoError World ℕ
stalled = record { sessions = two_sessions; blocked = (4, waiting_queue) ∷ []; count = 2 }

idle : Worker Bytes NoError World ℕ
idle = record { sessions = two_sessions; blocked = []; count = 2 }

unblock-Advances_example : Advances 4 1 waiting_read [] (unblock tiny_evm 3 4 false stalled warm)
unfolding get ℕ_discrete session_id
unblock-Advances_example =
    unblock-Advances tiny_evm 3 4 false stalled warm waiting_queue waiting_read [] refl refl refl

handle-ne-deferred_example :
    (handle tiny_evm two_sessions 2 3 waiting_read true cold).outcome
    ≢ deferred (StateKey.account 1 ∷ [])
handle-ne-deferred_example =
    handle-ne-deferred tiny_evm two_sessions 2 3 waiting_read cold (StateKey.account 1 ∷ [])

turn-isolated_example :
    get ℕ_discrete 5 (turn tiny_evm 60 (receives 3 waiting_read warm) idle).0.sessions
    ≡ get ℕ_discrete 5 idle.sessions
unfolding idle get session_id
turn-isolated_example =
    turn-isolated tiny_evm 60 3 4 5 waiting_read idle warm refl (λ j. tt) (ground arith)

swept_example :
    get ℕ_discrete 4 (turn tiny_evm 60 (times_out 30) (turns tiny_evm 60 day spawned)).0.sessions
    ≡ live 60 30 (get ℕ_discrete 4 (turns tiny_evm 60 day spawned).sessions)
swept_example = swept tiny_evm 60 day 30 4

turns_counted_example :
    (turns tiny_evm 60 day spawned).count ≡ length (turns tiny_evm 60 day spawned).sessions
turns_counted_example = turns_counted tiny_evm 60 day

-- Blocks 7 and 8 are warm, and there is room for two.
abbrev two_blocks : PinnedBlocks
two_blocks = record { fresh = 2; cells = (7, 0) ∷ (8, 1) ∷ []; recency = 7 ∷ 8 ∷ []; cap = 2 }

two_blocks-IsValid : IsValid two_blocks
unfolding IsValid IsUnique Synced holds filled get ℕ_discrete
two_blocks-IsValid = ((refl, (refl, tt)), λ n. ground arith)

get_or_insert-IsValid_example :
    IsValid (get_or_insert 9 two_blocks).1 × (length (get_or_insert 9 two_blocks).1.recency ≤ 2)
get_or_insert-IsValid_example = get_or_insert-IsValid 9 two_blocks two_blocks-IsValid

get_or_insert-keeps_example :
    get ℕ_discrete 8 (get_or_insert 9 two_blocks).1.cells
    ≡ ite (ℕ_discrete 9 8) (some (get_or_insert 9 two_blocks).0) (get ℕ_discrete 8 two_blocks.cells)
unfolding others holds ℕ_discrete
get_or_insert-keeps_example =
    get_or_insert-keeps 9 8 (7 ∷ []) (8 ∷ []) two_blocks refl (ground arith) refl

perform-Routed_example : Routed (perform Bytes NoError World ℕ ℕ (Unit {0}) (Request.fork_from 4))
perform-Routed_example = perform-Routed Bytes NoError World ℕ ℕ (Unit {0}) (Request.fork_from 4)

-- A read of account 1 that misses.
handle-Keeps_example :
    Found 4 fresh_session (handle tiny_evm two_sessions 2 7 waiting_read false cold).sessions
unfolding session_id get ℕ_discrete fresh_session
handle-Keeps_example =
    handle-Keeps tiny_evm false fresh_session refl waiting_read two_sessions 2 7 4 0 cold tt refl
      refl
