-- ===== src/Tests/Restored.antt =====
-- A branch of a session that wrote an account, a slot and a code, restored from its state.
use forkyard.Base.{ℕ_discrete, [], ◌∷◌, ◌≡◌, refl, none}
use forkyard.Base.Maps.{get, insert, extend}
use forkyard.Engine.Types.{default_block_env}
use forkyard.Engine.Snapshot.{empty}
use forkyard.Engine.Session.{Session, branch, default_inherited}
use forkyard.Engine.State.{state, restore}
use forkyard.Engine.Database.{basic, code_by_hash, storage, block_hash}
use forkyard.Engine.Restoring.{IsOwned, Rooted, branch-Rooted, restored_reads, restored_code}
use forkyard.Engine.Views.{reply_of}
use forkyard.Fetch.ReadThrough.{read_through}
use forkyard.Fetch.Speculation.{Thread}
use forkyard.Tests.{Bytes, NoError, World, chain, holder, cold}

abbrev parent : Session Bytes NoError (Thread World)
parent = record {
  base = empty;
  fallback = read_through chain;
  block_env = default_block_env;
  overlay_accounts = (1, holder 9) ∷ [];
  overlay_code = (77, 96 ∷ 0 ∷ []) ∷ [];
  overlay_storage = ((1, 3), 8) ∷ [];
  inherited = default_inherited;
  read_log = none;
}

parent-IsOwned : IsOwned parent
unfolding get
parent-IsOwned = record {
  accounts = (refl, tt);
  code = (refl, tt);
  storage = (refl, tt);
  inherited_accounts = tt;
  inherited_code = tt;
  inherited_storage = tt;
}

parent-Rooted : Rooted empty parent
unfolding get
parent-Rooted = record {
  accounts = λ a. refl;
  code = λ h. refl;
  storage = λ a i. refl;
  block_hashes = refl;
}

abbrev child : Session Bytes NoError (Thread World)
unfolding branch extend insert
child = branch parent

child-IsOwned : IsOwned child
unfolding get branch extend insert
child-IsOwned = record {
  accounts = tt;
  code = tt;
  storage = tt;
  inherited_accounts = (refl, tt);
  inherited_code = (refl, tt);
  inherited_storage = (refl, tt);
}

child-Rooted : Rooted empty child
unfolding child
child-Rooted = branch-Rooted empty parent parent-IsOwned parent-Rooted

abbrev again : Session Bytes NoError (Thread World)
again = restore empty child.fallback child.block_env (state child)

restored_reads_example :
    (reply_of (basic 1 again cold) ≡ reply_of (basic 1 child cold))
    × (reply_of (storage 1 3 again cold) ≡ reply_of (storage 1 3 child cold))
    × (reply_of (block_hash 5 again cold) ≡ reply_of (block_hash 5 child cold))
restored_reads_example = restored_reads empty child child-IsOwned child-Rooted 1 3 5 cold

restored_code_example :
    reply_of (code_by_hash 77 again cold) ≡ reply_of (code_by_hash 77 child cold)
unfolding child get ℕ_discrete
restored_code_example =
    restored_code empty child child-IsOwned child-Rooted 77 (96 ∷ 0 ∷ []) cold refl
