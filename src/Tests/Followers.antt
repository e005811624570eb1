-- ===== src/Tests/Followers.antt =====
-- A follower of a chain that moves from block 5 to 6, while one poll fails.
use forkyard.Base.{ℕ, List, [], ◌∷◌, ok, err, ◌≡◌, refl}
use forkyard.Engine.Types.{BlockEnv, default_block_env}
use forkyard.Ingest.{Tick, follow, begins}

abbrev block : ℕ → BlockEnv
block n = record default_block_env { number = n }

abbrev ticks : List (Tick ℕ)
ticks =
    record { latest = ok (block 5); fork = err "unused" }
    ∷ record { latest = err "no connection"; fork = err "unused" }
    ∷ record { latest = ok (block 6); fork = ok (60, block 6) }
    ∷ []

moved : (follow ticks (begins 50 (block 5))).fallback ≡ 60
unfolding follow begins
moved = refl
