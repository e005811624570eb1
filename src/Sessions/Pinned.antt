-- ===== src/Sessions/Pinned.antt =====
-- crates/session/src/lib.rs, `PinnedBlocks`: the bounded cache of blocks that sessions are pinned to.
-- A cell is a handle to a `OnceCell`, which sessions share after the cache has let go of it.
use mathlib.Core.Logic.{ite}
use forkyard.Base.{ℕ, List, [], ◌∷◌, ◌++◌, ◌+◌, none, some, ltb, if◌then◌else◌, length, ℕ_discrete}
use forkyard.Base.Maps

pub record PinnedBlocks : Type 0 where
  -- The handle of the next `OnceCell` to be made.
  pub fresh : ℕ
  pub cells : List (ℕ × ℕ)
  -- Least recently used first.
  pub recency : List ℕ
  pub cap : ℕ

-- `recency.retain(|n| *n != block_number)`.
unfoldable pub others : ℕ → List ℕ → List ℕ
others n [] = []
others n (m ∷ ms) = ite (ℕ_discrete m n) (others n ms) (m ∷ others n ms)

-- `entry(block_number).or_default()`: the handle, the next fresh handle and the cells that hold it.
unfoldable pub or_default : ℕ → PinnedBlocks → ℕ × ℕ × List (ℕ × ℕ)
or_default n p = elim (Maps.get ℕ_discrete n p.cells) [
  | some cell ↦ (cell, p.fresh, p.cells)
  | none ↦ (p.fresh, p.fresh + 1, Maps.insert ℕ_discrete n p.fresh p.cells)
]

-- The loop that evicts while there are more blocks than the cap allows.
unfoldable pub evict : ℕ → List ℕ → List (ℕ × ℕ) → List ℕ × List (ℕ × ℕ)
evict cap [] cells = ([], cells)
evict cap (n ∷ ns) cells =
    if ltb cap (length (n ∷ ns))
    then evict cap ns (Maps.remove ℕ_discrete n cells)
    else (n ∷ ns, cells)

unfoldable pub get_or_insert : ℕ → PinnedBlocks → ℕ × PinnedBlocks
unfolding others or_default evict
get_or_insert n p =
    let (cell, fresh, cells) = or_default n p in
    let (recency, kept) = evict p.cap (others n p.recency ++ n ∷ []) cells in
    (cell, record p { fresh = fresh; cells = kept; recency = recency })

-- `SessionManager::pinned_block_count`.
unfoldable pub pinned_block_count : PinnedBlocks → ℕ
pinned_block_count p = length p.cells
