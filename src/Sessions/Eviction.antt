-- ===== src/Sessions/Eviction.antt =====
-- The invariant of `PinnedBlocks` in crates/session/src/lib.rs, and what its eviction keeps.
use mathlib.Core.Logic.{ite}
use mathlib.Core.List.{append_assoc}
use forkyard.Base.{
  ℕ, List, [], ◌∷◌, ◌++◌, ◌≤◌, ◌<◌, ◌≡◌, refl, ◌∙◌, inl, inr, Bool, true, false, Option, none, some,
  Option-cases, Bool-cases, ltb, length, length-append, ℕ_discrete, arith,
}
use forkyard.Base.Maps.{get, remove, get-insert, get-remove}
use forkyard.Sessions.Pinned.{PinnedBlocks, others, or_default, evict, get_or_insert}

unfoldable pub holds : ℕ → List ℕ → Bool
holds n [] = false
holds n (m ∷ ms) = ite (ℕ_discrete m n) true (holds n ms)

unfoldable pub IsUnique : List ℕ → Type 0
unfolding holds
IsUnique [] = Unit
IsUnique (n ∷ ns) = (holds n ns ≡ false) × IsUnique ns

unfoldable pub filled : Option ℕ → Bool
filled none = false
filled (some cell) = true

-- The blocks with a cell are the blocks in the order of use.
unfoldable pub Synced : List ℕ → List (ℕ × ℕ) → Type 0
unfolding holds filled
Synced recency cells = (n : ℕ) → holds n recency ≡ filled (get ℕ_discrete n cells)

evict-length :
    (cap : ℕ) (recency : List ℕ) (cells : List (ℕ × ℕ)) → length (evict cap recency cells).0 ≤ cap
unfolding evict
evict-length cap [] cells = omega arith
evict-length cap (n ∷ ns) cells = ground (arith, evict-length cap ns (remove ℕ_discrete n cells))

evict-Synced :
    (cap : ℕ) (recency : List ℕ) (cells : List (ℕ × ℕ))
    → IsUnique recency
    → Synced recency cells
    → IsUnique (evict cap recency cells).0
      × Synced (evict cap recency cells).0 (evict cap recency cells).1
unfolding evict holds IsUnique Synced filled
evict-Synced cap [] cells u s = (u, s)
evict-Synced cap (n ∷ ns) cells u s = elim (Bool-cases (ltb cap (length (n ∷ ns)))) [
  | inl e ↦ rw e (
      evict-Synced cap ns (remove ℕ_discrete n cells) u.1
        (λ m. ground (arith, s m, u.0, get-remove ℕ_discrete n m cells)))
  | inr e ↦ rw e (u, s)
]

holds-others :
    (n m : ℕ) (ms : List ℕ) → holds m (others n ms) ≡ ite (ℕ_discrete n m) false (holds m ms)
unfolding holds others
holds-others n m [] = ground arith
holds-others n m (k ∷ ms) = ground (arith, holds-others n m ms)

holds-append :
    (n m : ℕ) (ms : List ℕ) → holds m (ms ++ n ∷ []) ≡ ite (ℕ_discrete n m) true (holds m ms)
unfolding holds
holds-append n m [] = ground arith
holds-append n m (k ∷ ms) = ground (arith, holds-append n m ms)

others-IsUnique : (n : ℕ) (ms : List ℕ) → IsUnique ms → IsUnique (others n ms)
unfolding IsUnique others
others-IsUnique n [] u = tt
others-IsUnique n (k ∷ ms) u = ground (arith, others-IsUnique n ms u.1, holds-others n k ms)

append-IsUnique : (n : ℕ) (ms : List ℕ) → holds n ms ≡ false → IsUnique ms → IsUnique (ms ++ n ∷ [])
unfolding IsUnique holds
append-IsUnique n [] h u = (refl, tt)
append-IsUnique n (k ∷ ms) h u = ground (arith, append-IsUnique n ms, holds-append n k ms)

-- The blocks that the cap leaves room for, counted from the last used, keep their cells.
evict-keeps :
    (cap n : ℕ) (older recent : List ℕ) (cells : List (ℕ × ℕ))
    → length recent ≤ cap
    → holds n older ≡ false
    → get ℕ_discrete n (evict cap (older ++ recent) cells).1 ≡ get ℕ_discrete n cells
unfolding evict holds
evict-keeps cap n [] [] cells h fresh = refl
evict-keeps cap n [] (m ∷ recent) cells h fresh = ground arith
evict-keeps cap n (m ∷ older) recent cells h fresh = ground (
  arith,
  evict-keeps cap n older recent (remove ℕ_discrete m cells),
  get-remove ℕ_discrete m n cells,
)

-- No block stands twice in the order of use, and the order and the cells are in step.
unfoldable pub IsValid : PinnedBlocks → Type 0
unfolding IsUnique Synced
IsValid p = IsUnique p.recency × Synced p.recency p.cells

abbrev used : ℕ → PinnedBlocks → List ℕ
used n p = others n p.recency ++ n ∷ []

used-IsUnique : (n : ℕ) (p : PinnedBlocks) → IsUnique p.recency → IsUnique (used n p)
used-IsUnique n p u =
    append-IsUnique n (others n p.recency) (ground (arith, holds-others n n p.recency))
      (others-IsUnique n p.recency u)

-- After `or_default`, the cells are those of before and the one asked for.
get-or_default :
    (n m : ℕ) (p : PinnedBlocks)
    → get ℕ_discrete m (or_default n p).2
      ≡ ite (ℕ_discrete n m) (some (or_default n p).0) (get ℕ_discrete m p.cells)
unfolding or_default
get-or_default n m p = elim (Option-cases (get ℕ_discrete n p.cells)) [
  | inl e ↦ rw (e, or_default) (get-insert ℕ_discrete n m p.fresh p.cells)
  | inr (cell, e) ↦ rw (e, or_default) (ground arith)
]

or_default-Synced :
    (n : ℕ) (p : PinnedBlocks) → Synced p.recency p.cells → Synced (used n p) (or_default n p).2
unfolding Synced filled
or_default-Synced n p s m = ground (
  arith,
  s m,
  holds-append n m (others n p.recency),
  holds-others n m p.recency,
  get-or_default n m p,
)

-- If the order of use has each block once and holds the blocks of the cells, then it is so after a
-- block is asked for, and there are no more blocks than the cap.
pub get_or_insert-IsValid :
    (n : ℕ) (p : PinnedBlocks)
    → IsValid p
    → IsValid (get_or_insert n p).1 × (length (get_or_insert n p).1.recency ≤ p.cap)
unfolding get_or_insert IsValid
get_or_insert-IsValid n p v = (
  evict-Synced p.cap (used n p) (or_default n p).2 (used-IsUnique n p v.0)
      (or_default-Synced n p v.1),
  evict-length p.cap (used n p) (or_default n p).2,
)

-- The block that is asked for stays in the cache with the cell that is handed out, and so does, with
-- the cell it had, each block used so late that the cap leaves room for it.
pub get_or_insert-keeps :
    (n m : ℕ) (older recent : List ℕ) (p : PinnedBlocks)
    → others n p.recency ≡ older ++ recent
    → length recent < p.cap
    → holds m older ≡ false
    → get ℕ_discrete m (get_or_insert n p).1.cells
      ≡ ite (ℕ_discrete n m) (some (get_or_insert n p).0) (get ℕ_discrete m p.cells)
unfolding get_or_insert
get_or_insert-keeps n m older recent p e h fresh =
    rw (e, append_assoc older recent (n ∷ []))
      (evict-keeps p.cap m older (recent ++ n ∷ []) (or_default n p).2
          (ground (arith, length-append recent (n ∷ []))) fresh
        ∙ get-or_default n m p)
