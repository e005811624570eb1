-- ===== src/Fetch/Speculation.antt =====
-- crates/fetch/src/lib.rs, `speculate`, `record_miss` and the guard `Restore`: one thread's record
-- of the reads that were missed while it speculates.
use forkyard.Base.{List, [], ◌∷◌, ◌++◌, Bool, true, false, Option, none, some}
use forkyard.Fetch.Keys.{StateKey, sort, dedup}

-- What a thread's reads can see: its own `MISSES`, and what is shared with other threads.
pub record Thread (W : Type 0) : Type 0 where
  pub misses : Option (List StateKey)
  pub shared : W

-- `unwrap_or_default`.
abbrev pub recorded : Option (List StateKey) → List StateKey
recorded none = []
recorded (some keys) = keys

abbrev pub with_misses : {R : Type 0} → Option R → List StateKey → Option (R × List StateKey)
with_misses none keys = none
with_misses (some r) keys = some (r, keys)

module _ {W : Type 0} where
  unfoldable pub record_miss : StateKey → Thread W → Bool × Thread W
  record_miss key t = elim t.misses [
    | some misses ↦ (true, record t { misses = some (misses ++ key ∷ []) })
    | none ↦ (false, t)
  ]

  -- `Restore::finish` on return and its `drop` on unwind both put back what was recorded before.
  unfoldable pub restore : Option (List StateKey) → Thread W → Thread W
  restore outer t = record t { misses = outer }

  -- A closure's outcome is `none` where it panics: then the misses are dropped with it.
  unfoldable pub speculate :
      {R X : Type 0}
      → (Thread W → Option R × X × Thread W)
      → Thread W
      → Option (R × List StateKey) × X × Thread W
  unfolding restore
  speculate f t =
      let (result, x, t') = f (record t { misses = some [] }) in
      (with_misses result (dedup (sort (recorded t'.misses))), x, restore t.misses t')
