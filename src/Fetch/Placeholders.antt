-- ===== src/Fetch/Placeholders.antt =====
-- What a worker relies on of a fallback while it speculates, as an interface for `ReadThrough`.
use forkyard.Base.{
  ℕ, List, [], ◌∷◌, ◌++◌, ◌≡◌, ◌⊎◌, inl, inr, none, some, arith, Option-cases, ℕ_discrete,
}
use forkyard.Base.Maps.{get}
use forkyard.Engine.Types.{DatabaseRef, slot_discrete}
use forkyard.Fetch.Keys.{StateKey}
use forkyard.Fetch.Speculation.{Thread}
use forkyard.Fetch.ReadThrough.{read_through, basic_ref, storage_ref, block_hash_ref}

-- The thread as it is outside of any speculation.
abbrev pub waiting : {W : Type 0} → Thread W → Thread W
waiting t = record t { misses = none }

-- A read of a speculating thread either adds one key to the misses, or adds none and gives what
-- the same read gives a thread that does not speculate.
abbrev pub Honest : {A W : Type 0} → (Thread W → A × Thread W) → Type 0
Honest {W = W} call =
    (t : Thread W) (keys : List StateKey)
    → t.misses ≡ some keys
    → ((key : StateKey) × ((call t).1.misses ≡ some (keys ++ key ∷ [])))
      ⊎ (((call t).1.misses ≡ some keys) × (call (waiting t) ≡ ((call t).0, waiting (call t).1)))

pub record IsHonest {B E W : Type 0} (db : DatabaseRef B E (Thread W)) : Type 0 where
  pub basic : (address : ℕ) → Honest (db.basic_ref address)
  pub code : (code_hash : ℕ) → Honest (db.code_by_hash_ref code_hash)
  pub slot : (address index : ℕ) → Honest (db.storage_ref address index)
  pub hash : (number : ℕ) → Honest (db.block_hash_ref number)

module _ {B E W : Type 0} (inner : DatabaseRef B E W) where
  basic_ref-Honest : (address : ℕ) → Honest (basic_ref {B = B} inner address)
  unfolding basic_ref
  basic_ref-Honest address t keys h =
      elim (Option-cases (get ℕ_discrete address t.shared.cache.accounts)) [
        | inl e ↦ inl (StateKey.account address, ground arith)
        | inr (hit, e) ↦ inr (ground arith, ground arith)
      ]

  storage_ref-Honest : (address index : ℕ) → Honest (storage_ref {B = B} inner address index)
  unfolding storage_ref
  storage_ref-Honest address index t keys h =
      elim (Option-cases (get slot_discrete (address, index) t.shared.cache.storage)) [
        | inl e ↦ inl (StateKey.storage address index, ground arith)
        | inr (hit, e) ↦ inr (ground arith, ground arith)
      ]

  block_hash_ref-Honest : (number : ℕ) → Honest (block_hash_ref {B = B} inner number)
  unfolding block_hash_ref
  block_hash_ref-Honest number t keys h =
      elim (Option-cases (get ℕ_discrete number t.shared.cache.block_hashes)) [
        | inl e ↦ inl (StateKey.block_hash number, ground arith)
        | inr (hit, e) ↦ inr (ground arith, ground arith)
      ]

  -- Whatever the inner database is, each read of `ReadThrough` by a speculating thread either adds
  -- one key to the misses, or adds none and gives what it gives a thread that does not speculate.
  pub read_through-IsHonest : IsHonest (read_through inner)
  unfolding read_through
  read_through-IsHonest = record {
    basic = basic_ref-Honest;
    code = λ code_hash t keys h. inr (ground arith, ground arith);
    slot = storage_ref-Honest;
    hash = block_hash_ref-Honest;
  }
