-- ===== src/Fetch/Keys.antt =====
-- crates/fetch/src/lib.rs, `StateKey`, with its derived order and equality.
use forkyard.Base.{
  ℕ, List, [], ◌∷◌, ◌≢◌, arith, Bool, true, false, ◌&&◌, ◌||◌, ltb, leb, ◌==◌, if◌then◌else◌,
}

pub data StateKey : Type 0 where
  account : ℕ → StateKey
  storage : ℕ → ℕ → StateKey
  block_hash : ℕ → StateKey

-- Variants are ordered as they are declared.
abbrev pub leb_key : StateKey → StateKey → Bool
leb_key (account a) (account b) = leb a b
leb_key (account a) _ = true
leb_key (storage a i) (account b) = false
leb_key (storage a i) (storage b j) = ltb a b || (a == b && leb i j)
leb_key (storage a i) (block_hash n) = true
leb_key (block_hash n) (block_hash m) = leb n m
leb_key (block_hash n) _ = false

abbrev pub eq_key : StateKey → StateKey → Bool
eq_key (account a) (account b) = a == b
eq_key (storage a i) (storage b j) = a == b && i == j
eq_key (block_hash n) (block_hash m) = n == m
eq_key _ _ = false

unfoldable pub insert_key : StateKey → List StateKey → List StateKey
insert_key k [] = k ∷ []
insert_key k (j ∷ ks) = if leb_key k j then k ∷ j ∷ ks else j ∷ insert_key k ks

unfoldable pub sort : List StateKey → List StateKey
unfolding insert_key
sort [] = []
sort (k ∷ ks) = insert_key k (sort ks)

-- `dedup` keeps the first of each run of equal neighbours.
unfoldable pub dedup_after : StateKey → List StateKey → List StateKey
dedup_after k [] = []
dedup_after k (j ∷ ks) = let rest = dedup_after j ks in if eq_key k j then rest else j ∷ rest

unfoldable pub dedup : List StateKey → List StateKey
unfolding dedup_after
dedup [] = []
dedup (k ∷ ks) = k ∷ dedup_after k ks

insert_key-ne-nil : (k : StateKey) (ks : List StateKey) → insert_key k ks ≢ []
unfolding insert_key
insert_key-ne-nil k [] = λ e. cc
insert_key-ne-nil k (j ∷ ks) = ground arith

dedup-ne-nil : (ks : List StateKey) → ks ≢ [] → dedup ks ≢ []
unfolding dedup
dedup-ne-nil [] h = h
dedup-ne-nil (k ∷ ks) h = λ e. cc

-- A list with a key keeps one.
pub dedup-sort-ne-nil : (k : StateKey) (ks : List StateKey) → dedup (sort (k ∷ ks)) ≢ []
unfolding sort
dedup-sort-ne-nil k ks = dedup-ne-nil _ (insert_key-ne-nil k (sort ks))
