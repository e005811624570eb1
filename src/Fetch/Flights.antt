-- ===== src/Fetch/Flights.antt =====
-- crates/fetch/src/lib.rs, `Flight`, `Landing`, `claim` and the loop of `resolve`: threads that
-- share one read cache, and fetch each key that several of them miss once.
use forkyard.Base.{ℕ, ◌+◌, List, [], ◌∷◌, Bool, true, false, none, some, ◌≡◌, ℕ_discrete}
use mathlib.Core.Logic.{ite}
use forkyard.Base.Maps.{get, insert, remove}
use forkyard.Fetch.Keys.{StateKey}
use forkyard.Fetch.ReadThrough.{ReadCache}
use forkyard.Fetch.Upstream.{is_cached}

unfoldable pub key_discrete : Discrete StateKey
key_discrete = hlevel (ℕ_discrete)

abbrev pub at : {A : Type 0} → ℕ → A → (ℕ → A) → ℕ → A
at i a f j = ite (ℕ_discrete i j) a (f j)

-- An `Arc<Flight>` is a number: `landed` reads its flag, `fresh` is the next one.
pub record Board : Type 0 where
  pub in_flight : List (StateKey × ℕ)
  pub landed : ℕ → Bool
  pub fresh : ℕ

unfoldable pub take_off : StateKey → Board → Board
take_off key b = record {
  in_flight = insert key_discrete key b.fresh b.in_flight;
  landed = at b.fresh false b.landed;
  fresh = b.fresh + 1;
}

abbrev pub Claimed : Type 0
Claimed = List StateKey × List ℕ × Board

abbrev pub own : StateKey → Claimed → Claimed
own key (mine, theirs, b) = (key ∷ mine, theirs, b)

abbrev pub join : ℕ → Claimed → Claimed
join flight (mine, theirs, b) = (mine, flight ∷ theirs, b)

-- `seen` is what `is_cached` answers for each key, under the lock of `in_flight`.
unfoldable pub claim : (StateKey → Bool) → List StateKey → Board → Claimed
unfolding take_off
claim seen [] b = ([], [], b)
claim seen (key ∷ keys) b = elim (seen key) [
  | true ↦ claim seen keys b
  | false ↦ elim (get key_discrete key b.in_flight) [
    | some flight ↦ join flight (claim seen keys b)
    | none ↦ own key (claim seen keys (take_off key b))
  ]
]

unfoldable pub touch_down : StateKey → ℕ → Board → Board
touch_down key flight b = record b {
  in_flight = remove key_discrete key b.in_flight;
  landed = at flight true b.landed;
}

-- `Landing::drop`, under the same lock.
unfoldable pub land : List StateKey → Board → Board
unfolding touch_down
land [] b = b
land (key ∷ keys) b = elim (get key_discrete key b.in_flight) [
  | none ↦ land keys b
  | some flight ↦ land keys (touch_down key flight b)
]

-- Where a thread is in `resolve(keys)`: at the head of the loop, fetching `mine`, waiting for the
-- flights of others, or out of it, `done` where it returned `Ok` and `failed` where it returned an
-- error or unwound.
pub data Place : Type 0 where
  starts : List StateKey → Place
  fetches : List StateKey → List StateKey → List ℕ → Place
  awaits : List StateKey → List ℕ → Place
  done : List StateKey → Place
  failed : List StateKey → Place

-- Once nothing of its own is left to fetch: no flight to wait for ends the loop.
abbrev pub settled : List StateKey → List ℕ → Place
settled keys [] = done keys
settled keys (h ∷ theirs) = awaits keys (h ∷ theirs)

abbrev pub claimed : List StateKey → List StateKey → List ℕ → Place
claimed keys [] theirs = settled keys theirs
claimed keys (k ∷ mine) theirs = fetches keys (k ∷ mine) theirs

pub record Fleet (B : Type 0) : Type 0 where
  pub cache : ReadCache B
  pub board : Board
  pub threads : ℕ → Place

abbrev pub GrowsTo : {B : Type 0} → ReadCache B → ReadCache B → Type 0
GrowsTo c c' = (k : StateKey) → is_cached c k ≡ true → is_cached c' k ≡ true

-- One step of one thread `i`. A fetch lands where it succeeded, whatever it cached. The cache may grow at any time, also while a thread claims: then it
-- sees each key as it was at some time in between.
pub data Step {B : Type 0} : Fleet B → Fleet B → Type 0 where
  grows :
      (s : Fleet B) (cache : ReadCache B)
      → GrowsTo s.cache cache
      → Step s (record s { cache = cache })
  calls_done :
      (s : Fleet B) (i : ℕ) (old keys : List StateKey)
      → s.threads i ≡ done old
      → Step s (record s { threads = at i (starts keys) s.threads })
  calls_failed :
      (s : Fleet B) (i : ℕ) (old keys : List StateKey)
      → s.threads i ≡ failed old
      → Step s (record s { threads = at i (starts keys) s.threads })
  claims :
      (s : Fleet B) (i : ℕ) (keys : List StateKey) (seen : StateKey → Bool) (cache : ReadCache B)
      (mine : List StateKey) (theirs : List ℕ) (board : Board)
      → s.threads i ≡ starts keys
      → GrowsTo s.cache cache
      → ((k : StateKey) → is_cached s.cache k ≡ true → seen k ≡ true)
      → ((k : StateKey) → seen k ≡ true → is_cached cache k ≡ true)
      → claim seen keys s.board ≡ (mine, theirs, board)
      → Step s (record {
        cache = cache;
        board = board;
        threads = at i (claimed keys mine theirs) s.threads;
      })
  lands :
      (s : Fleet B) (i : ℕ) (keys mine : List StateKey) (theirs : List ℕ)
      → s.threads i ≡ fetches keys mine theirs
      → Step s
          (record s { board = land mine s.board; threads = at i (settled keys theirs) s.threads })
  fails :
      (s : Fleet B) (i : ℕ) (keys mine : List StateKey) (theirs : List ℕ)
      → s.threads i ≡ fetches keys mine theirs
      → Step s (record s { board = land mine s.board; threads = at i (failed keys) s.threads })
  wakes :
      (s : Fleet B) (i : ℕ) (keys : List StateKey) (h : ℕ) (theirs : List ℕ)
      → s.threads i ≡ awaits keys (h ∷ theirs)
      → s.board.landed h ≡ true
      → Step s (record s { threads = at i (awaits keys theirs) s.threads })
  again :
      (s : Fleet B) (i : ℕ) (keys : List StateKey)
      → s.threads i ≡ awaits keys []
      → Step s (record s { threads = at i (starts keys) s.threads })

abbrev pub no_flights : Board
no_flights = record { in_flight = []; landed = λ h. false; fresh = 0 }

abbrev pub at_rest : {B : Type 0} → ReadCache B → Fleet B
at_rest cache = record { cache = cache; board = no_flights; threads = λ i. done [] }

-- What any number of threads can reach, from a cache at rest.
pub data Reach {B : Type 0} : Fleet B → Type 0 where
  rest : (cache : ReadCache B) → Reach (at_rest cache)
  next : {s u : Fleet B} → Reach s → Step s u → Reach u
