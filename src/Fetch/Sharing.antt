-- ===== src/Fetch/Sharing.antt =====
-- The threads of crates/fetch/src/lib.rs that call `resolve` on clones of one `ReadThrough`: no key
-- is fetched twice at a time, and nobody waits for a fetch that is not under way.
use mathlib.Core.Path.{subst}
use forkyard.Base.{ℕ, List, [], ◌∷◌, true, some, In, ◌≡◌, ◌≢◌, refl, sym, ◌⊎◌, inl, inr}
use forkyard.Base.Maps.{get}
use forkyard.Fetch.Claims.{flying}
use forkyard.Fetch.Flights.{
  land, Place, starts, fetches, awaits, done, failed, settled, claimed, Fleet, Step, grows,
  calls_done, calls_failed, claims, lands, fails, wakes, again, at_rest, Reach, rest, next,
  no_flights,
}
use forkyard.Fetch.Flying.{Owns, Waits, IsValid, grow-IsValid, move-IsValid}
use forkyard.Fetch.Places.{settled-Owns, settled-Waits}
use forkyard.Fetch.Moves.{idle-IsMove, claim-IsMove, land-IsMove}
use forkyard.Fetch.Keys.{StateKey}
use forkyard.Fetch.ReadThrough.{ReadCache}

fetching :
    (p : Place) (k : StateKey)
    → Owns p k
    → (keys mine : List StateKey) × (theirs : List ℕ) × (p ≡ fetches keys mine theirs) × In k mine
fetching (fetches keys mine theirs) k o = (keys, mine, theirs, refl, o)
fetching (starts keys) k o = absurd o
fetching (awaits keys theirs) k o = absurd o
fetching (done keys) k o = absurd o
fetching (failed keys) k o = absurd o

nothing_flies : (k : StateKey) (h : ℕ) → flying k no_flights ≢ some h
unfolding get
nothing_flies k h = λ e. cc

module _ {B : Type 0} where
  Step-IsValid : {s u : Fleet B} → Step s u → IsValid s → IsValid u
  Step-IsValid (grows s c g) v = grow-IsValid s c v
  Step-IsValid (calls_done s i old keys e) v =
      move-IsValid s i (starts keys) s.board v
        (idle-IsMove s i (done old) (starts keys) e (λ k o. o) (λ k o. o) (λ h w. w) v)
  Step-IsValid (calls_failed s i old keys e) v =
      move-IsValid s i (starts keys) s.board v
        (idle-IsMove s i (failed old) (starts keys) e (λ k o. o) (λ k o. o) (λ h w. w) v)
  Step-IsValid (claims s i keys seen cache mine theirs b e g complete sound c) v =
      let s' = record s { cache = cache } in
      let v' = grow-IsValid s cache v in
      move-IsValid s' i (claimed keys mine theirs) b v'
        (claim-IsMove s' i keys seen mine theirs b e c v')
  Step-IsValid (lands s i keys mine theirs e) v =
      move-IsValid s i (settled keys theirs) (land mine s.board) v (
        land-IsMove s i keys mine theirs (settled keys theirs) e (settled-Owns keys theirs)
          (settled-Waits keys theirs) v)
  Step-IsValid (fails s i keys mine theirs e) v =
      move-IsValid s i (failed keys) (land mine s.board) v
        (land-IsMove s i keys mine theirs (failed keys) e (λ k o. o) (λ h w. absurd w) v)
  Step-IsValid (wakes s i keys h theirs e l) v = move-IsValid s i (awaits keys theirs) s.board v (
      idle-IsMove s i (awaits keys (h ∷ theirs)) (awaits keys theirs) e (λ k o. o) (λ k o. o)
        (λ g w. inr w) v)
  Step-IsValid (again s i keys e) v =
      move-IsValid s i (starts keys) s.board v
        (idle-IsMove s i (awaits keys []) (starts keys) e (λ k o. o) (λ k o. o) (λ h w. absurd w) v)

  rest-IsValid : (cache : ReadCache B) → IsValid (at_rest cache)
  rest-IsValid cache = record {
    owned = λ k h e. absurd (nothing_flies k h e);
    flown = λ i k o. absurd o;
    single = λ i j k o. absurd o;
    waited = λ i h w. absurd w;
    dated = λ k h e. absurd (nothing_flies k h e);
  }

  Reach-IsValid : {s : Fleet B} → Reach s → IsValid s
  Reach-IsValid (rest cache) = rest-IsValid cache
  Reach-IsValid (next r st) = Step-IsValid st (Reach-IsValid r)

  -- Whatever the threads have done, two threads that are fetching the same key are one thread.
  pub fetched_once :
      (s : Fleet B) (i j : ℕ) (k : StateKey) (keys mine keys' mine' : List StateKey)
      (theirs theirs' : List ℕ)
      → Reach s
      → s.threads i ≡ fetches keys mine theirs
      → s.threads j ≡ fetches keys' mine' theirs'
      → In k mine
      → In k mine'
      → i ≡ j
  fetched_once s i j k keys mine keys' mine' theirs theirs' r e e' m m' =
      (Reach-IsValid r).single i j k (subst (λ p. Owns p k) (sym e) m)
        (subst (λ p. Owns p k) (sym e') m')

  -- Whatever the threads have done, a thread that waits for a flight can go on, or the flight is that
  -- of a key which some thread is fetching.
  pub never_stranded :
      (s : Fleet B) (i h : ℕ) (keys : List StateKey) (theirs : List ℕ)
      → Reach s
      → s.threads i ≡ awaits keys (h ∷ theirs)
      → (s.board.landed h ≡ true)
        ⊎ ((k : StateKey) × (j : ℕ) × (flying k s.board ≡ some h)
            × ((keys' mine : List StateKey) × (theirs' : List ℕ) × (s.threads j
                  ≡ fetches keys' mine theirs')
                × In k mine))
  never_stranded s i h keys theirs r e =
      let v = Reach-IsValid r in
      elim ((v.waited i h (subst (λ p. Waits p h) (sym e) (inl refl))).1) [
        | inl l ↦ inl l
        | inr (k, fl) ↦
            let owner = v.owned k h fl in
            inr (k, owner.0, fl, fetching (s.threads owner.0) k owner.1)
      ]
