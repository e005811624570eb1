-- ===== src/Tests/Flights.antt =====
-- Two threads that miss one key of a read cache.
use forkyard.Base.{ℕ, List, [], ◌∷◌, true, false, some, In, ◌≡◌, refl, ◌⊎◌, inl, ℕ_discrete}
use forkyard.Base.Maps.{get, insert}
use forkyard.Engine.Types.{default_account}
use forkyard.Fetch.Claims.{flying}
use forkyard.Fetch.Flights.{
  Board, claim, land, take_off, starts, fetches, awaits, done, Fleet, GrowsTo, calls_done, claims,
  at, at_rest, Reach, rest, next, no_flights, key_discrete,
}
use forkyard.Fetch.Keys.{StateKey, account}
use forkyard.Fetch.ReadThrough.{ReadCache, default_cache}
use forkyard.Fetch.Sharing.{fetched_once, never_stranded}
use forkyard.Fetch.Upstream.{is_cached}

abbrev cold : ReadCache ℕ
cold = default_cache

abbrev warm : ReadCache ℕ
warm = record cold { accounts = (7, some default_account) ∷ [] }

abbrev wanted : List StateKey
wanted = account 7 ∷ []

abbrev called : Fleet ℕ
called = record (at_rest cold) { threads = at 0 (starts wanted) (at_rest cold).threads }

abbrev board : Board
board = take_off (account 7) no_flights

abbrev flown : Fleet ℕ
flown = record called { board = board; threads = at 0 (fetches wanted wanted []) called.threads }

claim_first : claim (λ k. false) wanted no_flights ≡ (wanted, [], board)
unfolding claim get key_discrete
claim_first = refl

claim_second : claim (λ k. false) wanted board ≡ ([], 0 ∷ [], board)
unfolding claim get insert take_off key_discrete ℕ_discrete
claim_second = refl

cold_lacks : (k : StateKey) → is_cached cold k ≡ true → false ≡ true
unfolding is_cached get
cold_lacks (StateKey.account a) h = h
cold_lacks (StateKey.storage a i) h = h
cold_lacks (StateKey.block_hash n) h = h

cold_grows : GrowsTo cold warm
cold_grows k h = absurd (cc (cold_lacks k h))

abbrev queued : Fleet ℕ
queued = record flown { threads = at 1 (starts wanted) flown.threads }

abbrev both : Fleet ℕ
both = record queued { threads = at 1 (awaits wanted (0 ∷ [])) queued.threads }

abbrev filled : Fleet ℕ
filled = record flown { cache = warm }

abbrev landed : Fleet ℕ
landed = record filled { board = land wanted board; threads = at 0 (done wanted) filled.threads }

Reach-flown : Reach flown
unfolding ℕ_discrete
Reach-flown = next (next (rest cold) (calls_done (at_rest cold) 0 [] wanted refl)) (
    claims called 0 wanted (λ k. false) cold wanted [] board refl (λ k h. h) cold_lacks (λ k h. cc)
      claim_first)

Reach-both : Reach both
unfolding ℕ_discrete
Reach-both = next (next Reach-flown (calls_done flown 1 [] wanted refl)) (
    claims queued 1 wanted (λ k. false) cold [] (0 ∷ []) board refl (λ k h. h) cold_lacks
      (λ k h. cc) claim_second)

fetched_once_example : ◌≡◌ {A = ℕ} 0 0
unfolding ℕ_discrete
fetched_once_example =
    fetched_once both 0 0 (account 7) wanted wanted wanted wanted [] [] Reach-both refl refl
      (inl refl) (inl refl)

never_stranded_example :
    (both.board.landed 0 ≡ true)
    ⊎ ((k : StateKey) × (j : ℕ) × (flying k both.board ≡ some 0)
        × ((keys' mine : List StateKey) × (theirs' : List ℕ) × (both.threads j
              ≡ fetches keys' mine theirs')
            × In k mine))
unfolding ℕ_discrete
never_stranded_example = never_stranded both 1 0 wanted [] Reach-both refl
