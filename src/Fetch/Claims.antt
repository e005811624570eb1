-- ===== src/Fetch/Claims.antt =====
-- What `claim` of crates/fetch/src/lib.rs does to the flights: it starts one for just the keys that
-- it gives its caller.
use forkyard.Base.{
  ℕ, ◌+◌, ◌≤◌, ◌<◌, List, [], ◌∷◌, Bool, true, false, Option, none, some, All, In, ◌≡◌, refl, sym,
  ◌⊎◌, inl, inr, arith, Option-cases, Bool-cases,
}
use mathlib.Core.Path.{subst}
use forkyard.Base.Maps.{get, get-insert}
use forkyard.Fetch.Keys.{StateKey}
use forkyard.Fetch.Flights.{Board, Claimed, key_discrete, take_off, own, join, claim}

abbrev pub flying : StateKey → Board → Option ℕ
flying k b = get key_discrete k b.in_flight

flying-take_off_self : (k : StateKey) (b : Board) → flying k (take_off k b) ≡ some b.fresh
unfolding take_off
flying-take_off_self k b = ground (arith, get-insert key_discrete k k b.fresh b.in_flight)

flying-take_off-some :
    (k j : StateKey) (b : Board) (h : ℕ)
    → flying j (take_off k b) ≡ some h
    → (flying j b ≡ some h) ⊎ (k ≡ j)
unfolding take_off
flying-take_off-some k j b h e = ground (arith, get-insert key_discrete k j b.fresh b.in_flight)

flying-take_off-none :
    (k j : StateKey) (b : Board) → flying j (take_off k b) ≡ none → flying j b ≡ none
unfolding take_off
flying-take_off-none k j b e = ground (arith, get-insert key_discrete k j b.fresh b.in_flight)

flying-take_off_old :
    (k j : StateKey) (b : Board) (h : ℕ)
    → flying k b ≡ none
    → flying j b ≡ some h
    → flying j (take_off k b) ≡ some h
unfolding take_off
flying-take_off_old k j b h n e = ground (arith, get-insert key_discrete k j b.fresh b.in_flight)

-- Each flight has a number that was given out.
abbrev pub Dated : Board → Type 0
Dated b = (k : StateKey) (h : ℕ) → flying k b ≡ some h → h < b.fresh

take_off-fresh : (k : StateKey) (b : Board) → (take_off k b).fresh ≡ b.fresh + 1
unfolding take_off
take_off-fresh k b = refl

take_off-landed :
    (k : StateKey) (b : Board) (h : ℕ)
    → h < b.fresh
    → b.landed h ≡ true
    → (take_off k b).landed h ≡ true
unfolding take_off
take_off-landed k b h l e = ground arith

take_off-Dated : (k : StateKey) (b : Board) → Dated b → Dated (take_off k b)
unfolding take_off
take_off-Dated k b d j h e = ground (arith, get-insert key_discrete k j b.fresh b.in_flight, d j h)

module _ (seen : StateKey → Bool) where
  -- The three ways in which `claim` treats a key.
  claim_cached :
      (k : StateKey) (ks : List StateKey) (b : Board)
      → seen k ≡ true
      → claim seen (k ∷ ks) b ≡ claim seen ks b
  unfolding claim
  claim_cached k ks b e = ground arith

  claim-flying :
      (k : StateKey) (ks : List StateKey) (b : Board) (h : ℕ)
      → seen k ≡ false
      → flying k b ≡ some h
      → claim seen (k ∷ ks) b ≡ join h (claim seen ks b)
  unfolding claim
  claim-flying k ks b h e f = ground arith

  claim_free :
      (k : StateKey) (ks : List StateKey) (b : Board)
      → seen k ≡ false
      → flying k b ≡ none
      → claim seen (k ∷ ks) b ≡ own k (claim seen ks (take_off k b))
  unfolding claim
  claim_free k ks b e f = ground arith

  -- The caller owns what was not in flight and is now; all else flies as before; each flight to
  -- wait for is in flight; and a key is seen, owned or in flight for another.
  abbrev pub Fair : List StateKey → Board → Claimed → Type 0
  Fair ks b (mine, theirs, b') =
      ((k : StateKey) → In k mine → flying k b ≡ none)
      × ((k : StateKey) → In k mine → (h : ℕ) × (flying k b' ≡ some h))
      × ((k : StateKey) (h : ℕ) → flying k b ≡ some h → flying k b' ≡ some h)
      × ((k : StateKey) (h : ℕ) → flying k b' ≡ some h → (flying k b ≡ some h) ⊎ In k mine)
      × ((h : ℕ) → In h theirs → (k : StateKey) × (flying k b' ≡ some h))
      × (theirs ≡ [] → All (λ k. (seen k ≡ true) ⊎ In k mine) ks)
      × (b.fresh ≤ b'.fresh)
      × ((h : ℕ) → h < b.fresh → b.landed h ≡ true → b'.landed h ≡ true)
      × (Dated b → Dated b')

  skip-Fair :
      (k : StateKey) (ks : List StateKey) (b : Board) (mine : List StateKey) (theirs : List ℕ)
      (b' : Board)
      → seen k ≡ true
      → Fair ks b (mine, theirs, b')
      → Fair (k ∷ ks) b (mine, theirs, b')
  skip-Fair k ks b mine theirs b' e f =
      (f.0, f.1, f.2, f.3, f.4, λ t. (inl e, f.5 t), f.6, f.7, f.8)

  join-Fair :
      (k : StateKey) (ks : List StateKey) (b : Board) (h : ℕ) (mine : List StateKey)
      (theirs : List ℕ) (b' : Board)
      → flying k b ≡ some h
      → Fair ks b (mine, theirs, b')
      → Fair (k ∷ ks) b (mine, h ∷ theirs, b')
  join-Fair k ks b h mine theirs b' e f =
      (f.0, f.1, f.2, f.3, λ g. elim_join g, λ t. cc, f.6, f.7, f.8)
    where
      elim_join : (g : ℕ) → In g (h ∷ theirs) → (j : StateKey) × (flying j b' ≡ some g)
      elim_join g (inl same) = (k, rw (← same) (f.2 k h e))
      elim_join g (inr m) = f.4 g m

  own-Fair :
      (k : StateKey) (ks : List StateKey) (b : Board) (mine : List StateKey) (theirs : List ℕ)
      (b' : Board)
      → flying k b ≡ none
      → Fair ks (take_off k b) (mine, theirs, b')
      → Fair (k ∷ ks) b (k ∷ mine, theirs, b')
  own-Fair k ks b mine theirs b' e f = (
    was_free,
    now_flying,
    λ j h g. f.2 j h (flying-take_off_old k j b h e g),
    came_from,
    f.4,
    λ t. (inr (inl refl), weaken ks (f.5 t)),
    omega (arith, f.6, take_off-fresh k b),
    λ h l e. f.7 h (omega (arith, take_off-fresh k b)) (take_off-landed k b h l e),
    λ d. f.8 (take_off-Dated k b d),
  )
    where
      was_free : (j : StateKey) → In j (k ∷ mine) → flying j b ≡ none
      was_free j (inl same) = rw (← same) e
      was_free j (inr m) = flying-take_off-none k j b (f.0 j m)

      now_flying : (j : StateKey) → In j (k ∷ mine) → (h : ℕ) × (flying j b' ≡ some h)
      now_flying j (inl same) = (b.fresh, rw (← same) (f.2 k b.fresh (flying-take_off_self k b)))
      now_flying j (inr m) = f.1 j m

      after :
          (j : StateKey) (h : ℕ)
          → (flying j b ≡ some h) ⊎ (k ≡ j)
          → (flying j b ≡ some h) ⊎ In j (k ∷ mine)
      after j h (inl g) = inl g
      after j h (inr same) = inr (inl same)

      took :
          (j : StateKey) (h : ℕ)
          → (flying j (take_off k b) ≡ some h) ⊎ In j mine
          → (flying j b ≡ some h) ⊎ In j (k ∷ mine)
      took j h (inr m) = inr (inr m)
      took j h (inl g) = after j h (flying-take_off-some k j b h g)

      came_from :
          (j : StateKey) (h : ℕ) → flying j b' ≡ some h → (flying j b ≡ some h) ⊎ In j (k ∷ mine)
      came_from j h g = took j h (f.3 j h g)

      widen : (j : StateKey) → (seen j ≡ true) ⊎ In j mine → (seen j ≡ true) ⊎ In j (k ∷ mine)
      widen j (inl s) = inl s
      widen j (inr m) = inr (inr m)

      weaken :
          (js : List StateKey)
          → All (λ j. (seen j ≡ true) ⊎ In j mine) js
          → All (λ j. (seen j ≡ true) ⊎ In j (k ∷ mine)) js
      weaken [] a = tt
      weaken (j ∷ js) a = (widen j a.0, weaken js a.1)

  pub claim-Fair : (ks : List StateKey) (b : Board) → Fair ks b (claim seen ks b)
  claim-Fair [] b =
      unfold claim in
      (
        λ k m. absurd m,
        λ k m. absurd m,
        λ k h e. e,
        λ k h e. inl e,
        λ h m. absurd m,
        λ t. tt,
        omega arith,
        λ h l e. e,
        λ d. d,
      )
  claim-Fair (k ∷ ks) b = elim (Bool-cases (seen k)) [
    | inl hit ↦
        let r = claim seen ks b in
        subst (Fair (k ∷ ks) b) (sym (claim_cached k ks b hit))
          (skip-Fair k ks b r.0 r.1 r.2 hit (claim-Fair ks b))
    | inr miss ↦ elim (Option-cases (flying k b)) [
      | inl free ↦
          let r = claim seen ks (take_off k b) in
          subst (Fair (k ∷ ks) b) (sym (claim_free k ks b miss free))
            (own-Fair k ks b r.0 r.1 r.2 free (claim-Fair ks (take_off k b)))
      | inr (h, busy) ↦
          let r = claim seen ks b in
          subst (Fair (k ∷ ks) b) (sym (claim-flying k ks b h miss busy))
            (join-Fair k ks b h r.0 r.1 r.2 busy (claim-Fair ks b))
    ]
  ]
