-- ===== src/Fetch/Landing.antt =====
-- What a `Landing` of crates/fetch/src/lib.rs does when it is dropped: it ends the flights of just
-- its keys, and whoever waits for one of them is woken.
use mathlib.Core.Path.{subst}
use forkyard.Base.{
  ℕ, List, [], ◌∷◌, true, none, some, In, ◌≡◌, ◌∙◌, refl, sym, ◌⊎◌, inl, inr, arith, Option-cases,
}
use forkyard.Base.Maps.{get-remove}
use forkyard.Fetch.Claims.{flying}
use forkyard.Fetch.Flights.{Board, key_discrete, land, touch_down}
use forkyard.Fetch.Keys.{StateKey}

land_other :
    (k : StateKey) (ks : List StateKey) (b : Board)
    → flying k b ≡ none
    → land (k ∷ ks) b ≡ land ks b
unfolding land
land_other k ks b e = ground arith

land-flying :
    (k : StateKey) (ks : List StateKey) (b : Board) (h : ℕ)
    → flying k b ≡ some h
    → land (k ∷ ks) b ≡ land ks (touch_down k h b)
unfolding land
land-flying k ks b h e = ground arith

-- The keys have no flight, no other flight ends, and each flight that ended has landed.
abbrev pub Ends : List StateKey → Board → Board → Type 0
Ends ks b b' =
    ((k : StateKey) → In k ks → flying k b' ≡ none)
    × ((k : StateKey) (h : ℕ) → flying k b' ≡ some h → flying k b ≡ some h)
    × ((k : StateKey) (h : ℕ)
        → flying k b ≡ some h
        → (flying k b' ≡ some h) ⊎ (In k ks × (b'.landed h ≡ true)))
    × ((h : ℕ) → b.landed h ≡ true → b'.landed h ≡ true)
    × (b'.fresh ≡ b.fresh)

none_stays :
    (k : StateKey) (b b' : Board)
    → ((h : ℕ) → flying k b' ≡ some h → flying k b ≡ some h)
    → flying k b ≡ none
    → flying k b' ≡ none
none_stays k b b' back e = elim (Option-cases (flying k b')) [
  | inl n ↦ n
  | inr (h, s) ↦ cc (back h s)
]

other-Ends :
    (k : StateKey) (ks : List StateKey) (b b' : Board)
    → flying k b ≡ none
    → Ends ks b b'
    → Ends (k ∷ ks) b b'
other-Ends k ks b b' e f = (gone, f.1, kept, f.3, f.4)
  where
    gone : (j : StateKey) → In j (k ∷ ks) → flying j b' ≡ none
    gone j (inl same) = subst (λ i. flying i b' ≡ none) same (none_stays k b b' (f.1 k) e)
    gone j (inr m) = f.0 j m

    widen :
        (j : StateKey) (h : ℕ)
        → (flying j b' ≡ some h) ⊎ (In j ks × (b'.landed h ≡ true))
        → (flying j b' ≡ some h) ⊎ (In j (k ∷ ks) × (b'.landed h ≡ true))
    widen j h (inl g) = inl g
    widen j h (inr m) = inr (inr m.0, m.1)

    kept :
        (j : StateKey) (h : ℕ)
        → flying j b ≡ some h
        → (flying j b' ≡ some h) ⊎ (In j (k ∷ ks) × (b'.landed h ≡ true))
    kept j h g = widen j h (f.2 j h g)

touch_down_self : (k : StateKey) (h : ℕ) (b : Board) → flying k (touch_down k h b) ≡ none
unfolding touch_down
touch_down_self k h b = ground (arith, get-remove key_discrete k k b.in_flight)

touch_down_back :
    (k j : StateKey) (h g : ℕ) (b : Board)
    → flying j (touch_down k h b) ≡ some g
    → flying j b ≡ some g
unfolding touch_down
touch_down_back k j h g b e = ground (arith, get-remove key_discrete k j b.in_flight)

touch_down_kept :
    (k j : StateKey) (h g : ℕ) (b : Board)
    → flying j b ≡ some g
    → (flying j (touch_down k h b) ≡ some g) ⊎ (k ≡ j)
unfolding touch_down
touch_down_kept k j h g b e = ground (arith, get-remove key_discrete k j b.in_flight)

touch_down_landed : (k : StateKey) (h : ℕ) (b : Board) → (touch_down k h b).landed h ≡ true
unfolding touch_down
touch_down_landed k h b = ground arith

touch_down_landed_old :
    (k : StateKey) (h g : ℕ) (b : Board) → b.landed g ≡ true → (touch_down k h b).landed g ≡ true
unfolding touch_down
touch_down_landed_old k h g b e = ground arith

touch_down-fresh : (k : StateKey) (h : ℕ) (b : Board) → (touch_down k h b).fresh ≡ b.fresh
unfolding touch_down
touch_down-fresh k h b = refl

flying-Ends :
    (k : StateKey) (ks : List StateKey) (h : ℕ) (b b' : Board)
    → flying k b ≡ some h
    → Ends ks (touch_down k h b) b'
    → Ends (k ∷ ks) b b'
flying-Ends k ks h b b' e f = (
  gone,
  λ j g n. touch_down_back k j h g b (f.1 j g n),
  λ j g n. kept j g n (touch_down_kept k j h g b n),
  λ g n. f.3 g (touch_down_landed_old k h g b n),
  f.4 ∙ touch_down-fresh k h b,
)
  where
    gone : (j : StateKey) → In j (k ∷ ks) → flying j b' ≡ none
    gone j (inl same) =
        subst (λ i. flying i b' ≡ none) same
          (none_stays k (touch_down k h b) b' (f.1 k) (touch_down_self k h b))
    gone j (inr m) = f.0 j m

    widen :
        (j : StateKey) (g : ℕ)
        → (flying j b' ≡ some g) ⊎ (In j ks × (b'.landed g ≡ true))
        → (flying j b' ≡ some g) ⊎ (In j (k ∷ ks) × (b'.landed g ≡ true))
    widen j g (inl n) = inl n
    widen j g (inr m) = inr (inr m.0, m.1)

    kept :
        (j : StateKey) (g : ℕ)
        → flying j b ≡ some g
        → (flying j (touch_down k h b) ≡ some g) ⊎ (k ≡ j)
        → (flying j b' ≡ some g) ⊎ (In j (k ∷ ks) × (b'.landed g ≡ true))
    kept j g n (inl s) = widen j g (f.2 j g s)
    kept j g n (inr same) =
        let one : h ≡ g = cc in
        inr (inl same, subst (λ x. b'.landed x ≡ true) one (f.3 h (touch_down_landed k h b)))

pub land-Ends : (ks : List StateKey) (b : Board) → Ends ks b (land ks b)
land-Ends [] b = unfold land in (λ k m. absurd m, λ k h e. e, λ k h e. inl e, λ h e. e, refl)
land-Ends (k ∷ ks) b = elim (Option-cases (flying k b)) [
  | inl free ↦
      subst (Ends (k ∷ ks) b) (sym (land_other k ks b free))
        (other-Ends k ks b (land ks b) free (land-Ends ks b))
  | inr (h, busy) ↦
      subst (Ends (k ∷ ks) b) (sym (land-flying k ks b h busy))
        (flying-Ends k ks h b (land ks (touch_down k h b)) busy (land-Ends ks (touch_down k h b)))
]
