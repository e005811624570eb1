-- ===== src/Fetch/Flying.antt =====
-- What holds between the threads that `resolve` keys and the flights, whatever they have done so
-- far.
use mathlib.Core.Path.{subst}
use forkyard.Base.{ℕ, ◌<◌, true, some, In, ◌≡◌, ◌≢◌, refl, sym, ◌⊎◌, inl, inr, arith, ℕ_discrete}
use forkyard.Fetch.Claims.{flying, Dated}
use forkyard.Fetch.Flights.{Board, Place, starts, fetches, awaits, done, failed, Fleet, at}
use forkyard.Fetch.Keys.{StateKey}
use forkyard.Fetch.ReadThrough.{ReadCache}

-- A thread owns the keys that it is fetching.
abbrev pub Owns : Place → StateKey → Type 0
Owns (fetches keys mine theirs) k = In k mine
Owns (starts keys) k = ⊥
Owns (awaits keys theirs) k = ⊥
Owns (done keys) k = ⊥
Owns (failed keys) k = ⊥

abbrev pub Waits : Place → ℕ → Type 0
Waits (fetches keys mine theirs) h = In h theirs
Waits (awaits keys theirs) h = In h theirs
Waits (starts keys) h = ⊥
Waits (done keys) h = ⊥
Waits (failed keys) h = ⊥

abbrev pub Flies : StateKey → Board → Type 0
Flies k b = (h : ℕ) × (flying k b ≡ some h)

abbrev pub Pending : ℕ → Board → Type 0
Pending h b = (h < b.fresh) × ((b.landed h ≡ true) ⊎ ((k : StateKey) × (flying k b ≡ some h)))

pub at_cases :
    {A : Type 0} (i j : ℕ) (a : A) (f : ℕ → A)
    → ((i ≡ j) × (at i a f j ≡ a)) ⊎ ((i ≢ j) × (at i a f j ≡ f j))
at_cases i j a f = elim (ℕ_discrete i j) [
  | yes e ↦ inl (e, ground arith)
  | no n ↦ inr (n, ground arith)
]

module _ {B : Type 0} where
  pub record IsValid (s : Fleet B) : Type 0 where
    pub owned : (k : StateKey) (h : ℕ) → flying k s.board ≡ some h → (i : ℕ) × Owns (s.threads i) k
    pub flown : (i : ℕ) (k : StateKey) → Owns (s.threads i) k → Flies k s.board
    pub single : (i j : ℕ) (k : StateKey) → Owns (s.threads i) k → Owns (s.threads j) k → i ≡ j
    pub waited : (i h : ℕ) → Waits (s.threads i) h → Pending h s.board
    pub dated : Dated s.board

  pub grow-IsValid : (s : Fleet B) (c : ReadCache B) → IsValid s → IsValid (record s { cache = c })
  grow-IsValid s c v = record {
    owned = v.owned;
    flown = v.flown;
    single = v.single;
    waited = v.waited;
    dated = v.dated;
  }

  -- What a thread that goes to `p`, with the flights `b`, has to keep up.
  pub record IsMove (s : Fleet B) (i : ℕ) (p : Place) (b : Board) : Type 0 where
    pub from :
        (k : StateKey) (h : ℕ)
        → flying k b ≡ some h
        → Owns p k ⊎ ((flying k s.board ≡ some h) × ¬ Owns (s.threads i) k)
    pub goes : (k : StateKey) → Owns p k → Flies k b
    pub stays : (k : StateKey) → Flies k s.board → Flies k b ⊎ Owns (s.threads i) k
    pub alone : (k : StateKey) (j : ℕ) → i ≢ j → Owns p k → ¬ Owns (s.threads j) k
    pub waits : (h : ℕ) → Waits p h → Pending h b
    pub others : (h : ℕ) → Pending h s.board → Pending h b
    pub numbered : Dated b

  module _ (s : Fleet B) (i : ℕ) (p : Place) (b : Board) (v : IsValid s) (m : IsMove s i p b) where
    abbrev moved : ℕ → Place
    moved = at i p s.threads

    abbrev At : ℕ → Type 0
    At j = ((i ≡ j) × (moved j ≡ p)) ⊎ ((i ≢ j) × (moved j ≡ s.threads j))

    place_of : (j : ℕ) → At j
    place_of j = at_cases i j p s.threads

    owner-At :
        (j : ℕ) (k : StateKey)
        → At j
        → ¬ Owns (s.threads i) k
        → Owns (s.threads j) k
        → Owns (moved j) k
    owner-At j k (inl (e, at_p)) n o = absurd (n (subst (λ x. Owns (s.threads x) k) (sym e) o))
    owner-At j k (inr (ne, old)) n o = subst (λ q. Owns q k) (sym old) o

    owner_now : (k : StateKey) → At i → Owns p k → Owns (moved i) k
    owner_now k (inl (e, at_p)) o = subst (λ q. Owns q k) (sym at_p) o
    owner_now k (inr (ne, old)) o = absurd (ne refl)

    owned_moved : (k : StateKey) (h : ℕ) → flying k b ≡ some h → (j : ℕ) × Owns (moved j) k
    owned_moved k h e = elim (m.from k h e) [
      | inl o ↦ (i, owner_now k (place_of i) o)
      | inr (old, not_mine) ↦
          let owner = v.owned k h old in
          (owner.0, owner-At owner.0 k (place_of owner.0) not_mine owner.1)
    ]

    flown_moved : (j : ℕ) (k : StateKey) → At j → Owns (moved j) k → Flies k b
    flown_moved j k (inl (e, at_p)) o = m.goes k (subst (λ q. Owns q k) at_p o)
    flown_moved j k (inr (ne, old)) o =
        let was : Owns (s.threads j) k = subst (λ q. Owns q k) old o in
        elim (m.stays k (v.flown j k was)) [
          | inl f ↦ f
          | inr mine ↦ absurd (ne (v.single i j k mine was))
        ]

    single_moved :
        (j l : ℕ) (k : StateKey) → At j → At l → Owns (moved j) k → Owns (moved l) k → j ≡ l
    single_moved j l k (inl (e, at_p)) (inl (f, at_q)) o q = cc
    single_moved j l k (inl (e, at_p)) (inr (n, old)) o q =
        absurd (m.alone k l n (subst (λ x. Owns x k) at_p o) (subst (λ x. Owns x k) old q))
    single_moved j l k (inr (n, old)) (inl (f, at_q)) o q =
        absurd (m.alone k j n (subst (λ x. Owns x k) at_q q) (subst (λ x. Owns x k) old o))
    single_moved j l k (inr (n, old)) (inr (n', old')) o q =
        v.single j l k (subst (λ x. Owns x k) old o) (subst (λ x. Owns x k) old' q)

    waited_moved : (j h : ℕ) → At j → Waits (moved j) h → Pending h b
    waited_moved j h (inl (e, at_p)) w = m.waits h (subst (λ q. Waits q h) at_p w)
    waited_moved j h (inr (n, old)) w = m.others h (v.waited j h (subst (λ q. Waits q h) old w))

    pub move-IsValid : IsValid (record s { board = b; threads = at i p s.threads })
    move-IsValid = record {
      owned = owned_moved;
      flown = λ j k. flown_moved j k (place_of j);
      single = λ j l k. single_moved j l k (place_of j) (place_of l);
      waited = λ j h. waited_moved j h (place_of j);
      dated = m.numbered;
    }
