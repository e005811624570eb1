-- ===== src/Fetch/Places.antt =====
-- Where a thread of crates/fetch/src/lib.rs goes after it claimed keys, and after its own have landed.
use forkyard.Base.{ℕ, List, [], ◌∷◌, In}
use forkyard.Fetch.Flights.{settled, claimed}
use forkyard.Fetch.Flying.{Owns, Waits}
use forkyard.Fetch.Keys.{StateKey}

pub claimed-Owns :
    (keys mine : List StateKey) (theirs : List ℕ) (k : StateKey)
    → Owns (claimed keys mine theirs) k
    → In k mine
claimed-Owns keys [] [] k o = absurd o
claimed-Owns keys [] (h ∷ theirs) k o = absurd o
claimed-Owns keys (j ∷ mine) theirs k o = o

pub Owns-claimed :
    (keys mine : List StateKey) (theirs : List ℕ) (k : StateKey)
    → In k mine
    → Owns (claimed keys mine theirs) k
Owns-claimed keys [] theirs k o = absurd o
Owns-claimed keys (j ∷ mine) theirs k o = o

pub claimed-Waits :
    (keys mine : List StateKey) (theirs : List ℕ) (h : ℕ)
    → Waits (claimed keys mine theirs) h
    → In h theirs
claimed-Waits keys [] [] h w = absurd w
claimed-Waits keys [] (g ∷ theirs) h w = w
claimed-Waits keys (j ∷ mine) theirs h w = w

pub settled-Owns :
    (keys : List StateKey) (theirs : List ℕ) (k : StateKey) → ¬ Owns (settled keys theirs) k
settled-Owns keys [] k o = o
settled-Owns keys (h ∷ theirs) k o = o

pub settled-Waits :
    (keys : List StateKey) (theirs : List ℕ) (h : ℕ) → Waits (settled keys theirs) h → In h theirs
settled-Waits keys [] h w = absurd w
settled-Waits keys (g ∷ theirs) h w = w
