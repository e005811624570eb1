-- ===== src/Fetch/Moves.antt =====
-- The moves of a thread in `resolve` of crates/fetch/src/lib.rs, and what each keeps up.
use mathlib.Core.Path.{subst}
use forkyard.Base.{ℕ, List, Bool, In, ◌≡◌, sym, inl, inr, arith}
use forkyard.Fetch.Claims.{Fair, claim-Fair}
use forkyard.Fetch.Flights.{Board, claim, land, Place, starts, fetches, claimed, Fleet}
use forkyard.Fetch.Flying.{Owns, Waits, Pending, IsValid, IsMove}
use forkyard.Fetch.Places.{claimed-Owns, Owns-claimed, claimed-Waits}
use forkyard.Fetch.Keys.{StateKey}
use forkyard.Fetch.Landing.{land-Ends}

module _ {B : Type 0} where
  -- A thread that owns no key and goes where it owns none, with the flights as they are.
  pub idle-IsMove :
      (s : Fleet B) (i : ℕ) (p q : Place)
      → s.threads i ≡ p
      → ((k : StateKey) → ¬ Owns p k)
      → ((k : StateKey) → ¬ Owns q k)
      → ((h : ℕ) → Waits q h → Waits p h)
      → IsValid s
      → IsMove s i q s.board
  idle-IsMove s i p q e was now w v = record {
    from = λ k h f. inr (f, λ o. was k (subst (λ x. Owns x k) e o));
    goes = λ k o. absurd (now k o);
    stays = λ k f. inl f;
    alone = λ k j n o. absurd (now k o);
    waits = λ h x. v.waited i h (subst (λ y. Waits y h) (sym e) (w h x));
    others = λ h x. x;
    numbered = v.dated;
  }

  pub claim-IsMove :
      (s : Fleet B) (i : ℕ) (keys : List StateKey) (seen : StateKey → Bool) (mine : List StateKey)
      (theirs : List ℕ) (b : Board)
      → s.threads i ≡ starts keys
      → claim seen keys s.board ≡ (mine, theirs, b)
      → IsValid s
      → IsMove s i (claimed keys mine theirs) b
  claim-IsMove s i keys seen mine theirs b e c v =
      let f = subst (Fair seen keys s.board) c (claim-Fair seen keys s.board) in
      record {
        from = λ k h x. elim (f.3 k h x) [
          | inl old ↦ inr (old, λ o. subst (λ x. Owns x k) e o)
          | inr m ↦ inl (Owns-claimed keys mine theirs k m)
        ];
        goes = λ k o. f.1 k (claimed-Owns keys mine theirs k o);
        stays = λ k o. inl (o.0, f.2 k o.0 o.1);
        alone = λ k j n o other.
            absurd (cc (f.0 k (claimed-Owns keys mine theirs k o), (v.flown j k other).1));
        waits = λ h w.
            let x = f.4 h (claimed-Waits keys mine theirs h w) in (f.8 v.dated x.0 h x.1, inr x);
        others = λ h x. still_pending h x;
        numbered = f.8 v.dated;
      }
    where
      still_pending : (h : ℕ) → Pending h s.board → Pending h b
      still_pending h (l, inl landed) =
          let f = subst (Fair seen keys s.board) c (claim-Fair seen keys s.board) in
          (omega (arith, f.6), inl (f.7 h l landed))
      still_pending h (l, inr (k, fl)) =
          let f = subst (Fair seen keys s.board) c (claim-Fair seen keys s.board) in
          (omega (arith, f.6), inr (k, f.2 k h fl))

  pub land-IsMove :
      (s : Fleet B) (i : ℕ) (keys mine : List StateKey) (theirs : List ℕ) (q : Place)
      → s.threads i ≡ fetches keys mine theirs
      → ((k : StateKey) → ¬ Owns q k)
      → ((h : ℕ) → Waits q h → In h theirs)
      → IsValid s
      → IsMove s i q (land mine s.board)
  land-IsMove s i keys mine theirs q e now w v =
      let f = land-Ends mine s.board in
      record {
        from = λ k h x. inr (f.1 k h x, λ o. absurd (cc (f.0 k (subst (λ y. Owns y k) e o), x)));
        goes = λ k o. absurd (now k o);
        stays = λ k o. elim (f.2 k o.0 o.1) [
          | inl x ↦ inl (o.0, x)
          | inr x ↦ inr (subst (λ y. Owns y k) (sym e) x.0)
        ];
        alone = λ k j n o. absurd (now k o);
        waits = λ h x. still_pending h (v.waited i h (subst (λ y. Waits y h) (sym e) (w h x)));
        others = still_pending;
        numbered = λ k h x. rw f.4 (v.dated k h (f.1 k h x));
      }
    where
      still_pending : (h : ℕ) → Pending h s.board → Pending h (land mine s.board)
      still_pending h (l, inl landed) =
          let f = land-Ends mine s.board in (rw f.4 l, inl (f.3 h landed))
      still_pending h (l, inr (k, fl)) =
          let f = land-Ends mine s.board in
          (rw f.4 l, elim (f.2 k h fl) [ inl x ↦ inr (k, x) | inr x ↦ inl x.1 ])
