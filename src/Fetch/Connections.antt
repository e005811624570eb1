-- ===== src/Fetch/Connections.antt =====
-- crates/fetch/src/lib.rs: the one upstream client of a URL in this process, and the cap on what is in
-- flight over it.
use Prim.Native.String.{String}
use forkyard.Base.{
  ℕ, ◌+◌, List, [], ◌∷◌, Option, none, some, Result, ok, err, ltb, if◌then◌else◌, ◌≡◌, ◌≢◌, refl,
  sym, ap, ◌∙◌, Option-cases, ok_inj, err_ok, inl, inr,
}
use forkyard.Base.Maps.{get, insert, get-insert_self, get-insert_ne}

abbrev pub default_upstream_max_in_flight : ℕ
default_upstream_max_in_flight = 256

-- A client, by a number of its own, and the permits that its semaphore starts with.
pub record Upstream : Type 0 where
  pub client : ℕ
  pub in_flight : ℕ

-- The statics `UPSTREAMS` and `MAX_IN_FLIGHT`, and the clients that a task keeps alive.
pub record Process (Url : Type 0) : Type 0 where
  pub fresh : ℕ
  pub upstreams : List (Url × Upstream)
  pub max_in_flight : ℕ
  pub keepalives : List ℕ

abbrev pub started : {Url : Type 0} → Process Url
started = record {
  fresh = 0;
  upstreams = [];
  max_in_flight = default_upstream_max_in_flight;
  keepalives = [];
}

unfoldable pub set_upstream_max_in_flight : {Url : Type 0} → ℕ → Process Url → Process Url
set_upstream_max_in_flight max p = record p { max_in_flight = if ltb max 1 then 1 else max }

-- What a process does with this in any order: it sets the cap, or asks for the client of a URL.
pub data Call (Url : Type 0) : Type 0 where
  sets_max : ℕ → Call Url
  asks : Url → Call Url

none-some : {A : Type 0} {a : A} → ◌≡◌ {A = Option A} none (some a) → ⊥
none-some h = cc

-- `parse` is the URL's parser.
module _ {Url : Type 0} (dec : Discrete Url) (parse : Url → Result String (Unit {0})) where
  -- The lock of `UPSTREAMS` is held throughout, so a call is one step.
  unfoldable pub dialed :
      Url → Result String (Unit {0}) → Process Url → Result String Upstream × Process Url
  dialed url (err e) p = (err e, p)
  dialed url (ok done) p =
      let upstream : Upstream = record { client = p.fresh; in_flight = p.max_in_flight } in
      (
        ok upstream,
        record {
          fresh = p.fresh + 1;
          upstreams = insert dec url upstream p.upstreams;
          max_in_flight = p.max_in_flight;
          keepalives = p.fresh ∷ p.keepalives;
        },
      )

  unfoldable pub shared_upstream : Url → Process Url → Result String Upstream × Process Url
  unfolding dialed
  shared_upstream url p = elim (get dec url p.upstreams) [
    | some upstream ↦ (ok upstream, p)
    | none ↦ dialed url (parse url) p
  ]

  unfoldable pub after : List (Call Url) → Process Url → Process Url
  unfolding set_upstream_max_in_flight shared_upstream
  after [] p = p
  after (sets_max max ∷ calls) p = after calls (set_upstream_max_in_flight max p)
  after (asks url ∷ calls) p = after calls (shared_upstream url p).1

  abbrev Holds : Url → Upstream → Process Url → Type 0
  Holds url upstream p = get dec url p.upstreams ≡ some upstream

  Holds-answered :
      (url : Url) (upstream : Upstream) (p : Process Url)
      → Holds url upstream p
      → shared_upstream url p ≡ (ok upstream, p)
  unfolding shared_upstream
  Holds-answered url upstream p h = rw (h, shared_upstream) refl

  new-dialed :
      (url : Url) (p : Process Url)
      → get dec url p.upstreams ≡ none
      → shared_upstream url p ≡ dialed url (parse url) p
  unfolding shared_upstream
  new-dialed url p h = rw (h, shared_upstream) refl

  dialed-Holds :
      (url : Url) (r : Result String (Unit {0})) (upstream : Upstream) (p p' : Process Url)
      → dialed url r p ≡ (ok upstream, p')
      → Holds url upstream p'
  unfolding dialed
  dialed-Holds url (err e) upstream p p' h = absurd (err_ok (ap (λ x. x.0) h))
  dialed-Holds url (ok done) upstream p p' h =
      let same = ok_inj _ upstream (ap (λ x. x.0) h) in
      sym (ap (λ (x : Result String Upstream × Process Url). get dec url x.1.upstreams) h)
      ∙ get-insert_self dec url _ p.upstreams
      ∙ ap some same

  shared_upstream-Holds :
      (url : Url) (upstream : Upstream) (p p' : Process Url)
      → shared_upstream url p ≡ (ok upstream, p')
      → Holds url upstream p'
  shared_upstream-Holds url upstream p p' h = elim (Option-cases (get dec url p.upstreams)) [
    | inl new ↦ dialed-Holds url (parse url) upstream p p' (sym (new-dialed url p new) ∙ h)
    | inr (old, there) ↦
        let e : (ok old, p) ≡ (ok upstream, p') = sym (Holds-answered url old p there) ∙ h in
        sym (ap (λ (x : Result String Upstream × Process Url). get dec url x.1.upstreams) e)
        ∙ there
        ∙ ap some (ok_inj old upstream (ap (λ x. x.0) e))
  ]

  dialed-keeps :
      (url asked : Url) (r : Result String (Unit {0})) (upstream : Upstream) (p : Process Url)
      → get dec asked p.upstreams ≡ none
      → Holds url upstream p
      → Holds url upstream (dialed asked r p).1
  unfolding dialed
  dialed-keeps url asked (err e) upstream p new h = h
  dialed-keeps url asked (ok done) upstream p new h =
      let other : url ≢ asked =
        λ e. none-some (sym new ∙ ap (λ k. get dec k p.upstreams) (sym e) ∙ h) in
      get-insert_ne dec asked url _ p.upstreams other ∙ h

  shared_upstream-keeps :
      (url asked : Url) (upstream : Upstream) (p : Process Url)
      → Holds url upstream p
      → Holds url upstream (shared_upstream asked p).1
  shared_upstream-keeps url asked upstream p h = elim (Option-cases (get dec asked p.upstreams)) [
    | inl new ↦ rw (new-dialed asked p new) (dialed-keeps url asked (parse asked) upstream p new h)
    | inr (old, there) ↦ rw (Holds-answered asked old p there) h
  ]

  after-keeps :
      (calls : List (Call Url)) (url : Url) (upstream : Upstream) (p : Process Url)
      → Holds url upstream p
      → Holds url upstream (after calls p)
  unfolding after set_upstream_max_in_flight
  after-keeps [] url upstream p h = h
  after-keeps (sets_max max ∷ calls) url upstream p h =
      after-keeps calls url upstream (set_upstream_max_in_flight max p) h
  after-keeps (asks asked ∷ calls) url upstream p h =
      after-keeps calls url upstream _ (shared_upstream-keeps url asked upstream p h)

  -- After a first answer for a URL, whatever caps are set and clients are asked for afterwards: the
  -- URL is answered with the same client and the same cap again, and no connection is opened for it.
  pub one_connection :
      (url : Url) (upstream : Upstream) (p p' : Process Url) (calls : List (Call Url))
      → shared_upstream url p ≡ (ok upstream, p')
      → shared_upstream url (after calls p') ≡ (ok upstream, after calls p')
  one_connection url upstream p p' calls h =
      Holds-answered url upstream (after calls p')
        (after-keeps calls url upstream p' (shared_upstream-Holds url upstream p p' h))
