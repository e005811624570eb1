-- ===== src/Engine/Restoring.antt =====
-- crates/engine/src/lib.rs: `Session::restore` of a `Session::state`.
use forkyard.Base.{ℕ, [], ◌≡◌, refl, sym, ap, ◌∙◌, Option, none, some, ℕ_discrete, leb}
use forkyard.Base.Maps.{get, extend}
use forkyard.Base.Sorts.{
  IsDistinct, extend-IsDistinct, or_else, get-extend, get-extend_sort, get-extend_both,
}
use forkyard.Engine.Types.{Codes, slot_discrete}
use forkyard.Engine.Snapshot.{BaseSnapshot}
use forkyard.Engine.Session.{Session, branch}
use forkyard.Engine.Database.{basic, code_by_hash, storage, block_hash}
use forkyard.Engine.Gathering.{gather_code-get, gather_code-IsDistinct}
use forkyard.Engine.State.{leb_slot, own_accounts, own_code, own_storage, state, restore}
use forkyard.Engine.Views.{
  account_view, code_view, slot_view, reply_of, account_reply, code_reply, slot_reply, hash_reply,
  basic_lem, block_hash_lem, code_by_hash_lem, storage_lem,
}

or_else_assoc : {A : Type 0} (a b c : Option A) → or_else (or_else a b) c ≡ or_else a (or_else b c)
or_else_assoc none b c = refl
or_else_assoc (some a) b c = refl

module _ {B E S : Type 0} where
  -- The maps of a session hold each key once.
  pub record IsOwned (s : Session B E S) : Type 0 where
    pub accounts : IsDistinct ℕ_discrete s.overlay_accounts
    pub code : IsDistinct ℕ_discrete s.overlay_code
    pub storage : IsDistinct slot_discrete s.overlay_storage
    pub inherited_accounts : IsDistinct ℕ_discrete s.inherited.accounts
    pub inherited_code : IsDistinct ℕ_discrete s.inherited.code
    pub inherited_storage : IsDistinct slot_discrete s.inherited.storage

  -- The base of a session is the shared base, with what it inherited from its parents over it.
  pub record Rooted (root : BaseSnapshot B) (s : Session B E S) : Type 0 where
    pub accounts :
        (a : ℕ)
        → get ℕ_discrete a s.base.accounts
          ≡ or_else (get ℕ_discrete a s.inherited.accounts) (get ℕ_discrete a root.accounts)
    pub code :
        (h : ℕ)
        → get ℕ_discrete h s.base.code
          ≡ or_else (get ℕ_discrete h s.inherited.code) (get ℕ_discrete h root.code)
    pub storage :
        (a i : ℕ)
        → get slot_discrete (a, i) s.base.storage
          ≡ or_else
              (get slot_discrete (a, i) s.inherited.storage)
              (get slot_discrete (a, i) root.storage)
    pub block_hashes : s.base.block_hashes ≡ root.block_hashes

  pub branch-Rooted :
      (root : BaseSnapshot B) (s : Session B E S)
      → IsOwned s
      → Rooted root s
      → Rooted root (branch s)
  unfolding branch
  branch-Rooted root s o r = record {
    accounts = λ a.
        get-extend ℕ_discrete a s.base.accounts s.overlay_accounts o.accounts
        ∙ ap (or_else (get ℕ_discrete a s.overlay_accounts)) (r.accounts a)
        ∙ sym (or_else_assoc (get ℕ_discrete a s.overlay_accounts) _ _)
        ∙ sym (
            ap (λ x. or_else x (get ℕ_discrete a root.accounts))
              (get-extend ℕ_discrete a s.inherited.accounts s.overlay_accounts o.accounts));
    code = λ h.
        get-extend ℕ_discrete h s.base.code s.overlay_code o.code
        ∙ ap (or_else (get ℕ_discrete h s.overlay_code)) (r.code h)
        ∙ sym (or_else_assoc (get ℕ_discrete h s.overlay_code) _ _)
        ∙ sym (
            ap (λ x. or_else x (get ℕ_discrete h root.code))
              (get-extend ℕ_discrete h s.inherited.code s.overlay_code o.code));
    storage = λ a i.
        get-extend slot_discrete (a, i) s.base.storage s.overlay_storage o.storage
        ∙ ap (or_else (get slot_discrete (a, i) s.overlay_storage)) (r.storage a i)
        ∙ sym (or_else_assoc (get slot_discrete (a, i) s.overlay_storage) _ _)
        ∙ sym (
            ap (λ x. or_else x (get slot_discrete (a, i) root.storage))
              (get-extend slot_discrete (a, i) s.inherited.storage s.overlay_storage o.storage));
    block_hashes = r.block_hashes;
  }

module _ {B E S : Type 0} (root : BaseSnapshot B) (s : Session B E S) (owned : IsOwned s)
    (rooted : Rooted root s) where
  -- The session that `restore` lays the state of this one in, over the shared base.
  abbrev restored : Session B E S
  restored = restore root s.fallback s.block_env (state s)

  restored-account_view : (a : ℕ) → account_view a restored ≡ account_view a s
  unfolding restore state own_accounts
  restored-account_view a =
      ap (λ x. or_else x (get ℕ_discrete a root.accounts))
        (get-extend_sort ℕ_discrete leb a (own_accounts s) (
            extend-IsDistinct ℕ_discrete _ s.overlay_accounts
              (extend-IsDistinct ℕ_discrete [] s.inherited.accounts tt))
          ∙ get-extend_both ℕ_discrete a s.inherited.accounts s.overlay_accounts
              owned.inherited_accounts owned.accounts)
      ∙ or_else_assoc (get ℕ_discrete a s.overlay_accounts) _ _
      ∙ sym (ap (or_else (get ℕ_discrete a s.overlay_accounts)) (rooted.accounts a))

  restored-slot_view : (a i : ℕ) → slot_view a i restored ≡ slot_view a i s
  unfolding restore state own_storage
  restored-slot_view a i =
      ap (λ x. or_else x (get slot_discrete (a, i) root.storage))
        (get-extend_sort slot_discrete leb_slot (a, i) (own_storage s)
            (extend-IsDistinct slot_discrete _ s.overlay_storage
              (extend-IsDistinct slot_discrete [] s.inherited.storage tt))
          ∙ get-extend_both slot_discrete (a, i) s.inherited.storage s.overlay_storage
              owned.inherited_storage owned.storage)
      ∙ or_else_assoc (get slot_discrete (a, i) s.overlay_storage) _ _
      ∙ sym (ap (or_else (get slot_discrete (a, i) s.overlay_storage)) (rooted.storage a i))

  -- A code that the session has itself, from its own overlay or from its parents.
  abbrev pub Own : ℕ → B → Type 0
  Own h c = or_else (get ℕ_discrete h s.overlay_code) (get ℕ_discrete h s.inherited.code) ≡ some c

  restored-code_view : (h : ℕ) (c : B) → Own h c → code_view h restored ≡ some c
  unfolding restore state own_code
  restored-code_view h c own =
      let codes : Codes B =
        extend ℕ_discrete (extend ℕ_discrete [] s.inherited.code) s.overlay_code in
      let distinct =
        extend-IsDistinct ℕ_discrete _ s.overlay_code
          (extend-IsDistinct ℕ_discrete [] s.inherited.code tt) in
      ap (λ x. or_else x (get ℕ_discrete h root.code))
        (get-extend_sort ℕ_discrete leb h (own_code s)
            (gather_code-IsDistinct s.base.code (own_accounts s) codes distinct)
          ∙ gather_code-get s.base.code (own_accounts s) codes h c (
              get-extend_both ℕ_discrete h s.inherited.code s.overlay_code owned.inherited_code
                owned.code
              ∙ own))

  code_view-Own : (h : ℕ) (c : B) → Own h c → code_view h s ≡ some c
  code_view-Own h c own =
      ap (or_else (get ℕ_discrete h s.overlay_code)) (rooted.code h)
      ∙ sym (or_else_assoc (get ℕ_discrete h s.overlay_code) _ _)
      ∙ ap (λ x. or_else x (get ℕ_discrete h root.code)) own

  -- A session that is restored from the state of another, over the same shared base and the same
  -- fallback, gives the same reply to each read of an account, of a slot and of a block hash, and
  -- leaves the fallback in the same state; if the other's maps hold each key once, and its base is the
  -- shared one with what it inherited over it.
  pub restored_reads :
      (a i n : ℕ) (w : S)
      → (reply_of (basic a restored w) ≡ reply_of (basic a s w))
        × (reply_of (storage a i restored w) ≡ reply_of (storage a i s w))
        × (reply_of (block_hash n restored w) ≡ reply_of (block_hash n s w))
  unfolding restore
  restored_reads a i n w = (
    basic_lem a restored w
        ∙ ap (λ x. account_reply x (s.fallback.basic_ref a w) w) (restored-account_view a)
        ∙ sym (basic_lem a s w),
    storage_lem a i restored w
        ∙ ap (λ x. slot_reply x (s.fallback.storage_ref a i w) w) (restored-slot_view a i)
        ∙ sym (storage_lem a i s w),
    block_hash_lem n restored w
        ∙ ap (λ x. hash_reply (get ℕ_discrete n x) (s.fallback.block_hash_ref n w) w)
            (sym rooted.block_hashes)
        ∙ sym (block_hash_lem n s w),
  )

  -- A session that is restored from the state of another, over the same shared base and the same
  -- fallback, gives the same reply to each read of a code that the other has under its hash in its
  -- overlay or from its parents, and leaves the fallback in the same state; if the other's maps hold
  -- each key once, and its base is the shared one with what it inherited over it.
  pub restored_code :
      (h : ℕ) (c : B) (w : S)
      → Own h c
      → reply_of (code_by_hash h restored w) ≡ reply_of (code_by_hash h s w)
  unfolding restore
  restored_code h c w own =
      code_by_hash_lem h restored w
      ∙ ap (λ x. code_reply h x (s.fallback.code_by_hash_ref h w) w)
          (restored-code_view h c own ∙ sym (code_view-Own h c own))
      ∙ sym (code_by_hash_lem h s w)
