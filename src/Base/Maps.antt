-- ===== src/Base/Maps.antt =====
-- Finite maps as association lists: `HashMap`, `imbl::HashMap` and `DashMap` as the source uses
-- them. A new key goes to the end, so an insertion that is undone leaves the list as it was.
use mathlib.Core.Path.{◌≡◌, refl}
use mathlib.Core.Logic.{◌≢◌, ite, ◌⊎◌}
use mathlib.Core.Option.{Option, none, some}
use mathlib.Core.List.{List, [], ◌∷◌, ◌++◌}
use native.Mathlib.Omega.{arith}

module _ {K V : Type 0} (dec : Discrete K) where
  unfoldable pub get : K → List (K × V) → Option V
  get k [] = none
  get k ((j, v) ∷ m) = ite (dec j k) (some v) (get k m)

  unfoldable pub insert : K → V → List (K × V) → List (K × V)
  insert k v [] = (k, v) ∷ []
  insert k v ((j, w) ∷ m) = ite (dec j k) ((k, v) ∷ m) ((j, w) ∷ insert k v m)

  unfoldable pub remove : K → List (K × V) → List (K × V)
  remove k [] = []
  remove k ((j, w) ∷ m) = ite (dec j k) (remove k m) ((j, w) ∷ remove k m)

  -- `extend`: the later entries win.
  unfoldable pub extend : List (K × V) → List (K × V) → List (K × V)
  extend m [] = m
  extend m ((k, v) ∷ n) = extend (insert k v m) n

  pub get-insert :
      (k j : K) (v : V) (m : List (K × V)) → get j (insert k v m) ≡ ite (dec k j) (some v) (get j m)
  unfolding get insert
  get-insert k j v [] = refl
  get-insert k j v ((i, w) ∷ m) = ground (arith, get-insert k j v m)

  pub get-remove : (k j : K) (m : List (K × V)) → get j (remove k m) ≡ ite (dec k j) none (get j m)
  unfolding get remove
  get-remove k j [] = ground arith
  get-remove k j ((i, w) ∷ m) = ground (arith, get-remove k j m)

  pub remove_fresh : (k : K) (m : List (K × V)) → get k m ≡ none → remove k m ≡ m
  unfolding get remove
  remove_fresh k [] h = refl
  remove_fresh k ((i, w) ∷ m) h = ground (arith, remove_fresh k m)

  pub remove-insert_fresh :
      (k : K) (v : V) (m : List (K × V)) → get k m ≡ none → remove k (insert k v m) ≡ m
  unfolding get remove insert
  remove-insert_fresh k v [] h = ground arith
  remove-insert_fresh k v ((i, w) ∷ m) h = ground (arith, remove-insert_fresh k v m)

  pub remove-insert_ne :
      (j k : K) (v : V) (m : List (K × V))
      → j ≢ k
      → remove j (insert k v m) ≡ insert k v (remove j m)
  unfolding remove insert
  remove-insert_ne j k v [] h = ground arith
  remove-insert_ne j k v ((i, w) ∷ m) h = ground (arith, remove-insert_ne j k v m)

  -- The entry of the later list, or else of the earlier one.
  pub get-extend_fresh :
      (k : K) (m n : List (K × V)) → get k n ≡ none → get k (extend m n) ≡ get k m
  unfolding get extend
  get-extend_fresh k m [] h = refl
  get-extend_fresh k m ((j, v) ∷ n) h =
      ground (arith, get-extend_fresh k (insert j v m) n, get-insert j k v m)

  pub remove_comm : (k j : K) (m : List (K × V)) → remove k (remove j m) ≡ remove j (remove k m)
  unfolding remove
  remove_comm k j [] = refl
  remove_comm k j ((i, w) ∷ m) = ground (arith, remove_comm k j m)

  pub get-insert_self : (k : K) (v : V) (m : List (K × V)) → get k (insert k v m) ≡ some v
  get-insert_self k v m = ground (arith, get-insert k k v m)

  pub get-insert_ne : (k j : K) (v : V) (m : List (K × V)) → j ≢ k → get j (insert k v m) ≡ get j m
  get-insert_ne k j v m h = ground (arith, get-insert k j v m)

  pub get-remove_self : (k : K) (m : List (K × V)) → get k (remove k m) ≡ none
  get-remove_self k m = ground (arith, get-remove k k m)

  pub get-remove_ne : (k j : K) (m : List (K × V)) → j ≢ k → get j (remove k m) ≡ get j m
  get-remove_ne k j m h = ground (arith, get-remove k j m)

  -- Two lists of entries that share no key.
  abbrev pub Apart : List (K × V) → List (K × V) → Type 0
  Apart m n = (j : K) → (get j m ≡ none) ⊎ (get j n ≡ none)

  pub insert_fresh :
      (k : K) (v : V) (m : List (K × V)) → get k m ≡ none → insert k v m ≡ m ++ (k, v) ∷ []
  unfolding get insert
  insert_fresh k v [] h = refl
  insert_fresh k v ((i, w) ∷ m) h = ground (arith, insert_fresh k v m)
