-- ===== src/Base/Sorts.antt =====
-- `sort_by_key` on the entries of a map, as an insertion sort by a Boolean order on the keys.
use mathlib.Core.Path.{◌≡◌, refl, sym, ap, ◌∙◌}
use mathlib.Core.Logic.{ite, inl}
use mathlib.Core.Bool.{Bool}
use mathlib.Core.Option.{Option, none, some}
use mathlib.Core.List.{List, [], ◌∷◌, ◌++◌, append-nil, append_assoc}
use native.Mathlib.Omega.{arith}
use forkyard.Base.Tests.{if◌then◌else◌}
use forkyard.Base.Maps.{get, insert, extend, get-insert, Apart, insert_fresh}

-- `or_else` of an option.
abbrev pub or_else : {A : Type 0} → Option A → Option A → Option A
or_else none b = b
or_else (some a) b = some a

pub or_else-none : {A : Type 0} (a : Option A) → or_else a none ≡ a
or_else-none none = refl
or_else-none (some a) = refl

module _ {K V : Type 0} (leq : K → K → Bool) where
  unfoldable pub insert_by : K × V → List (K × V) → List (K × V)
  insert_by x [] = x ∷ []
  insert_by x (y ∷ ys) = if leq x.0 y.0 then x ∷ y ∷ ys else y ∷ insert_by x ys

  unfoldable pub sort_by_key : List (K × V) → List (K × V)
  unfolding insert_by
  sort_by_key [] = []
  sort_by_key (x ∷ xs) = insert_by x (sort_by_key xs)

module _ {K V : Type 0} (dec : Discrete K) where
  -- No key stands twice.
  abbrev pub IsDistinct : List (K × V) → Type 0
  IsDistinct [] = Unit
  IsDistinct ((k, v) ∷ m) = (get dec k m ≡ none) × IsDistinct m

  pub insert-IsDistinct :
      (k : K) (v : V) (m : List (K × V)) → IsDistinct m → IsDistinct (insert dec k v m)
  unfolding insert get
  insert-IsDistinct k v [] h = (refl, tt)
  insert-IsDistinct k v ((j, w) ∷ m) h =
      ground (arith, insert-IsDistinct k v m h.1, get-insert dec k j v m)

  pub extend-IsDistinct : (m n : List (K × V)) → IsDistinct m → IsDistinct (extend dec m n)
  unfolding extend
  extend-IsDistinct m [] h = h
  extend-IsDistinct m ((k, v) ∷ n) h =
      extend-IsDistinct (insert dec k v m) n (insert-IsDistinct k v m h)

  module _ (leq : K → K → Bool) where
    get-insert_by :
        (k j : K) (v : V) (m : List (K × V))
        → get dec j m ≡ none
        → get dec k (insert_by leq (j, v) m) ≡ ite (dec j k) (some v) (get dec k m)
    unfolding get insert_by
    get-insert_by k j v [] h = refl
    get-insert_by k j v ((i, w) ∷ m) h = ground (arith, get-insert_by k j v m)

    pub get-sort_by_key :
        (k : K) (m : List (K × V)) → IsDistinct m → get dec k (sort_by_key leq m) ≡ get dec k m
    unfolding get sort_by_key
    get-sort_by_key k [] h = refl
    get-sort_by_key k ((j, v) ∷ m) h = ground (
      arith,
      get-insert_by k j v (sort_by_key leq m),
      get-sort_by_key k m h.1,
      get-sort_by_key j m h.1,
    )

    insert_by-IsDistinct :
        (k : K) (v : V) (m : List (K × V))
        → get dec k m ≡ none
        → IsDistinct m
        → IsDistinct (insert_by leq (k, v) m)
    unfolding get insert_by
    insert_by-IsDistinct k v [] f d = (refl, tt)
    insert_by-IsDistinct k v ((i, w) ∷ m) f d =
        ground (arith, insert_by-IsDistinct k v m, get-insert_by i k v m, d.0, d.1)

    pub sort_by_key-IsDistinct : (m : List (K × V)) → IsDistinct m → IsDistinct (sort_by_key leq m)
    unfolding sort_by_key
    sort_by_key-IsDistinct [] d = tt
    sort_by_key-IsDistinct ((k, v) ∷ m) d =
        insert_by-IsDistinct k v (sort_by_key leq m) (get-sort_by_key k m d.1 ∙ d.0)
          (sort_by_key-IsDistinct m d.1)

  extend_disjoint : (m n : List (K × V)) → IsDistinct n → Apart dec m n → extend dec m n ≡ m ++ n
  unfolding get extend
  extend_disjoint m [] d apart = sym (append-nil m)
  extend_disjoint m ((k, v) ∷ n) d apart =
      extend_disjoint (insert dec k v m) n d.1
        (λ j. ground (arith, apart j, get-insert dec k j v m, d.0))
      ∙ ap (λ l. l ++ n) (insert_fresh dec k v m (ground (arith, apart k)))
      ∙ append_assoc m ((k, v) ∷ []) n

  -- Entries with distinct keys, collected, are as they were.
  pub extend_nil : (m : List (K × V)) → IsDistinct m → extend dec [] m ≡ m
  unfolding get
  extend_nil m d = extend_disjoint [] m d (λ j. inl refl)

  -- The later entries win, and the earlier ones stand where there is none.
  pub get-extend :
      (k : K) (m n : List (K × V))
      → IsDistinct n
      → get dec k (extend dec m n) ≡ or_else (get dec k n) (get dec k m)
  unfolding get extend
  get-extend k m [] d = refl
  get-extend k m ((j, v) ∷ n) d =
      ground (arith, get-extend k (insert dec j v m) n d.1, get-insert dec j k v m, d.0)

  -- Sorted and collected again, a map answers as it did.
  pub get-extend_sort :
      (leq : K → K → Bool) (k : K) (m : List (K × V))
      → IsDistinct m
      → get dec k (extend dec [] (sort_by_key leq m)) ≡ get dec k m
  unfolding get
  get-extend_sort leq k m d =
      get-extend k [] (sort_by_key leq m) (sort_by_key-IsDistinct leq m d)
      ∙ or_else-none (get dec k (sort_by_key leq m))
      ∙ get-sort_by_key leq k m d

  -- One map over another, collected from nothing.
  pub get-extend_both :
      (k : K) (m n : List (K × V))
      → IsDistinct m
      → IsDistinct n
      → get dec k (extend dec (extend dec [] m) n) ≡ or_else (get dec k n) (get dec k m)
  unfolding get
  get-extend_both k m n dm dn =
      get-extend k (extend dec [] m) n dn
      ∙ ap (or_else (get dec k n)) (get-extend k [] m dm ∙ or_else-none (get dec k m))
