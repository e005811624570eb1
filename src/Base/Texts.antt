-- ===== src/Base/Texts.antt =====
-- Texts as lists of code points, with the functions of `str` that the source calls.
use Prim.Native.Nat.{ℕ, ◌+◌}
use Prim.Native.Char.{code}
use Prim.Native.String.{String}
use mathlib.Core.Bool.{Bool, true, false, ◌&&◌, ◌||◌}
use mathlib.Core.List.{List, [], ◌∷◌, map}
use forkyard.Base.Tests.{leb, ◌==◌, if◌then◌else◌}

abbrev pub codes : String → List ℕ
codes String.[] = []
codes (String.◌∷◌ c s) = code c ∷ codes s

-- `char::to_ascii_lowercase`.
abbrev pub to_lower : ℕ → ℕ
to_lower c = if leb b'A' c && leb c b'Z' then c + 32 else c

unfoldable pub to_ascii_lowercase : List ℕ → List ℕ
to_ascii_lowercase s = map to_lower s

unfoldable pub starts_with : List ℕ → List ℕ → Bool
starts_with s [] = true
starts_with [] (c ∷ p) = false
starts_with (d ∷ s) (c ∷ p) = d == c && starts_with s p

unfoldable pub contains : List ℕ → List ℕ → Bool
unfolding starts_with
contains [] p = starts_with [] p
contains (c ∷ s) p = starts_with (c ∷ s) p || contains s p
