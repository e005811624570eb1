-- ===== src/Http/Digits.antt =====
-- How numbers are printed: `{:x}`, `{:#x}`, `{:064x}` and `{}` of the standard library and of
-- alloy's fixed-size words.
use Prim.Native.Char.{Char}
use Prim.Native.String.{String, ◌∷◌}
use forkyard.Base.{ℕ, zero, suc, ◌/◌, ◌%◌, ltb, if◌then◌else◌}

unfoldable pub nth_char : String → ℕ → Char
nth_char String.[] i = "?"
nth_char (c ∷ s) zero = c
nth_char (c ∷ s) (suc i) = nth_char s i

unfoldable pub digit : ℕ → Char
unfolding nth_char
digit d = nth_char "0123456789abcdef" d

-- The digits of `n` in a base, the last first read; the fuel bounds how many there are.
unfoldable pub digits : ℕ → ℕ → ℕ → String → String
unfolding digit
digits base zero n rest = rest
digits base (suc fuel) n rest =
    let more = digits base fuel (n / base) (digit (n % base) ∷ rest) in
    if ltb n base then digit n ∷ rest else more

-- `{:064x}` and the like: just so many digits, for a number that has no more.
unfoldable pub padded : ℕ → ℕ → String → String
unfolding digit
padded zero n rest = rest
padded (suc width) n rest = padded width (n / 16) (digit (n % 16) ∷ rest)

-- A 256-bit word has at most 64 digits in base 16 and 78 in base 10.
unfoldable pub hex : ℕ → String
hex n = "0" ∷ ("x" ∷ digits 16 64 n "")

unfoldable pub plain : ℕ → String
plain n = digits 10 78 n ""

unfoldable pub word_hex : ℕ → String
word_hex n = "0" ∷ ("x" ∷ padded 64 n "")

unfoldable pub address_hex : ℕ → String
address_hex n = "0" ∷ ("x" ∷ padded 40 n "")
