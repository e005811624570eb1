-- ===== src/Http/Lowercase.antt =====
-- crates/api-http/src/lib.rs prints a hash in the letters that `to_lowercase` leaves as they are.
use Prim.Native.Char.{Char}
use Prim.Native.String.{String, ◌∷◌}
use forkyard.Base.{ℕ, zero, suc, ◌/◌, ◌%◌, ◌≡◌, refl, ap}
use forkyard.Http.Digits.{digit, padded, word_hex}
use forkyard.Http.Params.{lower_char, to_lowercase}

lower-digit : (d : ℕ) → lower_char (digit d) ≡ digit d
unfolding lower_char digit
lower-digit zero = refl
lower-digit (suc zero) = refl
lower-digit (suc (suc zero)) = refl
lower-digit (suc (suc (suc zero))) = refl
lower-digit (suc (suc (suc (suc zero)))) = refl
lower-digit (suc (suc (suc (suc (suc zero))))) = refl
lower-digit (suc (suc (suc (suc (suc (suc zero)))))) = refl
lower-digit (suc (suc (suc (suc (suc (suc (suc zero))))))) = refl
lower-digit (suc (suc (suc (suc (suc (suc (suc (suc zero)))))))) = refl
lower-digit (suc (suc (suc (suc (suc (suc (suc (suc (suc zero))))))))) = refl
lower-digit (suc (suc (suc (suc (suc (suc (suc (suc (suc (suc zero)))))))))) = refl
lower-digit (suc (suc (suc (suc (suc (suc (suc (suc (suc (suc (suc zero))))))))))) = refl
lower-digit (suc (suc (suc (suc (suc (suc (suc (suc (suc (suc (suc (suc zero)))))))))))) = refl
lower-digit (suc (suc (suc (suc (suc (suc (suc (suc (suc (suc (suc (suc (suc zero))))))))))))) =
    refl
lower-digit
      (suc (suc (suc (suc (suc (suc (suc (suc (suc (suc (suc (suc (suc (suc zero)))))))))))))) =
    refl
lower-digit
      (suc
        (suc (suc (suc (suc (suc (suc (suc (suc (suc (suc (suc (suc (suc (suc zero))))))))))))))) =
    refl
lower-digit
      (suc (
        suc
          (suc (suc (suc (suc (suc (suc (suc (suc (suc (suc (suc (suc (suc (suc d)))))))))))))))) =
    refl

cons_both : (c d : Char) (s t : String) → c ≡ d → s ≡ t → c ∷ s ≡ d ∷ t
cons_both c d s t p q = λ i. p i ∷ q i

to_lowercase-padded :
    (width n : ℕ) (rest : String)
    → to_lowercase rest ≡ rest
    → to_lowercase (padded width n rest) ≡ padded width n rest
unfolding padded
to_lowercase-padded zero n rest h = h
to_lowercase-padded (suc width) n rest h =
    to_lowercase-padded width (n / 16) (digit (n % 16) ∷ rest) (
      unfold to_lowercase in
      cons_both (lower_char (digit (n % 16))) (digit (n % 16)) (to_lowercase rest) rest
        (lower-digit (n % 16)) h)

pub to_lowercase-word_hex : (n : ℕ) → to_lowercase (word_hex n) ≡ word_hex n
unfolding word_hex to_lowercase
to_lowercase-word_hex n = ap (λ s. "0" ∷ ("x" ∷ s)) (to_lowercase-padded 64 n "" refl)
