-- ===== src/Loadgen.antt =====
-- crates/loadgen/src/main.rs: how the error of a record is cut and written to the CSV file.
use forkyard.Base.{
  ℕ, zero, suc, List, [], ◌∷◌, ◌++◌, Bool, true, false, not, ◌||◌, ◌==◌, if◌then◌else◌, ◌≡◌, refl,
  ap, ◌∙◌, sym, ◌⊎◌, inl, inr, Bool-cases, ==_iff, arith,
}
use mathlib.Core.List.{append_assoc, append-nil}

abbrev pub max_error_chars : ℕ
max_error_chars = 200

abbrev pub take : {A : Type 0} → ℕ → List A → List A
take zero xs = []
take (suc n) [] = []
take (suc n) (x ∷ xs) = x ∷ take n xs

-- An error as its characters.
unfoldable pub truncate : List ℕ → List ℕ
truncate error = take max_error_chars error

-- A comma, a quote or the end of a line.
abbrev pub is_special : ℕ → Bool
is_special c = c == 44 || c == 34 || c == 10

unfoldable pub any_special : List ℕ → Bool
any_special [] = false
any_special (c ∷ s) = is_special c || any_special s

-- `replace('"', "\"\"")`.
unfoldable pub doubled : List ℕ → List ℕ
doubled [] = []
doubled (c ∷ s) = if c == 34 then 34 ∷ (34 ∷ doubled s) else c ∷ doubled s

unfoldable pub csv_field : List ℕ → List ℕ
unfolding any_special doubled
csv_field s = if any_special s then 34 ∷ (doubled s ++ 34 ∷ []) else s

-- Reading one field of a CSV file, as RFC 4180 describes fields: up to the next separator, or between
-- quotes, where two quotes stand for one. The flag is cleared where a quote was met. A bare field has
-- no carriage return in it.
unfoldable pub quoted : Bool → List ℕ → List ℕ → List ℕ × List ℕ
quoted inside read [] = (read, [])
quoted true read (c ∷ s) = quoted (not (c == 34)) (if c == 34 then read else read ++ c ∷ []) s
quoted false read (c ∷ s) =
    let more = quoted true (read ++ c ∷ []) s in if c == 34 then more else (read, c ∷ s)

abbrev pub ends : ℕ → Bool
ends c = c == 44 || c == 10 || c == 13

unfoldable pub bare : List ℕ → List ℕ → List ℕ × List ℕ
bare read [] = (read, [])
bare read (c ∷ s) = let more = bare (read ++ c ∷ []) s in if ends c then (read, c ∷ s) else more

unfoldable pub read_field : List ℕ → List ℕ × List ℕ
unfolding quoted bare
read_field [] = ([], [])
read_field (c ∷ s) = if c == 34 then quoted true [] s else bare [] (c ∷ s)

abbrev pub IsSeparator : ℕ → Type 0
IsSeparator c = (c ≡ 44) ⊎ (c ≡ 10)

-- A field with a carriage return in it.
unfoldable pub returns : List ℕ → Bool
returns [] = false
returns (c ∷ s) = c == 13 || returns s

quoted-doubled :
    (read s : List ℕ) (c : ℕ) (rest : List ℕ)
    → IsSeparator c
    → quoted true read (doubled s ++ 34 ∷ (c ∷ rest)) ≡ (read ++ s, c ∷ rest)
unfolding quoted doubled
quoted-doubled read [] c rest (inl e) = rw (e, append-nil) refl
quoted-doubled read [] c rest (inr e) = rw (e, append-nil) refl
quoted-doubled read (d ∷ s) c rest sep = elim (Bool-cases (d == 34)) [
  | inl quote ↦
      let same : d ≡ 34 = (==_iff d 34).0 quote in
      rw quote (
        quoted-doubled (read ++ 34 ∷ []) s c rest sep
        ∙ ap (λ x. (x, c ∷ rest)) (append_assoc read (34 ∷ []) s)
        ∙ ap (λ (x : ℕ). (read ++ x ∷ s, c ∷ rest)) (sym same))
  | inr other ↦ rw other (
      rw (other, quoted)
        (quoted-doubled (read ++ d ∷ []) s c rest sep
          ∙ ap (λ x. (x, c ∷ rest)) (append_assoc read (d ∷ []) s)))
]

bare-plain :
    (read s : List ℕ) (c : ℕ) (rest : List ℕ)
    → IsSeparator c
    → any_special s ≡ false
    → returns s ≡ false
    → bare read (s ++ c ∷ rest) ≡ (read ++ s, c ∷ rest)
unfolding bare any_special returns
bare-plain read [] c rest (inl e) h k = rw (e, append-nil) refl
bare-plain read [] c rest (inr e) h k = rw (e, append-nil) refl
bare-plain read (d ∷ s) c rest sep h k = elim (Bool-cases (ends d)) [
  | inl ends ↦ absurd (ground arith)
  | inr goes ↦ rw goes (
      bare-plain (read ++ d ∷ []) s c rest sep (ground arith) (ground arith)
      ∙ ap (λ x. (x, c ∷ rest)) (append_assoc read (d ∷ []) s))
]

-- A field that is not quoted does not start with a quote.
unquoted :
    (s : List ℕ) (c : ℕ) (rest : List ℕ)
    → IsSeparator c
    → any_special s ≡ false
    → read_field (s ++ c ∷ rest) ≡ bare [] (s ++ c ∷ rest)
unfolding read_field any_special
unquoted [] c rest (inl e) h = rw e refl
unquoted [] c rest (inr e) h = rw e refl
unquoted (d ∷ s) c rest sep h = elim (Bool-cases (d == 34)) [
  | inl quote ↦ absurd (ground arith)
  | inr other ↦ rw other refl
]

-- A field that has no carriage return, or has a comma, a quote or the end of a line, is read back as it
-- was where it is written before a comma or the end of a line, with the rest of the file behind it.
pub read_field-csv_field :
    (s : List ℕ) (c : ℕ) (rest : List ℕ)
    → IsSeparator c
    → (returns s ≡ false) ⊎ (any_special s ≡ true)
    → read_field (csv_field s ++ c ∷ rest) ≡ (s, c ∷ rest)
unfolding csv_field
read_field-csv_field s c rest sep fits = elim (Bool-cases (any_special s)) [
  | inl special ↦ rw special (
      unfold read_field in
      (ap (quoted true []) (append_assoc (doubled s) (34 ∷ []) (c ∷ rest))
        ∙ quoted-doubled [] s c rest sep))
  | inr plain ↦
      let flat : returns s ≡ false = ground arith in
      rw plain (unquoted s c rest sep plain ∙ bare-plain [] s c rest sep plain flat)
]
