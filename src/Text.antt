-- ===== src/Text.antt =====
-- C strings: the bytes before the NUL. The functions of <ctype.h>, <string.h> and <stdio.h> that
-- the program applies to them, in the C locale (the program never calls `setlocale`).
pub mod Numbers
use Prim.Native.Char.{code}
use application_monitoring.Prelude.{
  ℕ, ltb, Bool-cases, inl, inr, length-append, ◌+◌, ◌-◌, ◌<◌, String, ◌≡◌, ◌↔◌, Bool, true, false,
  ◌&&◌, List, [], ◌∷◌, ◌++◌, map, arith, leb, ◌==◌, if◌then◌else◌, length, take, take_of_le,
  length-take, min,
}

abbrev pub Bytes : Type 0
Bytes = List ℕ

-- The code points of a literal: its bytes, since every literal of the program is ASCII.
abbrev pub codes : String → Bytes
codes String.[] = []
codes (String.◌∷◌ c s) = code c ∷ codes s

-- `tolower` and `toupper` of <ctype.h>.
unfoldable pub tolower : ℕ → ℕ
tolower c = if leb b'A' c && leb c b'Z' then c + 32 else c

unfoldable pub toupper : ℕ → ℕ
toupper c = if leb b'a' c && leb c b'z' then c - 32 else c

-- strcmp(a, b) == 0
unfoldable pub strcmp_eq : Bytes → Bytes → Bool
strcmp_eq [] [] = true
strcmp_eq [] (d ∷ b) = false
strcmp_eq (c ∷ a) [] = false
strcmp_eq (c ∷ a) (d ∷ b) = c == d && strcmp_eq a b

-- strcasecmp(a, b) == 0
unfoldable pub strcasecmp_eq : Bytes → Bytes → Bool
unfolding tolower
strcasecmp_eq [] [] = true
strcasecmp_eq [] (d ∷ b) = false
strcasecmp_eq (c ∷ a) [] = false
strcasecmp_eq (c ∷ a) (d ∷ b) = tolower c == tolower d && strcasecmp_eq a b

-- snprintf(buffer, size, "%s", text): what the buffer then holds.
unfoldable pub copy_bounded : ℕ → Bytes → Bytes
copy_bounded size text = take (size - 1) text

-- text[0] == '\0'
abbrev pub is_empty : Bytes → Bool
is_empty [] = true
is_empty (c ∷ s) = false

pub strcmp_eq_iff : (a b : Bytes) → (strcmp_eq a b ≡ true) ↔ (a ≡ b)
unfolding strcmp_eq
strcmp_eq_iff [] [] = ground arith
strcmp_eq_iff [] (d ∷ b) = ground arith
strcmp_eq_iff (c ∷ a) [] = ground arith
strcmp_eq_iff (c ∷ a) (d ∷ b) = ground (arith, strcmp_eq_iff a b)

-- Equality up to case is equality of the folded texts.
pub strcasecmp_eq_iff : (a b : Bytes) → (strcasecmp_eq a b ≡ true) ↔ (map tolower a ≡ map tolower b)
unfolding strcasecmp_eq
strcasecmp_eq_iff [] [] = ground arith
strcasecmp_eq_iff [] (d ∷ b) = ground arith
strcasecmp_eq_iff (c ∷ a) [] = ground arith
strcasecmp_eq_iff (c ∷ a) (d ∷ b) = ground (arith, strcasecmp_eq_iff a b)

-- A text that fits is copied whole.
pub copy_bounded_of_lt : (size : ℕ) (s : Bytes) → length s < size → copy_bounded size s ≡ s
unfolding copy_bounded
copy_bounded_of_lt size s h = take_of_le (size - 1) s (omega arith)

-- Whatever is copied, there is room for the NUL.
pub copy_bounded-lt : (size : ℕ) (s : Bytes) → 0 < size → length (copy_bounded size s) < size
unfolding copy_bounded
copy_bounded-lt size s h = omega (arith, length-take (size - 1) s)

-- One byte goes to `out` if it fits before the NUL.
abbrev pub put : ℕ → Bytes → ℕ → Bytes
put out_size out c = if ltb (length out + 1) out_size then out ++ c ∷ [] else out

pub put_fits : (n : ℕ) (out : Bytes) (c : ℕ) → length out + 1 < n → put n out c ≡ out ++ c ∷ []
put_fits n out c h = ground (arith, h)

pub put_bounded : (n : ℕ) (out : Bytes) (c : ℕ) → length out < n → length (put n out c) < n
put_bounded n out c h = elim (Bool-cases (ltb (length out + 1) n)) [
  | inl e ↦ rw (put, e) (omega (arith, length-append out (c ∷ []), fits_of e))
  | inr e ↦ rw (put, e) h
]
  where
    fits_of : ltb (length out + 1) n ≡ true → length out + 1 < n
    fits_of e = ground arith

-- The tokens that successive calls of `strtok_r` give: the nonempty parts between the separators.
unfoldable pub tokens : ℕ → Bytes → Bytes → List Bytes
tokens sep current [] = elim current [ [] ↦ [] | c ∷ r ↦ (c ∷ r) ∷ [] ]
tokens sep current (c ∷ s) = elim (c == sep) [
  | true ↦ elim current [ [] ↦ tokens sep [] s | d ∷ r ↦ (d ∷ r) ∷ tokens sep [] s ]
  | false ↦ tokens sep (current ++ c ∷ []) s
]

abbrev pub strtok : ℕ → Bytes → List Bytes
strtok sep text = tokens sep [] text
