-- ===== src/Readers/Comm.antt =====
-- The name of a process in its line of stat.
use application_monitoring.Prelude.{
  ℕ, ◌-◌, ◌<◌, ◌≡◌, ◌≢◌, refl, sym, ◌∙◌, ap, false, [], ◌∷◌, ◌++◌, none, some, leb, min, length,
  length-append, take-append, All, arith, append_assoc,
}
use application_monitoring.Text.{Bytes}
use application_monitoring.Readers.Stat.{strchr, strrchr, stat_comm}

strchr-append :
    (front rest : Bytes) (c : ℕ)
    → All (λ d. d ≢ c) front
    → strchr (front ++ c ∷ rest) c ≡ some (c ∷ rest)
unfolding strchr
strchr-append [] rest c h = ground arith
strchr-append (d ∷ front) rest c (n, h) = ground (arith, n, strchr-append front rest c h)

strrchr-none : (text : Bytes) (c : ℕ) → All (λ d. d ≢ c) text → strrchr text c ≡ none
unfolding strrchr
strrchr-none [] c h = refl
strrchr-none (d ∷ text) c (n, h) = ground (arith, n, strrchr-none text c h)

strrchr-append :
    (front rest : Bytes) (c : ℕ)
    → All (λ d. d ≢ c) rest
    → strrchr (front ++ c ∷ rest) c ≡ some (c ∷ rest)
unfolding strrchr
strrchr-append [] rest c h = ground (arith, strrchr-none rest c h)
strrchr-append (d ∷ front) rest c h = ground (arith, strrchr-append front rest c h)

-- In the line of a process, its name is found whole between the parentheses, whatever blanks and
-- parentheses stand in the name, and the fields are what follows the last one and its blank; provided that
-- no parenthesis opens in front of the name, that none closes behind it, and that the name has less than
-- 256 bytes.
pub stat_comm_lem :
    (number name fields : Bytes)
    → All (λ d. d ≢ b'(') number
    → All (λ d. d ≢ b')') fields
    → length name < 256
    → stat_comm (number ++ b'(' ∷ (name ++ b')' ∷ (b' ' ∷ fields))) ≡ some (name, fields)
unfolding stat_comm
stat_comm_lem number name fields h k fits =
    let buffer = number ++ b'(' ∷ (name ++ b')' ∷ (b' ' ∷ fields)) in
    let e1 : strchr buffer b'(' ≡ some (b'(' ∷ (name ++ b')' ∷ (b' ' ∷ fields))) =
      strchr-append number (name ++ b')' ∷ (b' ' ∷ fields)) b'(' h in
    let e2 : strrchr buffer b')' ≡ some (b')' ∷ (b' ' ∷ fields)) =
      ap (λ text. strrchr text b')')
        (sym (append_assoc number (b'(' ∷ name) (b')' ∷ (b' ' ∷ fields))))
      ∙ strrchr-append (number ++ b'(' ∷ name) (b' ' ∷ fields) b')' ((λ e. cc), k) in
    let size = length-append name (b')' ∷ (b' ' ∷ fields)) in
    let e3 : leb (length (b'(' ∷ (name ++ b')' ∷ (b' ' ∷ fields))))
          (length (b')' ∷ (b' ' ∷ fields)))
        ≡ false =
      ground (arith, size) in
    let e4 : min
          (length (b'(' ∷ (name ++ b')' ∷ (b' ' ∷ fields))) - length (b')' ∷ (b' ' ∷ fields)) - 1)
          255
        ≡ length name =
      omega (arith, size, fits) in
    rw (stat_comm, e1, e2, e3, e4)
      (ap (λ n. some (n, fields)) (take-append name (b')' ∷ (b' ' ∷ fields))))
