-- ===== src/Readers/Words.antt =====
-- The command line of a process as one line of text.
use application_monitoring.Prelude.{
  ℕ, zero, suc, ◌+◌, ◌-◌, ◌<◌, ◌≡◌, ◌≢◌, refl, false, ◌||◌, ◌&&◌, [], ◌∷◌, ◌++◌, Option, none, some,
  ltb, ◌==◌, length, length-append, take, All, All-append, arith, Bool-cases, inl, inr, subst,
}
use application_monitoring.Text.{Bytes, is_empty}
use application_monitoring.Types.{max_cmdline}
use application_monitoring.Readers.{ends_in_blank, cmdline_loop, trimmed, process_read_cmdline}

-- A text that fits its array and has no NUL.
abbrev pub IsText : ℕ → Bytes → Type 0
IsText size out = (length out < size) × All (λ c. c ≢ 0) out

IsText-append :
    (size : ℕ) (out : Bytes) (c : ℕ)
    → IsText size out
    → length out + 1 < size
    → c ≢ 0
    → IsText size (out ++ c ∷ [])
IsText-append size out c (h, k) fits n =
    (omega (arith, fits, length-append out (c ∷ [])), All-append _ out (c ∷ []) k (n, tt))

cmdline_loop-IsText :
    (size : ℕ) (raw out : Bytes) → IsText size out → IsText size (cmdline_loop size raw out)
unfolding cmdline_loop
cmdline_loop-IsText size [] out h = h
cmdline_loop-IsText size (c ∷ raw) out h = elim (Bool-cases (ltb (length out + 1) size)) [
  | inr full ↦ rw (cmdline_loop, full) h
  | inl room ↦
      let fits : length out + 1 < size = ground (arith, room) in
      rw (cmdline_loop, room)
        (cmdline_loop-IsText size raw _ (elim (Bool-cases (c == 0)) [
          | inr other ↦ rw other (IsText-append size out c h fits (ground (arith, other)))
          | inl nul ↦ elim (Bool-cases (is_empty out || ends_in_blank out)) [
            | inl skip ↦ rw (nul, skip) h
            | inr blank ↦ rw (nul, blank) (IsText-append size out b' ' h fits (omega arith))
          ]
        ]))
]

trimmed-IsText : (size : ℕ) (out : Bytes) → IsText size out → IsText size (trimmed out)
unfolding trimmed
trimmed-IsText size [] h = h
trimmed-IsText size (c ∷ out) (h, (n, k)) =
    let (shorter, clean) = trimmed-IsText (size - 1) out (omega (arith, h), k) in
    elim (Bool-cases (c == b' ' && is_empty (trimmed out))) [
      | inl drop ↦ rw (trimmed, drop) (omega (arith, h), tt)
      | inr keep ↦ rw (trimmed, keep) (omega (arith, shorter), (n, clean))
    ]

ends_in_blank-cons :
    (c : ℕ) (out : Bytes)
    → c == b' ' && is_empty out ≡ false
    → ends_in_blank out ≡ false
    → ends_in_blank (c ∷ out) ≡ false
unfolding ends_in_blank
ends_in_blank-cons c [] h k = ground (arith, h)
ends_in_blank-cons c (d ∷ out) h k = k

ends_in_blank-trimmed : (out : Bytes) → ends_in_blank (trimmed out) ≡ false
unfolding trimmed ends_in_blank
ends_in_blank-trimmed [] = refl
ends_in_blank-trimmed (c ∷ out) = elim (Bool-cases (c == b' ' && is_empty (trimmed out))) [
  | inl drop ↦ rw (trimmed, drop) refl
  | inr keep ↦
      rw (trimmed, keep) (ends_in_blank-cons c (trimmed out) keep (ends_in_blank-trimmed out))
]

-- Whatever bytes the kernel gives for a command line, with NULs and blanks anywhere, what is read is a text
-- that fits its array with its NUL, has no NUL inside, and does not end in a blank.
pub process_read_cmdline-IsText :
    (raw : Option Bytes) (size : ℕ) {text : Bytes}
    → process_read_cmdline raw size ≡ some text
    → IsText size text × (ends_in_blank text ≡ false)
unfolding process_read_cmdline
process_read_cmdline-IsText none size e = cc
process_read_cmdline-IsText (some []) size e = cc
process_read_cmdline-IsText (some (c ∷ raw)) zero {text} e = ground (arith, e)
process_read_cmdline-IsText (some (c ∷ raw)) (suc n) {text} e =
    let size = suc n in
    let copied = cmdline_loop size (take (max_cmdline - 1) (c ∷ raw)) [] in
    let same : trimmed copied ≡ text = ground (arith, e) in
    subst (λ t. IsText size t × (ends_in_blank t ≡ false)) same
      (
        trimmed-IsText size copied
            (cmdline_loop-IsText size (take (max_cmdline - 1) (c ∷ raw)) [] (omega arith, tt)),
        ends_in_blank-trimmed copied,
      )
