-- ===== src/Remote/Buffer.antt =====
-- src/monitoring_remote.c: the buffer that collects the output of a command. `room n` says whether
-- `realloc` gives `n` bytes.
use application_monitoring.Prelude.{
  ℕ, zero, suc, ◌+◌, ◌*◌, ◌%◌, ◌^◌, ◌≤◌, ◌<◌, ◌≡◌, ◌⊎◌, inl, inr, refl, ◌∙◌, ap, sym, subst, Bool,
  true, false, [], ◌++◌, Option, none, some, ltb, ◌==◌, length, length-append, arith, if◌then◌else◌,
  Bool-cases,
}
use application_monitoring.Text.{Bytes}

-- The bytes in front of the final NUL, and the size of the allocation.
pub record NeoDynBuffer : Type 0 where
  pub data_bytes : Bytes
  pub capacity : ℕ

abbrev pub chunk_size : ℕ
chunk_size = 4096

abbrev pub dynbuf_init : NeoDynBuffer
dynbuf_init = record { data_bytes = []; capacity = 0 }

-- while (new_capacity < ...) new_capacity *= 2, on fuel; `none` if that is used up.
unfoldable pub doubled_until : ℕ → ℕ → ℕ → Option ℕ
doubled_until zero new_capacity needed = none
doubled_until (suc rounds) new_capacity needed = elim (ltb new_capacity needed) [
  | true ↦ doubled_until rounds (new_capacity * 2 % 2 ^ 64) needed
  | false ↦ some new_capacity
]

-- if (tmp == NULL) ...
unfoldable pub grown : (ℕ → Bool) → NeoDynBuffer → Bytes → Option ℕ → Option (NeoDynBuffer × Bool)
grown room buf appended none = none
grown room buf appended (some new_capacity) =
    if room new_capacity
    then some (record { data_bytes = appended; capacity = new_capacity }, true)
    else some (buf, false)

-- The buffer, and whether the function returns 0; `none` if the loop has not ended after 64 rounds.
unfoldable pub dynbuf_append : (ℕ → Bool) → NeoDynBuffer → Bytes → Option (NeoDynBuffer × Bool)
dynbuf_append room buf chunk =
    let needed = (length buf.data_bytes + length chunk + 1) % 2 ^ 64 in
    let appended = buf.data_bytes ++ chunk in
    if ltb buf.capacity needed
    then grown room buf appended (
        doubled_until 64 (if buf.capacity == 0 then chunk_size else buf.capacity * 2 % 2 ^ 64)
          needed)
    else some (record buf { data_bytes = appended }, true)

-- A capacity after some doublings.
times_two : ℕ → ℕ → ℕ
times_two zero c = c
times_two (suc n) c = times_two n (c * 2)

times_two_mono : (n a b : ℕ) → a ≤ b → times_two n a ≤ times_two n b
unfolding times_two
times_two_mono zero a b h = h
times_two_mono (suc n) a b h = times_two_mono n (a * 2) (b * 2) (omega (arith, h))

doubled_until-suc :
    (n c needed : ℕ)
    → ltb c needed ≡ true
    → doubled_until (suc n) c needed ≡ doubled_until n (c * 2 % 2 ^ 64) needed
unfolding doubled_until
doubled_until-suc n c needed short = rw (doubled_until, short) refl

doubled_until_enough :
    (n c needed : ℕ)
    → 0 < c
    → needed ≤ 2 ^ 63
    → needed ≤ times_two n c
    → (d : ℕ) × (doubled_until (suc n) c needed ≡ some d) × (needed ≤ d)
unfolding doubled_until times_two
doubled_until_enough zero c needed positive small h =
    let enough : ltb c needed ≡ false = ground (arith, h) in (c, rw (doubled_until, enough) refl, h)
doubled_until_enough (suc n) c needed positive small h = elim (Bool-cases (ltb c needed)) [
  | inr enough ↦ (c, rw (doubled_until, enough) refl, ground (arith, enough))
  | inl short ↦
      let below : c < needed = ground (arith, short) in
      let exact : c * 2 % 2 ^ 64 ≡ c * 2 = omega (arith, below, small) in
      let (d, e, fits) = doubled_until_enough n (c * 2) needed (omega (arith, positive)) small h in
      (
        d,
        doubled_until-suc (suc n) c needed short
            ∙ ap (λ x. doubled_until (suc n) x needed) exact
            ∙ e,
        fits,
      )
]

doublings_suffice : (c needed : ℕ) → 0 < c → needed ≤ 2 ^ 63 → needed ≤ times_two 63 c
unfolding times_two
doublings_suffice c needed positive small =
    let enough : 2 ^ 63 ≤ times_two 63 c = times_two_mono 63 1 c (omega (arith, positive)) in
    omega (arith, small, enough)

-- The text and its NUL fit the allocation, or nothing is allocated yet.
abbrev pub IsValid : NeoDynBuffer → Type 0
IsValid buf = (length buf.data_bytes < buf.capacity) ⊎ ((buf.data_bytes ≡ []) × (buf.capacity ≡ 0))

-- Memory was refused and the buffer stays, or it holds the bytes, and is valid.
abbrev pub Appended : NeoDynBuffer → Bytes → Option (NeoDynBuffer × Bool) → Type 0
Appended buf appended result =
    (result ≡ some (buf, false))
    ⊎ ((capacity : ℕ) × (result
          ≡ some (record { data_bytes = appended; capacity = capacity }, true))
        × (length appended < capacity))

grown-Appended :
    (room : ℕ → Bool) (buf : NeoDynBuffer) (appended : Bytes) (d : ℕ)
    → length appended < d
    → Appended buf appended (grown room buf appended (some d))
unfolding grown
grown-Appended room buf appended d h = elim (Bool-cases (room d)) [
  | inr refused ↦ inl (rw refused refl)
  | inl granted ↦ inr (d, rw granted refl, h)
]

-- Appending to a valid buffer, where the whole is shorter than 2 ^ 63 bytes, comes to an end: within 64
-- rounds the doubling reaches a capacity that is large enough. Either memory was refused, and the buffer is
-- as before; or the chunk stands behind the text, and the allocation has room for it and its NUL.
pub dynbuf_append_total :
    (room : ℕ → Bool) (buf : NeoDynBuffer) (chunk : Bytes)
    → IsValid buf
    → length buf.data_bytes + length chunk < 2 ^ 63
    → Appended buf (buf.data_bytes ++ chunk) (dynbuf_append room buf chunk)
unfolding dynbuf_append
dynbuf_append_total room buf chunk valid small =
    let needed = length buf.data_bytes + length chunk + 1 in
    let exact : needed % 2 ^ 64 ≡ needed = omega (arith, small) in
    let size = length-append buf.data_bytes chunk in
    elim (Bool-cases (ltb buf.capacity needed)) [
      | inr fits ↦ rw (exact, fits) (inr (buf.capacity, refl, ground (arith, fits, size)))
      | inl short ↦
          let start = if buf.capacity == 0 then chunk_size else buf.capacity * 2 % 2 ^ 64 in
          let positive : 0 < start = ground (arith, short, small, valid) in
          let (d, e, enough) =
            doubled_until_enough 63 start needed positive (omega (arith, small))
              (doublings_suffice start needed positive (omega (arith, small))) in
          rw (exact, short)
            (subst
              (λ m.
                Appended buf (buf.data_bytes ++ chunk) (grown room buf (buf.data_bytes ++ chunk) m))
              (sym e)
              (grown-Appended room buf (buf.data_bytes ++ chunk) d (omega (arith, size, enough))))
    ]
