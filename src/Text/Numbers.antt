-- ===== src/Text/Numbers.antt =====
-- `strtol` and `strtoul` of <stdlib.h> in base 10, for a 64-bit `long`.
use application_monitoring.Prelude.{
  ℕ, ℤ, pos, negsuc, to_int32, ◌%◌, ◌+◌, ◌-◌, ◌*◌, ◌^◌, Bool, true, false, ◌&&◌, ◌||◌, [], ◌∷◌, ltb,
  leb, ◌==◌, if◌then◌else◌,
}
use application_monitoring.Text.{Bytes}

abbrev pub is_digit : ℕ → Bool
is_digit c = leb b'0' c && leb c b'9'

-- `isspace` of <ctype.h> in the C locale.
abbrev pub isspace : ℕ → Bool
isspace c = c == 32 || (leb 9 c && leb c 13)

skip_spaces : Bytes → Bytes
skip_spaces [] = []
skip_spaces (c ∷ s) = if isspace c then skip_spaces s else c ∷ s

-- The number that the leading digits spell behind `n`, and what follows them.
unfoldable pub read_digits : ℕ → Bytes → ℕ × Bytes
read_digits n [] = (n, [])
read_digits n (c ∷ s) =
    let rest = read_digits (n * 10 + (c - b'0')) s in if is_digit c then rest else (n, c ∷ s)

-- `endptr` points to `rest`; `found` is false where it would point to the start.
pub record Strtol : Type 0 where
  pub value : ℤ
  pub rest : Bytes
  pub found : Bool
  pub erange : Bool

-- What follows the sign.
unfoldable pub strtol_digits : Bool → Bytes → Bytes → Strtol
unfolding read_digits
strtol_digits negative text [] = record {
  value = pos 0;
  rest = text;
  found = false;
  erange = false;
}
strtol_digits negative text (c ∷ s) =
    let (n, rest) = read_digits 0 (c ∷ s) in
    if is_digit c
    then if negative
      then if ltb (2 ^ 63) n
        then record { value = negsuc (2 ^ 63 - 1); rest = rest; found = true; erange = true }
        else record {
          value = if n == 0 then pos 0 else negsuc (n - 1);
          rest = rest;
          found = true;
          erange = false;
        }
      else if ltb (2 ^ 63 - 1) n
      then record { value = pos (2 ^ 63 - 1); rest = rest; found = true; erange = true }
      else record { value = pos n; rest = rest; found = true; erange = false }
    else record { value = pos 0; rest = text; found = false; erange = false }

strtol_sign : Bytes → Bytes → Strtol
unfolding strtol_digits
strtol_sign text [] = strtol_digits false text []
strtol_sign text (c ∷ s) =
    if c == b'-'
    then strtol_digits true text s
    else if c == b'+'
    then strtol_digits false text s
    else strtol_digits false text (c ∷ s)

unfoldable pub strtol : Bytes → Strtol
unfolding skip_spaces strtol_sign
strtol text = strtol_sign text (skip_spaces text)

-- `strtoul` takes a minus sign too, and wraps around.
pub record Strtoul : Type 0 where
  pub value : ℕ
  pub rest : Bytes
  pub found : Bool
  pub erange : Bool

unfoldable pub strtoul_digits : Bool → Bytes → Bytes → Strtoul
unfolding read_digits
strtoul_digits negative text [] = record { value = 0; rest = text; found = false; erange = false }
strtoul_digits negative text (c ∷ s) =
    let (n, rest) = read_digits 0 (c ∷ s) in
    if is_digit c
    then if ltb (2 ^ 64 - 1) n
      then record { value = 2 ^ 64 - 1; rest = rest; found = true; erange = true }
      else record {
        value = if negative then (2 ^ 64 - n) % 2 ^ 64 else n;
        rest = rest;
        found = true;
        erange = false;
      }
    else record { value = 0; rest = text; found = false; erange = false }

strtoul_sign : Bytes → Bytes → Strtoul
unfolding strtoul_digits
strtoul_sign text [] = strtoul_digits false text []
strtoul_sign text (c ∷ s) =
    if c == b'-'
    then strtoul_digits true text s
    else if c == b'+'
    then strtoul_digits false text s
    else strtoul_digits false text (c ∷ s)

unfoldable pub strtoul : Bytes → Strtoul
unfolding skip_spaces strtoul_sign
strtoul text = strtoul_sign text (skip_spaces text)

-- The cast of a `long` to `int`.
abbrev pub cast_int32 : ℤ → ℤ
cast_int32 (pos n) = to_int32 n
cast_int32 (negsuc n) = to_int32 (2 ^ 64 - 1 - n)
