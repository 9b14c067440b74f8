-- ===== src/Double/Milli.antt =====
-- An instance of the interface, for tests: fixed-point numbers, counted in thousandths.
use application_monitoring.Prelude.{ℕ, ◌-◌, ◌*◌, ◌+◌, ◌/◌, refl, false, arith, ltb, leb, pos_part}
use application_monitoring.Double.Base.{Double, IsOrdered}

abbrev pub milli : Double ℕ
milli = record {
  ratio = λ n k. (n * 1000) / k;
  of_ℕ = λ n. n * 1000;
  lt = ltb;
  le = leb;
  add = λ a b. a + b;
  sub = λ a b. a - b;
  mul = λ a b. (a * b) / 1000;
  div = λ a b. (a * 1000) / b;
  to_ℕ = λ a. a / 1000;
  difftime = λ a b. (pos_part a - pos_part b) * 1000;
  is_nan = λ a. false;
}

pub milli-IsOrdered : IsOrdered milli
milli-IsOrdered = record {
  lt_irrefl = λ a. ground arith;
  lt_trans = λ a b c p q. ground arith;
  lt_split = λ a b c h p. ground arith;
  le_iff_not_lt = λ a b h k. ground arith;
  le_trans = λ a b c p q. ground arith;
  le_number = λ a b h. (refl, refl);
  lt_nan = λ a b h. cc;
  nan_lt = λ a b h. cc;
  of_ℕ_number = λ n. refl;
  ratio_number = λ n k. refl;
}
