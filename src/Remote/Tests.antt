-- ===== src/Remote/Tests.antt =====
-- A row of a remote host, with a quote and a comma in its command line.
use application_monitoring.Prelude.{
  ℕ, pos, ◌≡◌, refl, true, false, List, [], ◌∷◌, some, arith, All, leb_ℤ,
}
use application_monitoring.Text.{Bytes, codes, strtok}
use application_monitoring.Text.Numbers.{strtol}
use application_monitoring.Double.{milli}
use application_monitoring.Processes.{process_list_init}
use application_monitoring.Output.{csv_row}
use application_monitoring.Remote.{
  parse_quoted_field, quoted_loop, csv_process, parse_csv_line, parse_csv_output,
}
use application_monitoring.Remote.Rows.{
  IsField, rows, parse_csv_line-csv_row, parse_csv_output-rows,
}

-- `strtod` is not looked at here.
abbrev zero_number : Bytes → ℕ
zero_number text = 0

cut : parse_quoted_field 3 (codes "\"abc\"") ≡ some (codes "ab", [])
unfolding parse_quoted_field quoted_loop
cut = refl

abbrev numbers : List Bytes
numbers =
    codes "42"
    ∷ codes "1"
    ∷ codes "root"
    ∷ codes "0"
    ∷ codes "S"
    ∷ codes "3"
    ∷ codes "1.0000"
    ∷ codes "2.0000"
    ∷ codes "4.0000"
    ∷ codes "8.0000"
    ∷ codes "0.0000"
    ∷ codes "0.0000"
    ∷ codes "0.0000"
    ∷ codes "0"
    ∷ codes "5.000"
    ∷ []

numbers-IsField : All IsField numbers
numbers-IsField = (
  record { plain = (refl, (refl, tt)); fits = omega arith },
  (
    record { plain = (refl, tt); fits = omega arith },
    (
      record { plain = (refl, (refl, (refl, (refl, tt)))); fits = omega arith },
      (
        record { plain = (refl, tt); fits = omega arith },
        (
          record { plain = (refl, tt); fits = omega arith },
          (
            record { plain = (refl, tt); fits = omega arith },
            (
              record {
                plain = (refl, (refl, (refl, (refl, (refl, (refl, tt))))));
                fits = omega arith;
              },
              (
                record {
                  plain = (refl, (refl, (refl, (refl, (refl, (refl, tt))))));
                  fits = omega arith;
                },
                (
                  record {
                    plain = (refl, (refl, (refl, (refl, (refl, (refl, tt))))));
                    fits = omega arith;
                  },
                  (
                    record {
                      plain = (refl, (refl, (refl, (refl, (refl, (refl, tt))))));
                      fits = omega arith;
                    },
                    (
                      record {
                        plain = (refl, (refl, (refl, (refl, (refl, (refl, tt))))));
                        fits = omega arith;
                      },
                      (
                        record {
                          plain = (refl, (refl, (refl, (refl, (refl, (refl, tt))))));
                          fits = omega arith;
                        },
                        (
                          record {
                            plain = (refl, (refl, (refl, (refl, (refl, (refl, tt))))));
                            fits = omega arith;
                          },
                          (
                            record { plain = (refl, tt); fits = omega arith },
                            (
                              record {
                                plain = (refl, (refl, (refl, (refl, (refl, tt)))));
                                fits = omega arith;
                              },
                              tt,
                            ),
                          ),
                        ),
                      ),
                    ),
                  ),
                ),
              ),
            ),
          ),
        ),
      ),
    ),
  ),
)

is_positive :
    leb_ℤ (csv_process milli zero_number numbers (codes "sh") (codes "sh -c \"a, b\"")).pid (pos 0)
    ≡ false
unfolding csv_process strtol
is_positive = refl

parse_csv_line-csv_row_example :
    parse_csv_line milli zero_number (csv_row numbers (codes "sh") (codes "sh -c \"a, b\""))
    ≡ some (csv_process milli zero_number numbers (codes "sh") (codes "sh -c \"a, b\""))
parse_csv_line-csv_row_example =
    parse_csv_line-csv_row milli zero_number numbers (codes "sh") (codes "sh -c \"a, b\"") refl
      numbers-IsField (omega arith) (omega arith) is_positive

abbrev session : Bytes
session = codes "Welcome\n42,1,root,0,S,3,1,2,4,8,0,0,0,0,5,\"sh\",\"sh\"\r\n$ exit"

parse_csv_output-rows_example :
    let r = parse_csv_output milli zero_number true (λ n. true) process_list_init session in
    (r.1 ≡ true) × (r.0.items ≡ rows milli zero_number (strtok b'\n' session))
parse_csv_output-rows_example =
    parse_csv_output-rows milli zero_number (λ n. true) (λ n. refl) process_list_init session
