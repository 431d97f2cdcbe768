-- ===== src/Checks/OfSql.antt =====
-- The theorems on the classification of SQL, at concrete texts.
use pgfault.Base.{◌≡◌, ◌≢◌, refl, false, [], ◌∷◌, ◌++◌, arith, nat_eq, string_eq, bytes_eq_instance}
use pgfault.Base.Text.{codes}
use pgfault.Events.{other}
use pgfault.Events.Classify.{classify}
use pgfault.Events.Lexer.{scan, out_of_fuel}
use pgfault.Events.Fuel.{scan-enough}
use pgfault.Events.Several.{classify-several}

scan-enough_example : scan 7 false [] (codes "COMMIT") ≢ out_of_fuel
scan-enough_example = scan-enough 7 false [] (codes "COMMIT") (omega arith)

classify-several_example :
    classify (codes "GO" ++ b';' ∷ (b' ' ∷ [] ++ b'C' ∷ codes "OMMIT")) ≡ other
classify-several_example =
    classify-several (codes "GO") (b' ' ∷ []) b'C' (codes "OMMIT")
      (
        record {
          no_end = refl;
          no_quote = refl;
          no_dollar = refl;
          no_dash = refl;
          no_slash = refl;
        },
        (
          record {
            no_end = refl;
            no_quote = refl;
            no_dollar = refl;
            no_dash = refl;
            no_slash = refl;
          },
          tt,
        ),
      )
      (refl, tt) (record { no_space = refl; no_line = refl; no_block = refl })
