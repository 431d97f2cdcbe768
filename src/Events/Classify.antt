-- ===== src/Events/Classify.antt =====
-- `classify` and `Statement::new`.
use pgfault.Base.{suc, String, Bytes, false, [], length}
use pgfault.Events.{StatementClass, Statement, class_of, other}
use pgfault.Events.Lexer.{words_of, other_at_once, out_of_fuel, scan}

-- The fuel is a round for each byte and one for the end.
unfoldable pub classify : Bytes → StatementClass
unfolding scan
classify sql = elim (scan (suc (length sql)) false [] sql) [
  | words_of words ↦ class_of words
  | other_at_once ↦ other
  | out_of_fuel ↦ other
]

-- `digest` is the lower-case hexadecimal SHA-256 of the text, a library's.
unfoldable pub new_statement : (Bytes → String) → Bytes → Statement
new_statement digest sql = record { class = classify sql; fingerprint = digest sql }
