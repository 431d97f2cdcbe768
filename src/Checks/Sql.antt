-- ===== src/Checks/Sql.antt =====
-- `classify` at the texts of its test in the repository.
use pgfault.Base.{◌≡◌, refl}
use pgfault.Checks.Base.{protocol}
use pgfault.Base.Text.{codes}
use pgfault.Events.{commit, select, other}
use pgfault.Events.Classify.{classify}

classify_comment : classify (codes " /* outer /* nested */ x */ -- hi\nCOMMIT;") ≡ commit
unfolding protocol
classify_comment = refl

classify_quotes : classify (codes "SELECT ';', $$a;b$$;") ≡ select
unfolding protocol
classify_quotes = refl

classify_other :
    (classify (codes "BEGIN; INSERT INTO x VALUES(1); COMMIT") ≡ other)
    × (classify (codes "COMMIT PREPARED 'x'") ≡ other)
    × (classify (codes "ROLLBACK TO SAVEPOINT x") ≡ other)
    × (classify (codes "COMMIT AND CHAIN") ≡ other)
    × (classify (codes "/* unterminated") ≡ other)
unfolding protocol
classify_other = (refl, refl, refl, refl, refl)
