-- ===== src/State/Ended.antt =====
-- The events that end a transaction, and the conditions of each.
use pgfault.Base.{◌≡◌, ◌≢◌, ◌⊎◌, true, false, String, some, head?}
use pgfault.Events.{StatementClass, commit, rollback, other}
use pgfault.State.{ConnectionState, Cycle, TxState, idle}

-- What a statement of this class and its command tag end, from this state before.
abbrev pub Closes : String → StatementClass → String → TxState → Type 0
Closes name class command before =
    ((name ≡ "transaction.commit.completed") × (class ≡ commit) × (command ≡ "COMMIT"))
    ⊎ (((name ≡ "transaction.rollback.completed") × (class ≡ rollback) × (command ≡ "ROLLBACK"))
        ⊎ ((name ≡ "transaction.implicit.completed")
            × (class ≢ commit)
            × (class ≢ rollback)
            × (class ≢ other)
            × (before ≡ idle)
            × (command ≢ "")))

-- The front cycle had no error, the order of frames is certain, and its last statement ends this.
abbrev pub Ended : String → ConnectionState → Type 0
Ended name s =
    (c : Cycle) × (head? s.cycles ≡ some c)
    × (c.error ≡ false)
    × (s.reliable ≡ true)
    × Closes name c.last.class c.command s.tx_state
