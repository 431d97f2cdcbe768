-- ===== src/State/Backend.antt =====
-- `ConnectionState::completion_boundary` and `ConnectionState::backend`: a frame of the server.
use pgfault.Base.{
  ℕ, if◌then◌else◌, ◌==◌, Bool, true, false, not, ◌&&◌, ◌||◌, String, Option, none, some, List, [],
  ◌∷◌, ◌++◌, Bytes, head?, is_empty, tail, update_front, str_eq, bytes_eq,
}
use pgfault.Base.{bytes_eq_instance}
use pgfault.Base.Dict.{insert, remove}
use pgfault.Base.Text.{codes, from_utf8_lossy}
use pgfault.Base.Word.{u64_succ}
use pgfault.Wire.{Frame, tag, body, cstr, text}
use pgfault.Events.{StatementClass, begin, commit, rollback, other, Event}
use pgfault.State.{
  ConnectionState, Cycle, Mutation, parse, bind, close, TxState, idle, in_transaction,
  failed_transaction, on_front, is_idle, is_failed, or_statement, emit,
}

abbrev pub when : Bool → String → Option String
when b name = if b then some name else none

-- The completion that a command tag announces, for a statement of this class.
unfoldable pub boundary : StatementClass → String → Bool → Option String
boundary commit command idle_now = when (str_eq command "COMMIT") "transaction.commit.completed"
boundary rollback command idle_now =
    when (str_eq command "ROLLBACK") "transaction.rollback.completed"
boundary begin command idle_now = none
boundary other command idle_now = none
boundary _ command idle_now = when idle_now "transaction.implicit.completed"

unfoldable pub completion_boundary : Frame → ConnectionState → Option String
unfolding boundary
completion_boundary f s =
    if not (tag f == b'C') || not s.reliable then none else elim (head? s.cycles) [
      | none ↦ none
      | some c ↦ elim (text (body f)) [
        | none ↦ none
        | some command ↦
            boundary (or_statement (head? c.statements) c.last).class command (is_idle s.tx_state)
      ]
    ]

-- `S`: the server reports a parameter.
unfoldable pub on_parameter : Bytes → ConnectionState → ConnectionState
on_parameter bs s = elim (cstr bs) [
  | none ↦ s
  | some (key, rest) ↦ elim (bytes_eq key (codes "application_name")) [
    | false ↦ s
    | true ↦ elim (cstr rest) [
      | none ↦ s
      | some (value, _) ↦
          let m = s.startup in
          record s { startup = record m { application_name = some (from_utf8_lossy value) } }
    ]
  ]
]

abbrev pub unreliable : ConnectionState → ConnectionState
unreliable s = record s { reliable = false }

-- What the reply of this tag does with the mutation that was waiting for one.
unfoldable pub confirm : ℕ → Option Mutation → ConnectionState → ConnectionState
confirm t none s = unreliable s
confirm t (some (parse name st)) s =
    if t == b'1'
    then record s { confirmed_prepared = insert name st s.confirmed_prepared }
    else unreliable s
confirm t (some (bind name st)) s =
    if t == b'2'
    then record s { confirmed_portals = insert name st s.confirmed_portals }
    else unreliable s
confirm t (some (close kind name)) s =
    if t == b'3'
    then (if kind == b'S'
        then record s { confirmed_prepared = remove name s.confirmed_prepared }
        else record s { confirmed_portals = remove name s.confirmed_portals })
    else unreliable s

abbrev pub first_mutation : Option Cycle → Option Mutation
first_mutation none = none
first_mutation (some c) = head? c.mutations

-- `1`, `2` and `3`
unfoldable pub on_reply : ℕ → ConnectionState → ConnectionState
unfolding confirm
on_reply t s =
    confirm t (first_mutation (head? s.cycles))
      (on_front (λ c. record c { mutations = tail c.mutations }) s)

-- The front statement is over.
abbrev pub finish_statement : Cycle → Cycle
finish_statement c = record c {
  statements = tail c.statements;
  last = or_statement (head? c.statements) c.last;
}

abbrev pub or_empty : Option String → String
or_empty none = ""
or_empty (some s) = s

-- `C`, behind its three events.
unfoldable pub complete : Bytes → Cycle → Cycle
complete bs c = record (finish_statement c) {
  command = or_empty (text bs);
  statement_index = if c.extended then u64_succ c.statement_index else c.statement_index;
  rows = 0;
}

-- `E`, before its event.
unfoldable pub on_error : ConnectionState → ConnectionState
on_error s = record s {
  cycles = update_front (λ c. record c { error = true; mutations = [] }) s.cycles;
  prepared = s.confirmed_prepared;
  portals = s.confirmed_portals;
}

-- The state that `Z` reports.
unfoldable pub ready_state : Bytes → Option TxState
ready_state [] = none
ready_state (b ∷ []) =
    if b == b'I'
    then some idle
    else if b == b'T'
    then some in_transaction
    else if b == b'E'
    then some failed_transaction
    else none
ready_state (b ∷ c ∷ bs) = none

unfoldable pub completion : StatementClass → String → Bool → Option String
completion commit command idle_before =
    when (str_eq command "COMMIT") "transaction.commit.completed"
completion rollback command idle_before =
    when (str_eq command "ROLLBACK") "transaction.rollback.completed"
completion other command idle_before = none
completion _ command idle_before =
    when (idle_before && not (str_eq command "")) "transaction.implicit.completed"

-- The transaction event that `Z` completes, from the front cycle.
unfoldable pub completed : TxState → ConnectionState → Option String
unfolding completion
completed now s = elim (head? s.cycles) [
  | none ↦ none
  | some c ↦
      if not (is_idle now) || c.error || not s.reliable
      then none
      else completion c.last.class c.command (is_idle s.tx_state)
]

abbrev pub listed : Option String → List String
listed none = []
listed (some name) = name ∷ []

abbrev pub became_failed : TxState → TxState → List String
became_failed now before =
    if is_failed now && not (is_failed before) then "transaction.failed" ∷ [] else []

-- Portals end with the transaction.
abbrev pub close_portals : TxState → ConnectionState → ConnectionState
close_portals now s = if is_idle now then record s { portals = []; confirmed_portals = [] } else s

-- With nothing outstanding the maps are what the server has confirmed.
abbrev pub settle : ConnectionState → ConnectionState
settle s =
    if is_empty s.cycles
    then record s {
      reliable = true;
      prepared = s.confirmed_prepared;
      portals = s.confirmed_portals;
    }
    else s

-- `Z` with a known state, behind its last event.
unfoldable pub end_cycle : TxState → ConnectionState → ConnectionState
end_cycle now s = settle (close_portals now (record s { cycles = tail s.cycles }))

unfoldable pub on_ready : TxState → ConnectionState → ConnectionState × List Event
on_ready now s =
    let (s1, es1) = emit false ("backend.ready" ∷ became_failed now s.tx_state) s in
    let (s2, es2) = emit false (listed (completed now s1)) s1 in
    let (s3, es3) = emit false ("connection.ready" ∷ []) (record s2 { tx_state = now }) in
    (end_cycle now s3, es1 ++ (es2 ++ es3))

unfoldable pub backend : Frame → ConnectionState → ConnectionState × List Event
backend f s =
    if tag f == b'S'
    then (on_parameter (body f) s, [])
    else if tag f == b'1' || tag f == b'2' || tag f == b'3'
    then (on_reply (tag f) s, [])
    else if tag f == b'T'
    then emit false ("result.started" ∷ []) s
    else if tag f == b'D'
    then emit false ("result.row" ∷ []) (on_front (λ c. record c { rows = u64_succ c.rows }) s)
    else if tag f == b'C'
    then (let (s1, es) =
          emit false
            ("backend.command_complete" ∷ "statement.execution_completed" ∷ "result.completed" ∷ [])
            s in
        (on_front (complete (body f)) s1, es))
    else if tag f == b's'
    then (on_front (λ c. record (finish_statement c) { rows = 0 }) s, [])
    else if tag f == b'E'
    then emit false ("backend.error" ∷ []) (on_error s)
    else if tag f == b'Z'
    then elim (ready_state (body f)) [ none ↦ (s, []) | some now ↦ on_ready now s ]
    else (s, [])
