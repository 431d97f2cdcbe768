-- ===== src/State/Frontend.antt =====
-- `ConnectionState::frontend`: a frame of the client.
use pgfault.Base.{
  ℕ, if◌then◌else◌, ◌==◌, Bool, true, false, not, ◌&&◌, ◌||◌, String, Option, none, some, List, [],
  ◌∷◌, ◌++◌, Bytes, head?, update_front, length,
}
use pgfault.Base.{bytes_eq_instance}
use pgfault.Base.Dict.{lookup, insert, remove}
use pgfault.Base.Word.{u64_succ}
use pgfault.Wire.{Frame, tag, body, cstr}
use pgfault.Events.{StatementClass, begin, commit, rollback, Statement, no_statement, Event}
use pgfault.Events.Classify.{new_statement}
use pgfault.State.{
  ConnectionState, Cycle, Mutation, parse, bind, close, cycle, on_back, is_idle, or_statement, emit,
}

abbrev pub push_mutation : Mutation → ConnectionState → ConnectionState
push_mutation m s = on_back (λ c. record c { mutations = c.mutations ++ m ∷ [] }) (cycle true s)

-- `P`. `digest` is the SHA-256 of a statement's text.
unfoldable pub on_parse : (Bytes → String) → Bytes → ConnectionState → ConnectionState
on_parse digest bs s = cycle true (elim (cstr bs) [
  | none ↦ s
  | some (name, rest) ↦ elim (cstr rest) [
    | none ↦ s
    | some (sql, _) ↦
        let st = new_statement digest sql in
        push_mutation (parse name st) (record s { prepared = insert name st s.prepared })
  ]
])

-- `B`
unfoldable pub on_bind : Bytes → ConnectionState → ConnectionState
on_bind bs s = cycle true (elim (cstr bs) [
  | none ↦ s
  | some (portal, rest) ↦ elim (cstr rest) [
    | none ↦ s
    | some (name, _) ↦ elim (lookup name s.prepared) [
      | none ↦ record s { portals = remove portal s.portals }
      | some st ↦ push_mutation (bind portal st) (record s { portals = insert portal st s.portals })
    ]
  ]
])

unfoldable pub forget : ℕ → Bytes → ConnectionState → ConnectionState
forget kind name s =
    if kind == b'S'
    then record s { prepared = remove name s.prepared }
    else if kind == b'P'
    then record s { portals = remove name s.portals }
    else s

-- `C`
unfoldable pub on_close : Bytes → ConnectionState → ConnectionState
unfolding forget
on_close [] s = s
on_close (kind ∷ rest) s = elim (cstr rest) [
  | none ↦ s
  | some (name, _) ↦ forget kind name (push_mutation (close kind name) s)
]

-- The statement of a simple query.
unfoldable pub query_statement : (Bytes → String) → Bytes → Statement
query_statement digest bs = elim (cstr bs) [
  | none ↦ no_statement
  | some (sql, _) ↦ new_statement digest sql
]

-- The statement of the portal that is executed.
unfoldable pub portal_statement : Bytes → ConnectionState → Statement
portal_statement bs s = elim (cstr bs) [
  | none ↦ no_statement
  | some (name, _) ↦ or_statement (lookup name s.portals) no_statement
]

-- A simple query destroys the unnamed statement and the unnamed portal.
abbrev pub drop_unnamed : ConnectionState → ConnectionState
drop_unnamed s = record s {
  prepared = remove [] s.prepared;
  portals = remove [] s.portals;
  confirmed_prepared = remove [] s.confirmed_prepared;
  confirmed_portals = remove [] s.confirmed_portals;
}

abbrev pub start : Bool → Statement → ConnectionState → ConnectionState
start extended st s =
    on_back
      (λ c. record c { statements = c.statements ++ st ∷ []; executions = u64_succ c.executions })
      (cycle extended s)

abbrev pub requested : StatementClass → List String
requested begin = "transaction.begin.requested" ∷ []
requested commit = "transaction.commit.requested" ∷ []
requested rollback = "transaction.rollback.requested" ∷ []
requested _ = []

-- The state and the names of the events that the frame gives, in order.
unfoldable pub observe :
    (Bytes → String) → ℕ → Bytes → ConnectionState → ConnectionState × List String
observe digest t bs s =
    if t == b'P'
    then (on_parse digest bs s, [])
    else if t == b'B'
    then (on_bind bs s, [])
    else if t == b'C'
    then (on_close bs s, [])
    else if t == b'Q'
    then (
      start false (query_statement digest bs) (drop_unnamed s),
      "query.received"
          ∷ "statement.execution_started"
          ∷ requested (query_statement digest bs).class,
    )
    else if t == b'E'
    then (
      start true (portal_statement bs s) s,
      "frontend.execute" ∷ "statement.execution_started" ∷ requested (portal_statement bs s).class,
    )
    else if t == b'S'
    then (on_back (λ c. record c { sealed = true }) (cycle true s), "frontend.sync" ∷ [])
    else (s, [])

abbrev pub has_no_epoch : Option Cycle → Bool
has_no_epoch none = false
has_no_epoch (some c) = not c.epoch_allocated

abbrev pub starts_work : ℕ → Bool
starts_work t = t == b'Q' || t == b'E'

-- An epoch for the work that begins from idle.
unfoldable pub allocate_epoch : ℕ → ConnectionState → ConnectionState
allocate_epoch t s =
    if is_idle s.tx_state && length s.cycles == 1 && has_no_epoch (head? s.cycles) && starts_work t
    then record s {
      tx_epoch = u64_succ s.tx_epoch;
      cycles = update_front (λ c. record c { epoch_allocated = true }) s.cycles;
    }
    else s

unfoldable pub frontend : (Bytes → String) → Frame → ConnectionState → ConnectionState × List Event
frontend digest f s =
    let (s1, names) = observe digest (tag f) (body f) s in
    emit true names (allocate_epoch (tag f) s1)
