-- ===== src/State/Names.antt =====
-- The names of the events that each frame of the server gives.
use pgfault.Base.{
  ℕ, ◌==◌, if◌then◌else◌, ◌≡◌, ◌↔◌, refl, ap, Bool, true, false, String, Option, none, some, List,
  [], ◌∷◌, ◌++◌, arith, head?, str_eq, str_eq_iff, Bytes, any-append,
}
use pgfault.Events.{commit, Event, is}
use pgfault.Wire.{Frame, tag, body}
use pgfault.Base.Word.{u64_succ}
use pgfault.State.{on_front, ConnectionState, Cycle, TxState, emit}
use pgfault.State.Emit.{emit-state, names_of, emit-names, names_of-append}
use pgfault.State.Backend.{
  backend, on_ready, completed, ready_state, became_failed, listed, on_error,
}

-- An event of this name is among the events.
abbrev pub emits : String → List Event → Bool
emits name es = is (names_of es) name

unfoldable pub ready_names : TxState → ConnectionState → List String
ready_names now s =
    "backend.ready"
    ∷ (became_failed now s.tx_state ++ (listed (completed now s) ++ "connection.ready" ∷ []))

pub on_ready-names :
    (now : TxState) (s : ConnectionState) → names_of (on_ready now s).1 ≡ ready_names now s
unfolding on_ready ready_names completed
on_ready-names now s =
    rw
      (
        names_of-append first (second ++ third),
        names_of-append second third,
        emit-names false ("backend.ready" ∷ became_failed now s.tx_state) s,
        emit-names false (listed (completed now s1)) s1,
        emit-names false ("connection.ready" ∷ []) (record s2 { tx_state = now }),
        same,
      )
      refl
  where
    s1 : ConnectionState
    s1 = (emit false ("backend.ready" ∷ became_failed now s.tx_state) s).0

    s2 : ConnectionState
    s2 = (emit false (listed (completed now s1)) s1).0

    first : List Event
    first = (emit false ("backend.ready" ∷ became_failed now s.tx_state) s).1

    second : List Event
    second = (emit false (listed (completed now s1)) s1).1

    third : List Event
    third = (emit false ("connection.ready" ∷ []) (record s2 { tx_state = now })).1

    same : completed now s1 ≡ completed now s
    same = ap (completed now) (emit-state false ("backend.ready" ∷ became_failed now s.tx_state) s)

abbrev pub commit_completed : String
commit_completed = "transaction.commit.completed"

-- What the front cycle and the state must be for the commit to be reported at `Z`.
abbrev pub Committed : ConnectionState → Type 0
Committed s =
    (c : Cycle) × (head? s.cycles ≡ some c)
    × (c.last.class ≡ commit)
    × (c.command ≡ "COMMIT")
    × (c.error ≡ false)
    × (s.reliable ≡ true)

abbrev pub ready_names? : Option TxState → ConnectionState → List String
ready_names? none s = []
ready_names? (some now) s = ready_names now s

-- The events that each frame of the server gives.
unfoldable pub backend_names : ℕ → Bytes → ConnectionState → List String
backend_names t bs s =
    if t == b'T'
    then "result.started" ∷ []
    else if t == b'D'
    then "result.row" ∷ []
    else if t == b'C'
    then "backend.command_complete" ∷ "statement.execution_completed" ∷ "result.completed" ∷ []
    else if t == b'E'
    then "backend.error" ∷ []
    else if t == b'Z'
    then ready_names? (ready_state bs) s
    else []

after_ready : (now : Option TxState) (s : ConnectionState) → ConnectionState × List Event
after_ready none s = (s, [])
after_ready (some now) s = on_ready now s

pub backend-names :
    (f : Frame) (s : ConnectionState) → names_of (backend f s).1 ≡ backend_names (tag f) (body f) s
unfolding backend backend_names
backend-names f s = go (ready_state (body f)) refl
  where
    go :
        (o : Option TxState)
        → ready_state (body f) ≡ o
        → names_of (backend f s).1 ≡ backend_names (tag f) (body f) s
    go none e =
        rw (e, ready_names?)
          (ground (
            arith,
            emit-names false ("result.started" ∷ []) s,
            emit-names false ("result.row" ∷ [])
                (on_front (λ c. record c { rows = u64_succ c.rows }) s),
            emit-names false
                ("backend.command_complete" ∷ "statement.execution_completed" ∷ "result.completed"
                  ∷ [])
                s,
            emit-names false ("backend.error" ∷ []) (on_error s),
          ))
    go (some now) e =
        rw (e, ready_names?)
          (ground (
            arith,
            emit-names false ("result.started" ∷ []) s,
            emit-names false ("result.row" ∷ [])
                (on_front (λ c. record c { rows = u64_succ c.rows }) s),
            emit-names false
                ("backend.command_complete" ∷ "statement.execution_completed" ∷ "result.completed"
                  ∷ [])
                s,
            emit-names false ("backend.error" ∷ []) (on_error s),
            on_ready-names now s,
          ))

-- The names of the events of the server's frames that do not end a transaction.
abbrev pub plain_names : List String
plain_names =
    "result.started" ∷ "result.row" ∷ "backend.command_complete" ∷ "statement.execution_completed"
    ∷ "result.completed" ∷ "backend.error" ∷ "backend.ready" ∷ "transaction.failed"
    ∷ "connection.ready" ∷ []

abbrev pub IsCompletion : String → Type 0
IsCompletion name = is plain_names name ≡ false

listed_iff :
    (name : String) (o : Option String)
    → str_eq name "connection.ready" ≡ false
    → (is (listed o ++ "connection.ready" ∷ []) name ≡ true) ↔ (o ≡ some name)
listed_iff name none h = ground arith
listed_iff name (some x) h = ground (arith, str_eq_iff name x)

became_failed-is :
    (name : String) (now before : TxState)
    → str_eq name "transaction.failed" ≡ false
    → is (became_failed now before) name ≡ false
became_failed-is name now before h = ground arith

other_names :
    (name : String)
    → IsCompletion name
    → (str_eq name "backend.ready" ≡ false)
      × (str_eq name "transaction.failed" ≡ false)
      × (str_eq name "connection.ready" ≡ false)
other_names name h = (ground arith, ground arith, ground arith)

ready_names-completed :
    (name : String) (now : TxState) (s : ConnectionState)
    → IsCompletion name
    → (is (ready_names now s) name ≡ true) ↔ (completed now s ≡ some name)
unfolding ready_names
ready_names-completed name now s h =
    let (ready, failed, connection) = other_names name h in
    rw
      (
        ready,
        any-append (str_eq name) (became_failed now s.tx_state)
            (listed (completed now s) ++ "connection.ready" ∷ []),
        became_failed-is name now s.tx_state failed,
      )
      (listed_iff name (completed now s) connection)

-- The server says that it is ready, and a transaction event of this name is due.
abbrev pub Ends : String → Frame → ConnectionState → Type 0
Ends name f s =
    (now : TxState) × (tag f ≡ b'Z')
    × (ready_state (body f) ≡ some now)
    × (completed now s ≡ some name)

-- For a name that is none of those that `backend` gives for other reasons, `backend` reports it
-- exactly when the frame is a `Z` with a known state, and `completed` finds that name for the
-- new state.
pub backend-Ends :
    (name : String) (f : Frame) (s : ConnectionState)
    → IsCompletion name
    → (emits name (backend f s).1 ≡ true) ↔ Ends name f s
backend-Ends name f s h = rw (backend-names f s) (go (ready_state (body f)) refl)
  where
    go :
        (o : Option TxState)
        → ready_state (body f) ≡ o
        → (is (backend_names (tag f) (body f) s) name ≡ true) ↔ Ends name f s
    go none e = unfold backend_names in (λ k. absurd (ground arith), λ (now, t, r, c). ground arith)
    go (some now) e =
        unfold backend_names in
        (
          λ k. (now, ground arith, e, ground (arith, ready_names-completed name now s h)),
          λ (now', t, r, c). ground (arith, ready_names-completed name now s h),
        )
