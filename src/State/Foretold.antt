-- ===== src/State/Foretold.antt =====
-- What `completion_boundary` says of a command tag is what `backend` reports at the `Z` that follows.
use pgfault.Base.{
  if◌then◌else◌, ◌≡◌, ◌≢◌, refl, sym, ap, ◌∙◌, Bool, true, false, not, ◌||◌, String, Option, none,
  some, List, [], ◌∷◌, arith, head?, head?-update_front,
}
use pgfault.Events.{StatementClass, begin, Statement}
use pgfault.Wire.{Frame, tag, body, text}
use pgfault.State.{ConnectionState, Cycle, TxState, or_statement, is_idle, on_front}
use pgfault.State.Emit.{emit-state, recount}
use pgfault.State.Completion.{completed_front}
use pgfault.State.Backend.{
  backend, completed, completion_boundary, complete, completion, boundary, or_empty,
}

-- The statement that a command tag is about.
abbrev pub answered : Cycle → Statement
answered c = or_statement (head? c.statements) c.last

abbrev command_names : List String
command_names =
    "backend.command_complete" ∷ "statement.execution_completed" ∷ "result.completed" ∷ []

backend-complete :
    (f : Frame) (s : ConnectionState)
    → tag f ≡ b'C'
    → (backend f s).0 ≡ on_front (complete (body f)) (recount command_names s)
unfolding backend
backend-complete f s t = rw (t, emit-state false command_names s)

boundary-completion :
    (k : StatementClass) (tagged : Option String) (b : Bool) {name : String}
    → k ≢ begin
    → completion k (or_empty tagged) b ≡ some name
    → (command : String) × (tagged ≡ some command) × (boundary k command b ≡ some name)
unfolding completion boundary
boundary-completion k none b nb h = absurd (ground arith)
boundary-completion k (some command) b nb h = (command, refl, ground arith)

completion_boundary_front :
    (f : Frame) (s : ConnectionState) (c : Cycle) (command : String)
    → tag f ≡ b'C'
    → s.reliable ≡ true
    → head? s.cycles ≡ some c
    → text (body f) ≡ some command
    → completion_boundary f s ≡ boundary (answered c).class command (is_idle s.tx_state)
unfolding completion_boundary
completion_boundary_front f s c command t r h x = rw (t, r, h, x, completion_boundary)

-- If a command tag `C` answers a statement that is not a `BEGIN`, and a transaction event is due
-- at a `Z` directly behind it, then `completion_boundary` of the tag's frame, on the state
-- before it, already named that event.
pub completion_boundary-completed :
    (f : Frame) (s : ConnectionState) (c : Cycle) (now : TxState) {name : String}
    → tag f ≡ b'C'
    → head? s.cycles ≡ some c
    → (answered c).class ≢ begin
    → completed now (backend f s).0 ≡ some name
    → completion_boundary f s ≡ some name
unfolding complete
completion_boundary-completed f s c now {name} t h nb e =
    let (command, x, b) =
      boundary-completion (answered c).class (text (body f)) (is_idle s.tx_state) nb found in
    completion_boundary_front f s c command t reliable h x ∙ b
  where
    after : ConnectionState
    after = on_front (complete (body f)) (recount command_names s)

    due :
        (if not (is_idle now) || c.error || not s.reliable
          then none
          else completion (answered c).class (or_empty (text (body f))) (is_idle s.tx_state))
        ≡ some name
    due =
        sym (
          completed_front now after (complete (body f) c)
            (head?-update_front (complete (body f)) s.cycles h))
        ∙ sym (ap (completed now) (backend-complete f s t))
        ∙ e

    reliable : s.reliable ≡ true
    reliable = ground (arith, due)

    found :
        completion (answered c).class (or_empty (text (body f))) (is_idle s.tx_state) ≡ some name
    found = ground (arith, due)
