-- ===== src/State/Answers.antt =====
-- The server's side of the queue of cycles, and what is settled once the queue is empty.
use pgfault.Base.{
  ℕ, ◌==◌, if◌then◌else◌, ◌≡◌, refl, ap, ◌∙◌, Bool, true, false, ◌&&◌, String, Option, none, some,
  List, [], ◌∷◌, arith, Bytes, nat_eq, string_eq, bytes_eq_instance,
}
use pgfault.Base.Word.{u64_succ}
use pgfault.Wire.{Frame, tag, body}
use pgfault.State.{ConnectionState, Cycle, TxState, on_front, emit, Mutation, parse, bind, close}
use pgfault.State.Emit.{emit-state}
use pgfault.State.Cycles.{queue, closed, ids-update_front, ids-tail, Keeps}
use pgfault.State.Backend.{
  backend, on_ready, ready_state, end_cycle, on_parameter, on_reply, confirm, complete, on_error,
  finish_statement, completed, became_failed, listed,
}

abbrev pub is_ready : ℕ → Bytes → Bool
is_ready t bs = t == b'Z' && elim (ready_state bs) [ none ↦ false | some _ ↦ true ]

queue-on_front :
    (f : Cycle → Cycle) (s : ConnectionState) → Keeps f → queue (on_front f s) ≡ queue s
queue-on_front f s k = ground (arith, ids-update_front f s.cycles k)

queue-confirm :
    (t : ℕ) (m : Option Mutation) (s : ConnectionState) → queue (confirm t m s) ≡ queue s
unfolding confirm
queue-confirm t none s = refl
queue-confirm t (some (parse name st)) s = ground arith
queue-confirm t (some (bind name st)) s = ground arith
queue-confirm t (some (close kind name)) s = ground arith

queue-on_reply : (t : ℕ) (s : ConnectionState) → queue (on_reply t s) ≡ queue s
unfolding on_reply
queue-on_reply t s = queue-confirm t _ _ ∙ queue-on_front _ s (λ c. refl)

queue-on_parameter : (bs : Bytes) (s : ConnectionState) → queue (on_parameter bs s) ≡ queue s
unfolding on_parameter
queue-on_parameter bs s = ground arith

queue-end_cycle : (now : TxState) (s : ConnectionState) → queue (end_cycle now s) ≡ closed (queue s)
unfolding end_cycle
queue-end_cycle now s = ground (arith, ids-tail s.cycles)

queue-on_error : (s : ConnectionState) → queue (on_error s) ≡ queue s
unfolding on_error
queue-on_error s =
    ground (
      arith,
      ids-update_front (λ c. record c { error = true; mutations = [] }) s.cycles (λ c. refl),
    )

queue-emit :
    (front : Bool) (names : List String) (s : ConnectionState)
    → queue (emit front names s).0 ≡ queue s
queue-emit front names s = ap queue (emit-state front names s)

queue-on_ready : (now : TxState) (s : ConnectionState) → queue (on_ready now s).0 ≡ closed (queue s)
unfolding on_ready
queue-on_ready now s =
    let s1 = (emit false ("backend.ready" ∷ became_failed now s.tx_state) s).0 in
    let s2 = (emit false (listed (completed now s1)) s1).0 in
    queue-end_cycle now _
    ∙ ap closed (
        queue-emit false ("connection.ready" ∷ []) (record s2 { tx_state = now })
        ∙ queue-emit false (listed (completed now s1)) s1
        ∙ queue-emit false ("backend.ready" ∷ became_failed now s.tx_state) s)

-- As a queue of numbered cycles, a `Z` with a known state takes the oldest cycle out, and every
-- other frame of the server leaves the queue as it is.
pub backend-queue :
    (f : Frame) (s : ConnectionState)
    → queue (backend f s).0 ≡ (if is_ready (tag f) (body f) then closed (queue s) else queue s)
unfolding backend complete
backend-queue f s = go (ready_state (body f)) refl
  where
    command : ConnectionState
    command =
        (emit false
          ("backend.command_complete" ∷ "statement.execution_completed" ∷ "result.completed" ∷ [])
          s).0

    go :
        (o : Option TxState)
        → ready_state (body f) ≡ o
        → queue (backend f s).0 ≡ (if is_ready (tag f) (body f) then closed (queue s) else queue s)
    go none e =
        rw (e, is_ready)
          (ground (
            arith,
            queue-on_parameter (body f) s,
            queue-on_reply (tag f) s,
            queue-emit false ("result.started" ∷ []) s,
            queue-emit false ("result.row" ∷ [])
                (on_front (λ c. record c { rows = u64_succ c.rows }) s),
            queue-on_front (λ c. record c { rows = u64_succ c.rows }) s (λ c. refl),
            queue-on_front (complete (body f)) command (λ c. refl),
            queue-emit false
                ("backend.command_complete" ∷ "statement.execution_completed" ∷ "result.completed"
                  ∷ [])
                s,
            queue-on_front (λ c. record (finish_statement c) { rows = 0 }) s (λ c. refl),
            queue-emit false ("backend.error" ∷ []) (on_error s),
            queue-on_error s,
          ))
    go (some now) e =
        rw (e, is_ready)
          (ground (
            arith,
            queue-on_parameter (body f) s,
            queue-on_reply (tag f) s,
            queue-emit false ("result.started" ∷ []) s,
            queue-emit false ("result.row" ∷ [])
                (on_front (λ c. record c { rows = u64_succ c.rows }) s),
            queue-on_front (λ c. record c { rows = u64_succ c.rows }) s (λ c. refl),
            queue-on_front (complete (body f)) command (λ c. refl),
            queue-emit false
                ("backend.command_complete" ∷ "statement.execution_completed" ∷ "result.completed"
                  ∷ [])
                s,
            queue-on_front (λ c. record (finish_statement c) { rows = 0 }) s (λ c. refl),
            queue-emit false ("backend.error" ∷ []) (on_error s),
            queue-on_error s,
            queue-on_ready now s,
          ))
