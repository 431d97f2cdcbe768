-- ===== src/State/Confirmed.antt =====
-- With nothing outstanding, the maps of a connection are what the server has confirmed: the frames of
-- the server.
use pgfault.Base.{
  by_if, ℕ, ◌==◌, ◌≡◌, ◌⊎◌, inl, inr, refl, sym, ◌∙◌, false, ◌||◌, String, Option, none, some, List,
  [], ◌∷◌, Bytes, head?, is_empty, tail, update_front, Bool-cases, Option-cases, bytes_eq, nat_eq,
  string_eq, bytes_eq_instance,
}
use pgfault.Wire.{Frame, tag, body, cstr}
use pgfault.Base.Text.{codes}
use pgfault.Base.Word.{u64_succ}
use pgfault.Events.{Event}
use pgfault.State.{ConnectionState, Cycle, TxState, Mutation, parse, bind, close, on_front, emit}
use pgfault.State.Backend.{
  backend, on_parameter, on_reply, complete, on_error, ready_state, on_ready, end_cycle, settle,
  close_portals, confirm, first_mutation, finish_statement,
}
use pgfault.State.Settled.{IsSettled, IsOpen, open-IsSettled, emit-IsSettled, is_empty-update_front}

on_front-IsSettled :
    (f : Cycle → Cycle) (s : ConnectionState) → IsSettled s → IsSettled (on_front f s)
on_front-IsSettled f s h k = h (sym (is_empty-update_front f s.cycles) ∙ k)

confirm-IsOpen :
    (t : ℕ) (m : Option Mutation) (s : ConnectionState) → IsOpen s → IsOpen (confirm t m s)
unfolding confirm
confirm-IsOpen t none s o = o
confirm-IsOpen t (some (parse name st)) s o = by_if IsOpen (t == b'1') _ _ (λ p. o) (λ p. o)
confirm-IsOpen t (some (bind name st)) s o = by_if IsOpen (t == b'2') _ _ (λ p. o) (λ p. o)
confirm-IsOpen t (some (close kind name)) s o =
    by_if IsOpen (t == b'3') _ _ (λ p. by_if IsOpen (kind == b'S') _ _ (λ p. o) (λ p. o)) (λ p. o)

-- Without a cycle no mutation waits.
confirm-IsSettled :
    (t : ℕ) (m : Option Mutation) (s : ConnectionState)
    → (IsOpen s ⊎ (m ≡ none))
    → IsSettled s
    → IsSettled (confirm t m s)
unfolding confirm
confirm-IsSettled t m s (inl o) h = open-IsSettled (confirm t m s) (confirm-IsOpen t m s o)
confirm-IsSettled t m s (inr e) h = rw e h

on_reply-IsSettled : (t : ℕ) (s : ConnectionState) → IsSettled s → IsSettled (on_reply t s)
unfolding on_reply
on_reply-IsSettled t s h =
    confirm-IsSettled t (first_mutation (head? s.cycles)) _ (waits s.cycles)
      (on_front-IsSettled (λ c. record c { mutations = tail c.mutations }) s h)
  where
    waits :
        (cs : List Cycle)
        → (is_empty (update_front (λ c. record c { mutations = tail c.mutations }) cs) ≡ false)
          ⊎ (first_mutation (head? cs) ≡ none)
    waits [] = inr refl
    waits (c ∷ cs) = inl refl

end_cycle-IsSettled : (now : TxState) (s : ConnectionState) → IsSettled (end_cycle now s)
unfolding end_cycle
end_cycle-IsSettled now s =
    settle-IsSettled (close_portals now (record s { cycles = tail s.cycles }))
  where
    settle-IsSettled : (s : ConnectionState) → IsSettled (settle s)
    settle-IsSettled s = elim (Bool-cases (is_empty s.cycles)) [
      | inl nothing ↦ rw nothing (λ k. (refl, refl))
      | inr some_left ↦ rw some_left (open-IsSettled s some_left)
    ]

on_error-IsSettled : (s : ConnectionState) → IsSettled (on_error s)
unfolding on_error
on_error-IsSettled s k = (refl, refl)

on_parameter-IsSettled :
    (bs : Bytes) (s : ConnectionState) → IsSettled s → IsSettled (on_parameter bs s)
unfolding on_parameter
on_parameter-IsSettled bs s h = elim (Option-cases (cstr bs)) [
  | inl bad ↦ rw (on_parameter, bad) h
  | inr ((key, rest), good) ↦ elim (Bool-cases (bytes_eq key (codes "application_name"))) [
    | inl name ↦ elim (Option-cases (cstr rest)) [
      | inl bad ↦ rw (on_parameter, good, name, bad) h
      | inr ((value, after), found) ↦ rw (on_parameter, good, name, found) h
    ]
    | inr other ↦ rw (on_parameter, good, other) h
  ]
]

on_ready-IsSettled : (now : TxState) (s : ConnectionState) → IsSettled (on_ready now s).0
unfolding on_ready
on_ready-IsSettled now s = end_cycle-IsSettled now _

abbrev command_names : List String
command_names =
    "backend.command_complete" ∷ "statement.execution_completed" ∷ "result.completed" ∷ []

-- What a `Z` with this state, if it is known, leaves.
abbrev readied : Option TxState → ConnectionState → ConnectionState × List Event
readied o s = elim o [ none ↦ (s, []) | some now ↦ on_ready now s ]

ready_state-IsSettled :
    (o : Option TxState) (s : ConnectionState) → IsSettled s → IsSettled (readied o s).0
ready_state-IsSettled none s h = h
ready_state-IsSettled (some now) s h = on_ready-IsSettled now s

pub backend-IsSettled : (f : Frame) (s : ConnectionState) → IsSettled s → IsSettled (backend f s).0
unfolding backend
backend-IsSettled f s h = elim (Bool-cases (tag f == b'S')) [
  | inl is_parameter ↦ rw (backend, is_parameter) (on_parameter-IsSettled (body f) s h)
  | inr no_parameter ↦ elim (Bool-cases (tag f == b'1' || tag f == b'2' || tag f == b'3')) [
    | inl is_reply ↦ rw (backend, no_parameter, is_reply) (on_reply-IsSettled (tag f) s h)
    | inr no_reply ↦ elim (Bool-cases (tag f == b'T')) [
      | inl is_started ↦
          rw (backend, no_parameter, no_reply, is_started)
            (emit-IsSettled false ("result.started" ∷ []) s h)
      | inr no_started ↦ elim (Bool-cases (tag f == b'D')) [
        | inl is_row ↦
            rw (backend, no_parameter, no_reply, no_started, is_row)
              (emit-IsSettled false ("result.row" ∷ [])
                (on_front (λ c. record c { rows = u64_succ c.rows }) s)
                (on_front-IsSettled (λ c. record c { rows = u64_succ c.rows }) s h))
        | inr no_row ↦ elim (Bool-cases (tag f == b'C')) [
          | inl is_command ↦
              rw (backend, no_parameter, no_reply, no_started, no_row, is_command)
                (on_front-IsSettled (complete (body f)) (emit false command_names s).0
                  (emit-IsSettled false command_names s h))
          | inr no_command ↦ elim (Bool-cases (tag f == b's')) [
            | inl is_suspended ↦
                rw (backend, no_parameter, no_reply, no_started, no_row, no_command, is_suspended)
                  (on_front-IsSettled (λ c. record (finish_statement c) { rows = 0 }) s h)
            | inr no_suspended ↦ elim (Bool-cases (tag f == b'E')) [
              | inl is_error ↦
                  rw
                    (
                      backend, no_parameter, no_reply, no_started, no_row, no_command, no_suspended,
                      is_error,
                    )
                    (emit-IsSettled false ("backend.error" ∷ []) (on_error s)
                      (on_error-IsSettled s))
              | inr no_error ↦ elim (Bool-cases (tag f == b'Z')) [
                | inl is_ready ↦
                    rw
                      (
                        backend, no_parameter, no_reply, no_started, no_row, no_command,
                        no_suspended, no_error, is_ready,
                      )
                      (ready_state-IsSettled (ready_state (body f)) s h)
                | inr no_ready ↦
                    rw
                      (
                        backend, no_parameter, no_reply, no_started, no_row, no_command,
                        no_suspended, no_error, no_ready,
                      )
                      h
              ]
            ]
          ]
        ]
      ]
    ]
  ]
]
