-- ===== src/State/Requests.antt =====
-- The names of the events of either direction, against `EVENTS` and the directions of `validate`.
use pgfault.Base.{
  ℕ, ◌≡◌, inl, inr, refl, Bool, true, false, String, Option, none, some, arith, Bytes, head?, All,
  All-append, Option-cases, nat_eq, string_eq, bytes_eq_instance,
}
use pgfault.Events.{StatementClass, begin, commit, events, is}
use pgfault.Scenario.Validate.{upstream_events}
use pgfault.Wire.{Frame, tag, body}
use pgfault.State.{forwarded, event_at, ConnectionState, TxState, is_idle}
use pgfault.State.Emit.{names_of, emit-names}
use pgfault.State.Names.{backend_names, backend-names, ready_names}
use pgfault.State.Frontend.{
  frontend, observe, allocate_epoch, requested, query_statement, portal_statement,
}
use pgfault.State.Backend.{backend, completed, completion, ready_state, listed, became_failed}

-- The name is one of `EVENTS`, and `validate` takes its frames to go upstream, or not.
abbrev pub IsKnown : Bool → String → Type 0
IsKnown up name = (is events name ≡ true) × (is upstream_events name ≡ up)

requested-IsKnown : (k : StatementClass) → All (IsKnown true) (requested k)
requested-IsKnown begin = ((refl, refl), tt)
requested-IsKnown commit = ((refl, refl), tt)
requested-IsKnown _ = ground arith

observe-IsKnown :
    (digest : Bytes → String) (t : ℕ) (bs : Bytes) (s : ConnectionState)
    → All (IsKnown true) (observe digest t bs s).1
unfolding observe
observe-IsKnown digest t bs s = ground (
  arith,
  requested-IsKnown (query_statement digest bs).class,
  requested-IsKnown (portal_statement bs s).class,
)

frontend-IsKnown :
    (digest : Bytes → String) (f : Frame) (s : ConnectionState)
    → All (IsKnown true) (names_of (frontend digest f s).1)
unfolding frontend
frontend-IsKnown digest f s =
    rw
      (emit-names true (observe digest (tag f) (body f) s).1
        (allocate_epoch (tag f) (observe digest (tag f) (body f) s).0))
      (observe-IsKnown digest (tag f) (body f) s)

completion-IsKnown :
    (k : StatementClass) (command : String) (b : Bool)
    → All (IsKnown false) (listed (completion k command b))
unfolding completion
completion-IsKnown k command b = ground arith

completed-IsKnown :
    (now : TxState) (s : ConnectionState) → All (IsKnown false) (listed (completed now s))
unfolding completed
completed-IsKnown now s = elim (Option-cases (head? s.cycles)) [
  | inl e ↦ rw (e, completed) tt
  | inr (c, e) ↦
      rw (e, completed)
        (ground (arith, completion-IsKnown c.last.class c.command (is_idle s.tx_state)))
]

became_failed-IsKnown : (now before : TxState) → All (IsKnown false) (became_failed now before)
became_failed-IsKnown now before = ground arith

ready_names-IsKnown :
    (now : TxState) (s : ConnectionState) → All (IsKnown false) (ready_names now s)
unfolding ready_names
ready_names-IsKnown now s = (
  (refl, refl),
  All-append (IsKnown false) _ _ (became_failed-IsKnown now s.tx_state)
      (All-append (IsKnown false) _ _ (completed-IsKnown now s) ((refl, refl), tt)),
)

backend-IsKnown : (f : Frame) (s : ConnectionState) → All (IsKnown false) (names_of (backend f s).1)
backend-IsKnown f s = rw (backend-names f s) (go (ready_state (body f)) refl)
  where
    go :
        (o : Option TxState)
        → ready_state (body f) ≡ o
        → All (IsKnown false) (backend_names (tag f) (body f) s)
    go none e = unfold backend_names in rw e (ground arith)
    go (some now) e = unfold backend_names in rw e (ground (arith, ready_names-IsKnown now s))

-- Every event that the state gives is one of `EVENTS`. Those of the client's frames and of their
-- forwarding are the ones whose delay `validate` wants upstream, and those of the server's
-- frames are the others.
pub events-IsKnown :
    (digest : Bytes → String) (f : Frame) (s : ConnectionState)
    → All (IsKnown true) (names_of (frontend digest f s).1)
      × IsKnown true (forwarded s).1.event
      × All (IsKnown false) (names_of (backend f s).1)
unfolding forwarded event_at
events-IsKnown digest f s = (frontend-IsKnown digest f s, (refl, refl), backend-IsKnown f s)
