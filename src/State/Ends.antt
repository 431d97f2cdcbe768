-- ===== src/State/Ends.antt =====
-- The end of a transaction: what a `Z` that completes one is, and the events of it and of its tag.
use pgfault.Base.{
  ◌≡◌, ◌⊎◌, inl, inr, refl, ◌∙◌, Bool, true, false, not, ◌&&◌, String, some, List, [], ◌∷◌, All,
  arith, head?, str_eq, Option-cases, nat_eq, string_eq, bytes_eq_instance,
}
use pgfault.Events.{StatementClass, commit, rollback, other, Event}
use pgfault.Wire.{Frame, tag, body}
use pgfault.State.{ConnectionState, TxState, idle, is_idle, event_at, emit}
use pgfault.State.Emit.{recount}
use pgfault.State.Completion.{completed_front, completed_empty}
use pgfault.State.Backend.{backend, completed, completion, when, ready_state, on_ready}

-- The three events that end a transaction.
abbrev pub IsEnd : String → Type 0
IsEnd name =
    (name ≡ "transaction.commit.completed")
    ⊎ ((name ≡ "transaction.rollback.completed") ⊎ (name ≡ "transaction.implicit.completed"))

when-name : (b : Bool) (x : String) {name : String} → when b x ≡ some name → name ≡ x
when-name true x h = cc
when-name false x h = let bad : ⊥ = cc in elim bad [ ]

completion-IsEnd :
    (k : StatementClass) (command : String) (b : Bool) {name : String}
    → completion k command b ≡ some name
    → IsEnd name
unfolding completion
completion-IsEnd commit command b h = inl (when-name (str_eq command "COMMIT") _ h)
completion-IsEnd rollback command b h = inr (inl (when-name (str_eq command "ROLLBACK") _ h))
completion-IsEnd other command b h = let bad : ⊥ = cc in elim bad [ ]
completion-IsEnd _ command b h = inr (inr (when-name (b && not (str_eq command "")) _ h))

-- Where a transaction event is due, the server is idle, the order of frames is certain, and the
-- event is one of the three.
pub completed-IsEnd :
    (now : TxState) (s : ConnectionState) {name : String}
    → completed now s ≡ some name
    → (now ≡ idle) × (s.reliable ≡ true) × IsEnd name
completed-IsEnd now s h = elim (Option-cases (head? s.cycles)) [
  | inl empty ↦ let bad : ⊥ = ground (arith, completed_empty now s empty) in elim bad [ ]
  | inr (c, e) ↦
      let f = completed_front now s c e in
      (
        ground (arith, f),
        ground (arith, f),
        completion-IsEnd c.last.class c.command (is_idle s.tx_state) (ground (arith, f)),
      )
]

-- No event of a command tag, and not the first event of a `Z`, has the name of such an event.
abbrev pub IsQuiet : String → Event → Type 0
IsQuiet name e = str_eq e.event name ≡ false

pub tag-IsQuiet :
    (f : Frame) (s : ConnectionState) (name : String)
    → tag f ≡ b'C'
    → IsEnd name
    → All (IsQuiet name) (backend f s).1
unfolding backend emit event_at
tag-IsQuiet f s name t (inl e) = rw (t, e) (refl, (refl, (refl, tt)))
tag-IsQuiet f s name t (inr (inl e)) = rw (t, e) (refl, (refl, (refl, tt)))
tag-IsQuiet f s name t (inr (inr e)) = rw (t, e) (refl, (refl, (refl, tt)))

pub ready-IsQuiet :
    (s : ConnectionState) (name : String)
    → IsEnd name
    → IsQuiet name (event_at "backend.ready" false s)
unfolding event_at
ready-IsQuiet s name (inl e) = rw e refl
ready-IsQuiet s name (inr (inl e)) = rw e refl
ready-IsQuiet s name (inr (inr e)) = rw e refl

completed-recount :
    (now : TxState) (names : List String) (s : ConnectionState)
    → completed now (recount names s) ≡ completed now s
unfolding completed
completed-recount now names s = refl

-- The events of a `Z` that ends a transaction: the ending comes second.
pub ending_events :
    (z : Frame) (s : ConnectionState) {name : String}
    → tag z ≡ b'Z'
    → ready_state (body z) ≡ some idle
    → completed idle s ≡ some name
    → (es : List Event) × ((backend z s).1
        ≡ event_at "backend.ready" false s
          ∷ event_at name false (recount ("backend.ready" ∷ []) s)
          ∷ es)
unfolding backend on_ready emit
ending_events z s {name} t r h =
    let due = completed-recount idle ("backend.ready" ∷ []) s ∙ h in rw (t, r, due) (_, refl)
