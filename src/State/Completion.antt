-- ===== src/State/Completion.antt =====
-- When a transaction event is completed, and what the completion boundary foretells of it.
use pgfault.Base.{
  if◌then◌else◌, ◌≡◌, ◌≢◌, ◌↔◌, refl, ◌∙◌, Bool, true, false, not, ◌||◌, String, Option, none, some,
  [], ◌∷◌, arith, head?, str_eq_iff, Bytes,
}
use pgfault.Events.{StatementClass, commit}
use pgfault.Wire.{Frame, tag, body}
use pgfault.State.{ConnectionState, Cycle, TxState, idle, is_idle}
use pgfault.State.Names.{emits, backend-Ends}
use pgfault.State.Backend.{backend, completed, ready_state, completion}

abbrev pub commit_completed : String
commit_completed = "transaction.commit.completed"

-- What the front cycle and the state must be for the commit to be reported at `Z`.
abbrev pub Committed : ConnectionState → Type 0
Committed s =
    (c : Cycle) × (head? s.cycles ≡ some c)
    × (c.last.class ≡ commit)
    × (c.command ≡ "COMMIT")
    × (c.error ≡ false)
    × (s.reliable ≡ true)

pub completed_front :
    (now : TxState) (s : ConnectionState) (c : Cycle)
    → head? s.cycles ≡ some c
    → completed now s ≡ (
        if not (is_idle now) || c.error || not s.reliable
        then none
        else completion c.last.class c.command (is_idle s.tx_state))
unfolding completed
completed_front now s c e = rw (e, completed)

pub completed_empty :
    (now : TxState) (s : ConnectionState) → head? s.cycles ≡ none → completed now s ≡ none
unfolding completed
completed_empty now s e = rw (e, completed)

implicit-ne-commit : ◌≢◌ {A = String} "transaction.implicit.completed" commit_completed
implicit-ne-commit = ground (arith, str_eq_iff "transaction.implicit.completed" commit_completed)

rollback-ne-commit : ◌≢◌ {A = String} "transaction.rollback.completed" commit_completed
rollback-ne-commit = ground (arith, str_eq_iff "transaction.rollback.completed" commit_completed)

completion-commit :
    (k : StatementClass) (command : String) (b : Bool)
    → completion k command b ≡ some commit_completed
    → (k ≡ commit) × (command ≡ "COMMIT")
unfolding completion
completion-commit k command b h =
    ground (arith, implicit-ne-commit, rollback-ne-commit, str_eq_iff command "COMMIT")

completed-commit :
    (now : TxState) (s : ConnectionState)
    → (completed now s ≡ some commit_completed) ↔ ((now ≡ idle) × Committed s)
completed-commit now s = (go (head? s.cycles) refl, back)
  where
    go :
        (o : Option Cycle)
        → head? s.cycles ≡ o
        → completed now s ≡ some commit_completed
        → (now ≡ idle) × Committed s
    go none e h = ground (arith, completed_empty now s e)
    go (some c) e h =
        let f = completed_front now s c e in
        let k = completion-commit c.last.class c.command (is_idle s.tx_state) in
        (
          ground (arith, f),
          (c, e, ground (arith, f, k), ground (arith, f, k), ground (arith, f), ground (arith, f)),
        )

    back : (now ≡ idle) × Committed s → completed now s ≡ some commit_completed
    back (i, (c, e, k, command, error, reliable)) =
        completed_front now s c e ∙ rw (i, k, command, error, reliable) (unfold completion in refl)

pub ready_state-idle : (bs : Bytes) → (ready_state bs ≡ some idle) ↔ (bs ≡ b'I' ∷ [])
unfolding ready_state
ready_state-idle [] = ground arith
ready_state-idle (b ∷ []) = ground arith
ready_state-idle (b ∷ c ∷ bs) = ground arith

-- For every state and frame of the server, `backend` reports `transaction.commit.completed`
-- exactly when the frame is a `Z` with the body `I`, and the front cycle's last statement is a
-- commit, its command tag is `COMMIT`, it had no error, and the order of frames is certain.
pub backend-commit_completed :
    (f : Frame) (s : ConnectionState)
    → (emits commit_completed (backend f s).1 ≡ true)
      ↔ ((tag f ≡ b'Z') × (body f ≡ b'I' ∷ []) × Committed s)
backend-commit_completed f s = (
  λ e.
      let (now, t, r, c) = (backend-Ends commit_completed f s refl).0 e in
      let (i, k) = (completed-commit now s).0 c in
      (t, (ready_state-idle (body f)).0 (rw i at r), k),
  λ (t, b, k).
      (backend-Ends commit_completed f s refl).1
        (idle, t, (ready_state-idle (body f)).1 b, (completed-commit idle s).1 (refl, k)),
)
