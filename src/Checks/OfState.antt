-- ===== src/Checks/OfState.antt =====
-- The theorems on the state of a connection, at concrete sessions.
use pgfault.Base.{
  if◌then◌else◌, ◌≡◌, ◌↔◌, refl, true, false, Option, none, some, [], ◌∷◌, arith, head?, All, map,
  nat_eq, string_eq, bytes_eq_instance,
}
use pgfault.Checks.Base.{everything}
use pgfault.Checks.Session.{digest, checkout, query, tagged, ready}
use pgfault.Wire.{frame, tag, body}
use pgfault.Events.Classify.{new_statement}
use pgfault.State.{ConnectionState, Cycle, in_transaction, new, idle, forwarded, fresh_cycle}
use pgfault.State.Frontend.{frontend}
use pgfault.State.Backend.{backend, completion_boundary}
use pgfault.State.Emit.{names_of}
use pgfault.State.Names.{emits}
use pgfault.State.Ended.{Ended}
use pgfault.State.Completion.{Committed, commit_completed, backend-commit_completed}
use pgfault.State.Foretold.{completion_boundary-completed}
use pgfault.State.Cycles.{queue, opened, closed, opens_cycle, frontend-queue}
use pgfault.State.Answers.{is_ready, backend-queue}
use pgfault.State.Attribution.{About, execute-About}
use pgfault.State.Settled.{IsSettled}
use pgfault.State.Session.{from_client, from_server, session, session-IsSettled, answers-settle}
use pgfault.State.Requests.{IsKnown, events-IsKnown}

abbrev asked : ConnectionState
asked = (frontend digest (query "COMMIT") (new 1 checkout)).0

abbrev tagged_commit : ConnectionState
tagged_commit = (backend (tagged "COMMIT") asked).0

backend-commit_completed_example :
    (emits commit_completed (backend (ready b'I') tagged_commit).1 ≡ true)
    ↔ ((tag (ready b'I') ≡ b'Z') × (body (ready b'I') ≡ b'I' ∷ []) × Committed tagged_commit)
backend-commit_completed_example = backend-commit_completed (ready b'I') tagged_commit

abbrev first : Option Cycle → Cycle
first none = fresh_cycle 0 true
first (some c) = c

abbrev rolling_back : ConnectionState
rolling_back =
    (frontend digest (query "ROLLBACK") (record (new 1 checkout) { tx_state = in_transaction })).0

completion_boundary-completed_example :
    completion_boundary (tagged "ROLLBACK") rolling_back ≡ some "transaction.rollback.completed"
unfolding everything
completion_boundary-completed_example =
    completion_boundary-completed (tagged "ROLLBACK") rolling_back
      (first (head? rolling_back.cycles)) idle refl refl (λ e. cc) refl

backend-queue_example : queue (backend (ready b'I') tagged_commit).0 ≡ (
    if is_ready (tag (ready b'I')) (body (ready b'I'))
    then closed (queue tagged_commit)
    else queue tagged_commit)
backend-queue_example = backend-queue (ready b'I') tagged_commit

frontend-queue_example : queue (frontend digest (query "SELECT 1") asked).0 ≡ (
    if opens_cycle (tag (query "SELECT 1")) (body (query "SELECT 1")) asked
    then opened (queue asked)
    else queue asked)
frontend-queue_example = frontend-queue digest (query "SELECT 1") asked

execute-About_example :
    let s1 = (frontend digest (frame b'P' (b's' ∷ 0 ∷ b'B' ∷ 0 ∷ [])) (new 1 checkout)).0 in
    let s2 = (frontend digest (frame b'B' (b'p' ∷ 0 ∷ b's' ∷ 0 ∷ [])) s1).0 in
    About (new_statement digest (b'B' ∷ [])) (frontend digest (frame b'E' (b'p' ∷ 0 ∷ [])) s2).1
unfolding everything
execute-About_example =
    execute-About digest (new 1 checkout) (b's' ∷ []) (b'B' ∷ []) (b'p' ∷ []) [] [] [] (omega arith)
      (omega arith) (omega arith)

events-IsKnown_example :
    All (IsKnown true) (names_of (frontend digest (query "COMMIT") (new 1 checkout)).1)
    × IsKnown true (forwarded (new 1 checkout)).1.event
    × All (IsKnown false) (names_of (backend (query "COMMIT") (new 1 checkout)).1)
events-IsKnown_example = events-IsKnown digest (query "COMMIT") (new 1 checkout)

abbrev settled : IsSettled (new 1 checkout)
unfolding everything
settled = λ none_open. (refl, refl)

session-IsSettled_example : IsSettled (
    session digest
      (from_client (query "BEGIN") ∷ from_server (tagged "BEGIN") ∷ from_server (ready b'T') ∷ [])
      (new 1 checkout))
session-IsSettled_example =
    session-IsSettled digest
      (from_client (query "BEGIN") ∷ from_server (tagged "BEGIN") ∷ from_server (ready b'T') ∷ [])
      (new 1 checkout) settled

answers-settle_example :
    let t = session digest (map from_server (ready b'I' ∷ [])) asked in
    (t.cycles ≡ []) × (t.prepared ≡ t.confirmed_prepared) × (t.portals ≡ t.confirmed_portals)
unfolding everything
answers-settle_example =
    answers-settle digest (ready b'I' ∷ []) asked
      (session-IsSettled digest (from_client (query "COMMIT") ∷ []) (new 1 checkout) settled)
      (refl, tt) (omega arith)
