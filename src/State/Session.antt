-- ===== src/State/Session.antt =====
-- Sessions, the frames of both sides in the order that the proxy takes them.
use pgfault.Base.{
  ℕ, ◌-◌, ◌≤◌, ◌≡◌, refl, ap, true, String, List, [], ◌∷◌, map, arith, Bytes, length, is_empty,
  tail, All, nat_eq, string_eq, bytes_eq_instance,
}
use pgfault.Wire.{Frame, tag, body}
use pgfault.State.{ConnectionState, Cycle}
use pgfault.State.Frontend.{frontend}
use pgfault.State.Backend.{backend}
use pgfault.State.Cycles.{ids, queue, closed}
use pgfault.State.Answers.{is_ready, backend-queue}
use pgfault.State.Settled.{IsSettled, frontend-IsSettled}
use pgfault.State.Confirmed.{backend-IsSettled}

-- What the two sides send, in the order that the proxy takes it.
pub data Message : Type 0 where
  from_client : Frame → Message
  from_server : Frame → Message

length-tail : (xs : List ℕ) → length (tail xs) ≡ length xs - 1
length-tail [] = omega arith
length-tail (x ∷ xs) = omega arith

no_ids : (cs : List Cycle) → length (ids cs) ≡ 0 → cs ≡ []
no_ids [] h = refl
no_ids (c ∷ cs) h = let bad : ⊥ = omega arith in elim bad [ ]

module _ (digest : Bytes → String) where
  abbrev pub step : Message → ConnectionState → ConnectionState
  step (from_client f) s = (frontend digest f s).0
  step (from_server f) s = (backend f s).0

  abbrev pub session : List Message → ConnectionState → ConnectionState
  session [] s = s
  session (m ∷ ms) s = session ms (step m s)

  step-IsSettled : (m : Message) (s : ConnectionState) → IsSettled s → IsSettled (step m s)
  step-IsSettled (from_client f) s h = frontend-IsSettled digest f s h
  step-IsSettled (from_server f) s h = backend-IsSettled f s h

  -- For any frames of both sides in any order, from a state where the prepared statements and
  -- the portals are the confirmed ones if no cycle is open, the same holds afterwards.
  pub session-IsSettled :
      (ms : List Message) (s : ConnectionState) → IsSettled s → IsSettled (session ms s)
  session-IsSettled [] s h = h
  session-IsSettled (m ∷ ms) s h = session-IsSettled ms (step m s) (step-IsSettled m s h)

  -- Each `Z` with a known state takes one cycle away.
  answers-length :
      (zs : List Frame) (s : ConnectionState)
      → All (λ f. is_ready (tag f) (body f) ≡ true) zs
      → length (queue (session (map from_server zs) s)).outstanding
        ≡ length (queue s).outstanding - length zs
  answers-length [] s known = omega arith
  answers-length (f ∷ zs) s (ready, known) =
      let one : queue (backend f s).0 ≡ closed (queue s) = rw (backend-queue f s, ready) refl in
      omega (
        arith,
        answers-length zs (backend f s).0 known,
        ap (λ q. length q.outstanding) one,
        length-tail (queue s).outstanding,
      )

  -- From a state where the prepared statements and the portals are the confirmed ones if no
  -- cycle is open, as many `Z` frames with known states as cycles are open, or more, leave no
  -- open cycle, with the confirmed prepared statements and portals.
  pub answers-settle :
      (zs : List Frame) (s : ConnectionState)
      → IsSettled s
      → All (λ f. is_ready (tag f) (body f) ≡ true) zs
      → length (queue s).outstanding ≤ length zs
      → let t = session (map from_server zs) s in
        (t.cycles ≡ []) × (t.prepared ≡ t.confirmed_prepared) × (t.portals ≡ t.confirmed_portals)
  answers-settle zs s h known enough =
      let t = session (map from_server zs) s in
      let gone = no_ids t.cycles (omega (arith, answers-length zs s known)) in
      let (same, same') = session-IsSettled (map from_server zs) s h (ap is_empty gone) in
      (gone, same, same')
