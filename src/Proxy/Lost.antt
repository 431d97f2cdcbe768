-- ===== src/Proxy/Lost.antt =====
-- The end of a transaction that a scenario hides: neither the command tag nor the `Z` behind it
-- reaches the client.
use pgfault.Base.{
  ℕ, ◌==◌, ◌≡◌, ◌≢◌, refl, sym, ap, ◌∙◌, subst, inl, inr, Bool, true, false, ◌||◌, String, Option,
  some, List, [], ◌∷◌, ◌++◌, All, any, any-append, Bytes, arith, head?, Bool-cases, str_eq,
  str_eq_iff, nat_eq, string_eq, bytes_eq_instance,
}
use pgfault.Base.Word.{u64_succ}
use pgfault.Wire.{Frame, tag, body}
use pgfault.Events.{Event, begin}
use pgfault.Scenario.Matcher.{Matcher, selects, needs_gate, or_one}
use pgfault.Scenario.Validate.{is_some}
use pgfault.State.{ConnectionState, Cycle, TxState, event_at}
use pgfault.State.Backend.{backend, completed, completion_boundary, ready_state}
use pgfault.State.Emit.{recount}
use pgfault.State.Ends.{IsEnd, completed-IsEnd, tag-IsQuiet, ready-IsQuiet, ending_events}
use pgfault.State.Foretold.{answered, completion_boundary-completed}
use pgfault.Proxy.Effects.{Effect, continue}
use pgfault.Proxy.Relay.{Connection, Input, server, on_input, run, gates}
use pgfault.Proxy.Faults.{Fault, fired, disconnects_at, observed_all, or-true}
use pgfault.Proxy.Cut.{AllValid, observed_all-AllValid, run-Cuts}
use pgfault.Proxy.Due.{observe_due, observe_other, observed_all-other, answers_yes, fired-yes}
use pgfault.Proxy.Transparent.{rest_of}
use pgfault.Scenario.Firing.{answers}
use pgfault.Proxy.Kept.{IsLost, tag-IsKept, over-IsLost, kept-IsLost}

-- The matcher waits for an event of this name, selects this one and counts it as the one that its
-- scenario wants.
pub record IsDue (name : String) (e : Event) (m : Matcher) : Type 0 where
  pub waits : m.fired ≡ false
  pub named : m.scenario.when.event ≡ name
  pub picks : selects m.scenario e ≡ true
  pub counts : (u64_succ m.seen == or_one m.scenario.when.occurrence) ≡ true

-- The counters do not matter for a selection.
selects-recount :
    (x : Matcher) (name : String) (names : List String) (s : ConnectionState)
    → selects x.scenario (event_at name false (recount names s))
      ≡ selects x.scenario (event_at name false s)
unfolding selects event_at
selects-recount x name names s = refl

ending-answers_yes :
    (name : String) (s : ConnectionState) (m : Matcher) (es : List Event)
    → IsDue name (event_at name false s) m
    → s.reliable ≡ true
    → IsEnd name
    → answers_yes
        (event_at "backend.ready" false s
          ∷ event_at name false (recount ("backend.ready" ∷ []) s)
          ∷ es)
        m
      ≡ true
unfolding answers event_at
ending-answers_yes name s m es d reliable end =
    let e = event_at name false (recount ("backend.ready" ∷ []) s) in
    let first =
      observe_other (event_at "backend.ready" false s) m
        (ap (str_eq "backend.ready") d.named ∙ ready-IsQuiet s name end) in
    let second =
      observe_due e m reliable d.waits ((str_eq_iff name m.scenario.when.event).1 (sym d.named))
        (selects-recount m name ("backend.ready" ∷ []) s ∙ d.picks) d.counts in
    rw (first, second) refl

gates-waiting :
    (name : String) (before : List Matcher) (m : Matcher) (behind : List Matcher)
    → m.fired ≡ false
    → m.scenario.when.event ≡ name
    → any (needs_gate name) (before ++ m ∷ behind) ≡ true
unfolding needs_gate
gates-waiting name before m behind waits named =
    any-append (needs_gate name) before (m ∷ behind)
    ∙ ap (λ b. any (needs_gate name) before || (b || any (needs_gate name) behind)) mine
    ∙ sym (or-true (any (needs_gate name) before))
  where
    mine : needs_gate name m ≡ true
    mine = ground (arith, str_eq_iff m.scenario.when.event name)

-- The command tag is behind a gate, and the matcher fires at the `Z`.
pub due_fires :
    (f z : Frame) (c : Connection) (cy : Cycle) (now : TxState) (name : String)
    (before : List Matcher) (m : Matcher) (behind : List Matcher) (P : Fault → Bool)
    → c.matchers ≡ before ++ m ∷ behind
    → tag f ≡ b'C'
    → head? c.state.cycles ≡ some cy
    → (answered cy).class ≢ begin
    → tag z ≡ b'Z'
    → ready_state (body z) ≡ some now
    → completed now (backend f c.state).0 ≡ some name
    → IsDue name (event_at name false (backend f c.state).0) m
    → ((e : Event) → P (e, m.scenario) ≡ true)
    → (gates c.matchers (completion_boundary f c.state) ≡ true)
      × (any P (
            fired
              (backend z (backend f c.state).0).1
              (observed_all (backend f c.state).1 c.matchers))
          ≡ true)
due_fires f z c cy now name before m behind P all t first no_begin tz ready due d wants =
    let s1 = (backend f c.state).0 in
    let es = (backend f c.state).1 in
    let (now_idle, reliable, end) = completed-IsEnd now s1 due in
    let foretold = completion_boundary-completed f c.state cy now t first no_begin due in
    let others : All (λ e. str_eq e.event m.scenario.when.event ≡ false) es =
      subst (λ n. All (λ e. str_eq e.event n ≡ false) es) (sym d.named)
        (tag-IsQuiet f c.state name t end) in
    let stands : observed_all es c.matchers ≡ observed_all es before ++ m ∷ observed_all es behind =
      rw all (observed_all-other es before m behind others) in
    let (es3, events) =
      ending_events z s1 tz (ready ∙ ap some now_idle)
        (subst (λ n. completed n s1 ≡ some name) now_idle due) in
    (
      rw (foretold, all) (gates-waiting name before m behind d.waits d.named),
      rw (events, stands)
          (fired-yes P _ (observed_all es before) m (observed_all es behind)
            (ending-answers_yes name s1 m es3 d reliable end) wants),
    )

module _ (digest : Bytes → String) (parse_duration : String → Option ℕ) (id : ℕ) where
  step-IsLost :
      (i : Input) (is : List Input) (c : Connection) (w : List Effect)
      → IsLost w
          (continue (on_input digest parse_duration id i c w) (rest_of parse_duration digest id is))
      → IsLost w (run digest parse_duration id (i ∷ is) c w)
  unfolding run
  step-IsLost i is c w k = k

  -- Where the scenarios of a connection are valid, a command tag `C` answers a statement that is
  -- not a `BEGIN`, a `Z` with a known state stands directly behind it, for which the end of a
  -- transaction is due, and a matcher that has not fired waits for that event, selects it,
  -- reaches its occurrence at it and ends the connection: then, whatever comes behind the two
  -- frames, the connection is over, and nothing of them, nor of what was held, was written to
  -- either side.
  pub ending-IsLost :
      (f z : Frame) (is : List Input) (c : Connection) (w : List Effect) (cy : Cycle)
      (now : TxState) (name : String) (before : List Matcher) (m : Matcher) (behind : List Matcher)
      → AllValid parse_duration c.matchers
      → c.matchers ≡ before ++ m ∷ behind
      → tag f ≡ b'C'
      → head? c.state.cycles ≡ some cy
      → (answered cy).class ≢ begin
      → tag z ≡ b'Z'
      → ready_state (body z) ≡ some now
      → completed now (backend f c.state).0 ≡ some name
      → IsDue name (event_at name false (backend f c.state).0) m
      → is_some m.scenario.action.disconnect ≡ true
      → IsLost w (run digest parse_duration id (server f ∷ server z ∷ is) c w)
  unfolding on_input
  ending-IsLost f z is c w cy now name before m behind valid all t first no_begin tz ready due d
        ends =
      let es = (backend f c.state).1 in
      let (gated, at_end) =
        due_fires f z c cy now name before m behind disconnects_at all t first no_begin tz ready due
          d (λ e. ends) in
      elim (Bool-cases (any disconnects_at (fired es c.matchers))) [
        | inl cut ↦
            over-IsLost digest parse_duration id w w _ _ (refl, refl)
              (run-Cuts parse_duration digest id (server f) (server z ∷ is) c w valid cut)
        | inr goes_on ↦
            let (v, silent, kept) =
              tag-IsKept digest parse_duration id f c w valid t gated goes_on in
            step-IsLost (server f) (server z ∷ is) c w (
              kept-IsLost digest parse_duration id z is (backend f c.state).0
                (observed_all es c.matchers) w v _
                (observed_all-AllValid parse_duration es c.matchers valid) at_end silent kept)
      ]
