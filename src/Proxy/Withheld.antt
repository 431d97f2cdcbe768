-- ===== src/Proxy/Withheld.antt =====
-- The end of a transaction that a scenario suppresses: neither the command tag nor the `Z` behind
-- it reaches the client, also where the connection goes on.
use pgfault.Base.{
  ℕ, ◌≡◌, ◌≢◌, refl, sym, ◌∙◌, subst, inl, inr, Bool, true, false, String, Option, none, some, List,
  [], ◌∷◌, ◌++◌, any, Bytes, head?, Bool-cases, nat_eq, string_eq, bytes_eq_instance,
}
use pgfault.Base.Result.{Result, ok, err}
use pgfault.Wire.{Frame, tag, body}
use pgfault.Events.{begin}
use pgfault.Scenario.Matcher.{Matcher}
use pgfault.State.{ConnectionState, Cycle, TxState, event_at}
use pgfault.State.Backend.{backend, completed, completion_boundary, ready_state}
use pgfault.State.Foretold.{answered}
use pgfault.Proxy.Effects.{Effect, ProxyError, continue}
use pgfault.Proxy.Apply.{suppresses}
use pgfault.Proxy.Relay.{
  Connection, Input, server, on_server, on_input, run, deliver, pass_on, release, gates, faults,
}
use pgfault.Proxy.Faults.{fired, disconnects_at, suppresses_at, observed_all}
use pgfault.Proxy.Fired.{apply-fired}
use pgfault.Proxy.Cut.{AllValid, AllValid-AllTimed, observed_all-AllValid, run-Cuts}
use pgfault.Proxy.Silent.{Silent, Silent-trans, apply-IsSilent}
use pgfault.Proxy.Outcome.{Leaves}
use pgfault.Proxy.Transparent.{rest_of}
use pgfault.Proxy.Kept.{IsKept, tag-IsKept}
use pgfault.Proxy.Lost.{IsDue, due_fires}

-- If the connection goes on, it holds nothing.
abbrev pub HoldsNothing : Result ProxyError (Option Connection) → Type 0
HoldsNothing (ok (some c)) = (c.held ≡ []) × (c.held_size ≡ 0)
HoldsNothing (ok none) = Unit {0}
HoldsNothing (err e) = Unit {0}

-- Nothing is written to either side, nor will be of what came so far.
pub record IsWithheld (w : List Effect) (p : List Effect × Result ProxyError (Option Connection))
    : Type 0 where
  pub silent : Silent w p.0
  pub dropped : HoldsNothing p.1

IsWithheld-after :
    (w v : List Effect) (p : List Effect × Result ProxyError (Option Connection))
    → Silent w v
    → IsWithheld v p
    → IsWithheld w p
IsWithheld-after w v p s k = record {
  silent = Silent-trans w v p.0 s k.silent;
  dropped = k.dropped;
}

deliver-suppressed :
    (id : ℕ) (z : Frame) (gate : Bool) (c : Connection) (w : List Effect)
    → tag z ≡ b'Z'
    → IsWithheld w (deliver id z gate true c w)
unfolding deliver pass_on release
deliver-suppressed id z gate c w t = rw t (record { silent = (refl, refl); dropped = (refl, refl) })

module _ (digest : Bytes → String) (parse_duration : String → Option ℕ) (id : ℕ) where
  at-IsWithheld :
      (z : Frame) (c : Connection) (w : List Effect)
      → AllValid parse_duration c.matchers
      → tag z ≡ b'Z'
      → any suppresses_at (fired (backend z c.state).1 c.matchers) ≡ true
      → IsWithheld w (on_server digest parse_duration id z c w)
  unfolding on_server
  at-IsWithheld z c w valid t hides =
      let es = (backend z c.state).1 in
      let (v, y, runs, k) =
        apply-fired parse_duration es c.matchers (faults c) w
          (AllValid-AllTimed parse_duration c.matchers valid) in
      let silent =
        subst (Leaves (λ v a. Silent w v) (λ v. Silent w v)) runs
          (apply-IsSilent parse_duration es c.matchers (faults c) w) in
      let suppressed : y.disposition.suppress ≡ true = k.suppressed ∙ hides in
      let c1 : Connection = record c {
        state = (backend z c.state).0;
        matchers = observed_all es c.matchers;
        truncate = y.truncate;
      } in
      let gate = gates c.matchers (completion_boundary z c.state) in
      let rest = deliver-suppressed id z gate c1 v t in
      elim (Bool-cases y.disposition.disconnect) [
        | inl cut ↦ rw (runs, cut) (record { silent = silent; dropped = tt })
        | inr open_ ↦
            rw (runs, open_, suppressed)
              (IsWithheld-after w v (deliver id z gate true c1 v) silent rest)
      ]

  -- Where nothing more comes.
  last-IsWithheld :
      (w : List Effect) (p : List Effect × Result ProxyError (Option Connection))
      → IsWithheld w p
      → IsWithheld w (continue p (rest_of parse_duration digest id []))
  unfolding run
  last-IsWithheld w (v, ok none) k = record { silent = k.silent; dropped = tt }
  last-IsWithheld w (v, ok (some c)) k = record { silent = k.silent; dropped = k.dropped }
  last-IsWithheld w (v, err e) k = record { silent = k.silent; dropped = tt }

  kept-IsWithheld :
      (z : Frame) (s : ConnectionState) (ms : List Matcher) (w v : List Effect)
      (p : List Effect × Result ProxyError (Option Connection))
      → AllValid parse_duration ms
      → tag z ≡ b'Z'
      → any suppresses_at (fired (backend z s).1 ms) ≡ true
      → Silent w v
      → IsKept s ms v p
      → IsWithheld w (continue p (rest_of parse_duration digest id (server z ∷ [])))
  unfolding run on_input
  kept-IsWithheld z s ms w v p valid t hides silent (same, inl (e, fails)) =
      rw fails (record { silent = subst (Silent w) (sym same) silent; dropped = tt })
  kept-IsWithheld z s ms w v p valid t hides silent (same, inr (c, goes, at_s, at_ms)) =
      let hides' : any suppresses_at (fired (backend z c.state).1 c.matchers) ≡ true =
        rw (at_s, at_ms) hides in
      let q = on_server digest parse_duration id z c p.0 in
      let k =
        last-IsWithheld p.0 q
          (at-IsWithheld z c p.0 (subst (AllValid parse_duration) (sym at_ms) valid) t hides') in
      rw goes (
        IsWithheld-after w p.0 (continue q (rest_of parse_duration digest id []))
          (subst (Silent w) (sym same) silent) k)

  step-IsWithheld :
      (i : Input) (is : List Input) (c : Connection) (w : List Effect)
      → IsWithheld w
          (continue (on_input digest parse_duration id i c w) (rest_of parse_duration digest id is))
      → IsWithheld w (run digest parse_duration id (i ∷ is) c w)
  unfolding run
  step-IsWithheld i is c w k = k

  -- Where the scenarios of a connection are valid, a command tag `C` answers a statement that is
  -- not a `BEGIN`, a `Z` with a known state stands directly behind it, for which the end of a
  -- transaction is due, and a matcher that has not fired waits for that event, selects it,
  -- reaches its occurrence at it and suppresses it: then nothing of the two frames, nor of what
  -- was held, was written to either side behind them, and if the connection goes on, it holds
  -- nothing.
  pub ending-IsWithheld :
      (f z : Frame) (c : Connection) (w : List Effect) (cy : Cycle) (now : TxState) (name : String)
      (before : List Matcher) (m : Matcher) (behind : List Matcher)
      → AllValid parse_duration c.matchers
      → c.matchers ≡ before ++ m ∷ behind
      → tag f ≡ b'C'
      → head? c.state.cycles ≡ some cy
      → (answered cy).class ≢ begin
      → tag z ≡ b'Z'
      → ready_state (body z) ≡ some now
      → completed now (backend f c.state).0 ≡ some name
      → IsDue name (event_at name false (backend f c.state).0) m
      → suppresses m.scenario.action.suppress ≡ true
      → IsWithheld w (run digest parse_duration id (server f ∷ server z ∷ []) c w)
  unfolding on_input
  ending-IsWithheld f z c w cy now name before m behind valid all t first no_begin tz ready due d
        hides =
      let es = (backend f c.state).1 in
      let (gated, at_end) =
        due_fires f z c cy now name before m behind suppresses_at all t first no_begin tz ready due
          d (λ e. hides) in
      elim (Bool-cases (any disconnects_at (fired es c.matchers))) [
        | inl cut ↦
            let k = run-Cuts parse_duration digest id (server f) (server z ∷ []) c w valid cut in
            record { silent = (k.unsent, k.undelivered); dropped = rw k.ended tt }
        | inr goes_on ↦
            let (v, silent, kept) =
              tag-IsKept digest parse_duration id f c w valid t gated goes_on in
            step-IsWithheld (server f) (server z ∷ []) c w (
              kept-IsWithheld z (backend f c.state).0 (observed_all es c.matchers) w v _
                (observed_all-AllValid parse_duration es c.matchers valid) tz at_end silent kept)
      ]
