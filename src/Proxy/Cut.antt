-- ===== src/Proxy/Cut.antt =====
-- A frame at which a scenario ends the connection.
use pgfault.Base.{
  ℕ, ◌≡◌, refl, sym, ap, ◌∙◌, subst, true, ◌||◌, String, Option, none, some, List, [], ◌∷◌, ◌++◌,
  All, any, Bytes, nat_eq, string_eq, bytes_eq_instance,
}
use pgfault.Base.Result.{Result, ok}
use pgfault.Events.{Event}
use pgfault.Scenario.Matcher.{Matcher}
use pgfault.Scenario.Firing.{observe-scenario}
use pgfault.State.Frontend.{frontend}
use pgfault.State.Backend.{backend}
use pgfault.Proxy.Effects.{Effect, ProxyError, continue}
use pgfault.Proxy.Apply.{Faults, apply}
use pgfault.Proxy.Relay.{
  Connection, Input, client, server, client_closed, server_closed, client_broken, server_broken,
  on_client, on_server, on_input, run, forward, faults,
}
use pgfault.Proxy.Sent.{upstream, downstream}
use pgfault.Proxy.Outcome.{Leaves}
use pgfault.Proxy.Silent.{Silent, apply-IsSilent}
use pgfault.Proxy.Faults.{Fault, faults_of, fired, disconnects_at, observed, observed_all, or-true}
use pgfault.Proxy.Fired.{Timed, AllTimed, apply-fired}
use pgfault.Proxy.Transparent.{rest_of}
use pgfault.Scenario.{Delay}
use pgfault.Scenario.Validate.{validate}
use pgfault.Scenario.Conditions.{Delays}
use pgfault.Scenario.Valid.{validate_iff}
use pgfault.State.{ConnectionState}

-- A step that ends the connection, writes to neither socket, and records these faults.
pub record Cuts (w : List Effect) (fs : List Fault)
    (p : List Effect × Result ProxyError (Option Connection)) : Type 0 where
  pub ended : p.1 ≡ ok none
  pub unsent : upstream p.0 ≡ upstream w
  pub undelivered : downstream p.0 ≡ downstream w
  pub traced : faults_of p.0 ≡ faults_of w ++ fs

module _ (parse_duration : String → Option ℕ) where
  abbrev pub AllValid : List Matcher → Type 0
  AllValid ms = All (λ m. validate parse_duration m.scenario ≡ ok tt) ms

  Delays-Timed :
      (event : String) (d : Option Delay) → Delays parse_duration event d → Timed parse_duration d
  Delays-Timed event none k = tt
  Delays-Timed event (some d) k = (k.nanoseconds, k.parsed)

  pub AllValid-AllTimed : (ms : List Matcher) → AllValid ms → AllTimed parse_duration ms
  AllValid-AllTimed [] valid = tt
  AllValid-AllTimed (m ∷ ms) (valid, others) =
      let k = (validate_iff parse_duration m.scenario).0 valid in
      (
        Delays-Timed m.scenario.when.event m.scenario.action.delay k.delays,
        AllValid-AllTimed ms others,
      )

  pub observed-AllValid : (e : Event) (ms : List Matcher) → AllValid ms → AllValid (observed e ms)
  observed-AllValid e [] valid = tt
  observed-AllValid e (m ∷ ms) (v, valid) =
      (rw (observe-scenario e m) v, observed-AllValid e ms valid)

  pub observed_all-AllValid :
      (es : List Event) (ms : List Matcher) → AllValid ms → AllValid (observed_all es ms)
  observed_all-AllValid [] ms valid = valid
  observed_all-AllValid (e ∷ es) ms valid =
      observed_all-AllValid es (observed e ms) (observed-AllValid e ms valid)

  -- What `apply` does where one of the fired faults ends the connection.
  disconnected :
      (es : List Event) (ms : List Matcher) (x : Faults) (w : List Effect)
      → AllValid ms
      → any disconnects_at (fired es ms) ≡ true
      → (v : List Effect) × (y : Faults) × (apply parse_duration es ms x w
          ≡ (v, ok (observed_all es ms, y)))
        × (y.disposition.disconnect ≡ true)
        × Cuts w (fired es ms) (v, ok none)
  disconnected es ms x w valid ends =
      let (v, y, runs, k) = apply-fired parse_duration es ms x w (AllValid-AllTimed ms valid) in
      let (u, d) =
        subst (Leaves (λ v a. Silent w v) (λ v. Silent w v)) runs
          (apply-IsSilent parse_duration es ms x w) in
      (
        v,
        y,
        runs,
        k.disconnected
            ∙ ap (λ b. x.disposition.disconnect || b) ends
            ∙ sym (or-true x.disposition.disconnect),
        record { ended = refl; unsent = u; undelivered = d; traced = k.traced },
      )

  module _ (digest : Bytes → String) (id : ℕ) where
    -- The events of a frame.
    abbrev pub events_of : Input → ConnectionState → List Event
    events_of (client f) s = (frontend digest f s).1
    events_of (server f) s = (backend f s).1
    events_of _ s = []

    on_input-Cuts :
        (i : Input) (c : Connection) (w : List Effect)
        → AllValid c.matchers
        → any disconnects_at (fired (events_of i c.state) c.matchers) ≡ true
        → Cuts w (fired (events_of i c.state) c.matchers) (on_input digest parse_duration id i c w)
    unfolding on_input on_client on_server forward
    on_input-Cuts (client f) c w valid ends =
        let (v, y, runs, cut, k) =
          disconnected (frontend digest f c.state).1 c.matchers (faults c) w valid ends in
        rw (runs, cut) k
    on_input-Cuts (server f) c w valid ends =
        let (v, y, runs, cut, k) =
          disconnected (backend f c.state).1 c.matchers (faults c) w valid ends in
        rw (runs, cut) k
    on_input-Cuts client_closed c w valid ends = let bad : ⊥ = cc in elim bad [ ]
    on_input-Cuts server_closed c w valid ends = let bad : ⊥ = cc in elim bad [ ]
    on_input-Cuts (client_broken e) c w valid ends = let bad : ⊥ = cc in elim bad [ ]
    on_input-Cuts (server_broken e) c w valid ends = let bad : ⊥ = cc in elim bad [ ]

    then_over :
        (is : List Input) (w : List Effect) (fs : List Fault)
        (p : List Effect × Result ProxyError (Option Connection))
        → Cuts w fs p
        → Cuts w fs (continue p (rest_of parse_duration digest id is))
    then_over is w fs p k =
        rw k.ended (record {
          ended = refl;
          unsent = k.unsent;
          undelivered = k.undelivered;
          traced = k.traced;
        })

    -- Where the scenarios of a connection are valid, and one that fires at the events of a frame
    -- ends the connection, then whatever comes behind the frame, the relay ends there without an
    -- error, writes nothing of the frame and nothing that it held to either side, and records
    -- exactly the fired faults.
    pub run-Cuts :
        (i : Input) (is : List Input) (c : Connection) (w : List Effect)
        → AllValid c.matchers
        → any disconnects_at (fired (events_of i c.state) c.matchers) ≡ true
        → Cuts w
            (fired (events_of i c.state) c.matchers)
            (run digest parse_duration id (i ∷ is) c w)
    unfolding run
    run-Cuts i is c w valid ends =
        then_over is w (fired (events_of i c.state) c.matchers)
          (on_input digest parse_duration id i c w) (on_input-Cuts i c w valid ends)
