-- ===== src/Proxy/Fired.antt =====
-- `apply`, as the faults that it fires: what they do to the disposition, and that they are recorded.
use pgfault.Base.{
  ℕ, if◌then◌else◌, ◌≡◌, refl, ap, ◌∙◌, inl, inr, ◌||◌, String, Option, none, some, List, [], ◌∷◌,
  ◌++◌, All, Bool-cases, Option-cases, nat_eq, string_eq, bytes_eq_instance,
}
use pgfault.Base.Result.{ok}
use pgfault.Events.{Event}
use pgfault.Scenario.{Scenario, Delay, Disconnect, Action}
use pgfault.Scenario.Validate.{is_some}
use pgfault.Scenario.Matcher.{Matcher, observe}
use pgfault.Scenario.Firing.{observe-scenario}
use pgfault.Trace.{semantic, fault}
use pgfault.Proxy.Effects.{Effect, recorded, slept, pure}
use pgfault.Proxy.Apply.{
  Faults, suppresses, with_suppress, with_truncate, sever, wait, disconnect, fire, apply_event,
  apply,
}
use pgfault.Proxy.Faults.{
  observed, observed_all, fired_at, fired, faults_of, truncation, IsApplied, or-false, or-true,
  untraced, sever-fault_of, IsApplied-nil, IsApplied-after, IsApplied-trans, faults_of-append,
}

module _ (parse_duration : String → Option ℕ) where
  -- The delay, if there is one, has a duration.
  abbrev pub Timed : Option Delay → Type 0
  Timed none = Unit {0}
  Timed (some d) = (n : ℕ) × (parse_duration d.duration ≡ some n)

  abbrev pub AllTimed : List Matcher → Type 0
  AllTimed ms = All (λ m. Timed m.scenario.action.delay) ms

  wait-Timed :
      (d : Option Delay) (w : List Effect)
      → Timed d
      → (v : List Effect) × (wait parse_duration d w ≡ (v, ok tt)) × (faults_of v ≡ faults_of w)
  wait-Timed none w h = (w, refl, refl)
  wait-Timed (some d) w (n, e) = (w ++ slept n ∷ [], rw (e, wait) refl, untraced w (slept n) refl)

  disconnect_runs :
      (d : Option Disconnect) (x : Faults) (w : List Effect)
      → (v : List Effect) × (y : Faults) × (disconnect parse_duration d x w ≡ (v, ok y))
        × (faults_of v ≡ faults_of w)
        × (y.disposition.disconnect ≡ (x.disposition.disconnect || is_some d))
        × (y.disposition.suppress ≡ x.disposition.suppress)
        × (y.truncate ≡ x.truncate)
  disconnect_runs none x w = (w, x, refl, refl, or-false x.disposition.disconnect, refl, refl)
  disconnect_runs (some k) x w = (
    w ++ sever k.mode k.side ∷ [],
    _,
    refl,
    untraced w (sever k.mode k.side) (sever-fault_of k.mode k.side),
    or-true x.disposition.disconnect,
    refl,
    refl,
  )

  with_suppress_lem :
      (a : Action) (x : Faults)
      → let y = with_suppress a x in
        (y.disposition.suppress ≡ (x.disposition.suppress || suppresses a.suppress))
        × (y.disposition.disconnect ≡ x.disposition.disconnect)
        × (y.truncate ≡ x.truncate)
  with_suppress_lem a x = elim (Bool-cases (suppresses a.suppress)) [
    | inl yes_ ↦ rw yes_ (or-true x.disposition.suppress, refl, refl)
    | inr no_ ↦ rw no_ (or-false x.disposition.suppress, refl, refl)
  ]

  with_truncate_lem :
      (e : Event) (s : Scenario) (x : Faults)
      → let y = with_truncate s.action x in
        (y.disposition ≡ x.disposition) × (y.truncate ≡ truncation ((e, s) ∷ []) x.truncate)
  with_truncate_lem e s x = elim (Option-cases s.action.truncate_result) [
    | inl none_ ↦ rw none_ (refl, refl)
    | inr (k, some_) ↦ rw some_ (refl, refl)
  ]

  fire_runs :
      (e : Event) (s : Scenario) (x : Faults) (w : List Effect)
      → Timed s.action.delay
      → (v : List Effect) × (y : Faults) × (fire parse_duration e s x w ≡ (v, ok y))
        × IsApplied w x ((e, s) ∷ []) v y
  unfolding fire
  fire_runs e s x w timed =
      let w1 = w ++ recorded (fault e s) ∷ [] in
      let x1 = with_suppress s.action x in
      let x2 = with_truncate s.action x1 in
      let (w2, waits, same) = wait-Timed s.action.delay w1 timed in
      let (v, y, ends, same', cut, kept, left) = disconnect_runs s.action.disconnect x2 w2 in
      let (one, two, three) = with_suppress_lem s.action x in
      let (four, five) = with_truncate_lem e s x1 in
      (
        v,
        y,
        rw (waits, ends) refl,
        record {
          suppressed =
              kept
              ∙ ap (λ d. d.suppress) four
              ∙ one
              ∙ ap (λ b. x.disposition.suppress || b) (or-false (suppresses s.action.suppress));
          disconnected =
              cut
              ∙ ap (λ b. b || is_some s.action.disconnect) (ap (λ d. d.disconnect) four ∙ two)
              ∙ ap (λ b. x.disposition.disconnect || b) (or-false (is_some s.action.disconnect));
          truncated = left ∙ five ∙ ap (truncation ((e, s) ∷ [])) three;
          traced = same' ∙ same ∙ faults_of-append w (recorded (fault e s) ∷ []);
        },
      )

  -- Whether or not the matcher fires.
  turn_runs :
      (e : Event) (m : Matcher) (x : Faults) (w : List Effect)
      → Timed m.scenario.action.delay
      → let step = if (observe e m).1 then fire parse_duration e m.scenario x else pure x in
        (v : List Effect) × (y : Faults) × (step w ≡ (v, ok y))
        × IsApplied w x (if (observe e m).1 then (e, m.scenario) ∷ [] else []) v y
  turn_runs e m x w timed = elim (Bool-cases (observe e m).1) [
    | inl fires ↦ rw fires (fire_runs e m.scenario x w timed)
    | inr passes ↦ rw passes (w, x, refl, IsApplied-nil w x)
  ]

  apply_event_runs :
      (e : Event) (ms : List Matcher) (x : Faults) (w : List Effect)
      → AllTimed ms
      → (v : List Effect) × (y : Faults) × (apply_event parse_duration e ms x w
          ≡ (v, ok (observed e ms, y)))
        × IsApplied w x (fired_at e ms) v y
  unfolding apply_event
  apply_event_runs e [] x w timed = (w, x, refl, IsApplied-nil w x)
  apply_event_runs e (m ∷ ms) x w (timed, others) =
      let (w1, x1, first, done) = turn_runs e m x w timed in
      let (v, y, rest, done') = apply_event_runs e ms x1 w1 others in
      (v, y, rw (first, rest) refl, IsApplied-trans _ (fired_at e ms) done done')

  observed-AllTimed : (e : Event) (ms : List Matcher) → AllTimed ms → AllTimed (observed e ms)
  observed-AllTimed e [] timed = tt
  observed-AllTimed e (m ∷ ms) (timed, others) =
      (rw (observe-scenario e m) timed, observed-AllTimed e ms others)

  -- For any events and matchers whose delays have durations, `apply` ends without an error, the
  -- matchers have observed all events in order, the frame is suppressed, or the connection
  -- ended, exactly if it was before or one of the fired faults wants it, the truncation is that
  -- of the last fired fault that has one, and the faults recorded in the trace are exactly the
  -- fired ones, in order.
  pub apply-fired :
      (es : List Event) (ms : List Matcher) (x : Faults) (w : List Effect)
      → AllTimed ms
      → (v : List Effect) × (y : Faults) × (apply parse_duration es ms x w
          ≡ (v, ok (observed_all es ms, y)))
        × IsApplied w x (fired es ms) v y
  unfolding apply
  apply-fired [] ms x w timed = (w, x, refl, IsApplied-nil w x)
  apply-fired (e ∷ es) ms x w timed =
      let w0 = w ++ recorded (semantic e) ∷ [] in
      let (w1, x1, first, done) = apply_event_runs e ms x w0 timed in
      let (v, y, rest, done') =
        apply-fired es (observed e ms) x1 w1 (observed-AllTimed e ms timed) in
      (
        v,
        y,
        rw (first, rest) refl,
        IsApplied-after (untraced w (recorded (semantic e)) refl)
            (IsApplied-trans (fired_at e ms) (fired es (observed e ms)) done done'),
      )
