-- ===== src/Proxy/Apply.antt =====
-- `apply`: the events of a frame against the matchers of the connection.
use pgfault.Base.{ℕ, if◌then◌else◌, Bool, true, false, String, Option, none, some, List, [], ◌∷◌}
use pgfault.Events.{Event}
use pgfault.Scenario.{Scenario, Action, Suppress, Disconnect, Delay, Side, Mode, close, reset}
use pgfault.Scenario.Matcher.{Matcher, observe}
use pgfault.Trace.{semantic, fault}
use pgfault.Proxy.Effects.{
  M, pure, fail, ◌>>=◌, ◌>>◌, tell, recorded, slept, Effect, shut_down, invalid_duration,
}

pub record Disposition : Type 0 where
  pub suppress : Bool
  pub disconnect : Bool

-- `Disposition::default()`
abbrev pub pass : Disposition
pass = record { suppress = false; disconnect = false }

-- What `apply` changes: the disposition, and the truncation of the connection.
pub record Faults : Type 0 where
  pub disposition : Disposition
  pub truncate : Option ℕ

abbrev pub suppresses : Option Suppress → Bool
suppresses none = false
suppresses (some s) = s.current

abbrev pub with_suppress : Action → Faults → Faults
with_suppress a x =
    let d = x.disposition in
    if suppresses a.suppress then record x { disposition = record d { suppress = true } } else x

abbrev pub with_truncate : Action → Faults → Faults
with_truncate a x = elim a.truncate_result [
  | none ↦ x
  | some t ↦ record x { truncate = some t.after_rows }
]

abbrev pub sever : Mode → Side → Effect
sever close side = shut_down side
sever reset side = Effect.reset side

module _ (parse_duration : String → Option ℕ) where
  abbrev pub wait : Option Delay → M (Unit {0})
  wait none = pure tt
  wait (some d) = elim (parse_duration d.duration) [
    | none ↦ fail invalid_duration
    | some n ↦ tell (slept n)
  ]

  abbrev pub disconnect : Option Disconnect → Faults → M Faults
  disconnect none x = pure x
  disconnect (some k) x =
      let d = x.disposition in
      do
        tell (sever k.mode k.side)
        pure (record x { disposition = record d { disconnect = true } })

  -- The action of a scenario that has fired at `e`.
  unfoldable pub fire : Event → Scenario → Faults → M Faults
  fire e s x = do
    tell (recorded (fault e s))
    wait s.action.delay
    disconnect s.action.disconnect (with_truncate s.action (with_suppress s.action x))

  -- One event, against each matcher in turn.
  unfoldable pub apply_event : Event → List Matcher → Faults → M (List Matcher × Faults)
  unfolding fire
  apply_event e [] x = pure ([], x)
  apply_event e (m ∷ ms) x = do
    x1 ← if (observe e m).1 then fire e m.scenario x else pure x
    (ms1, x2) ← apply_event e ms x1
    pure ((observe e m).0 ∷ ms1, x2)

  unfoldable pub apply : List Event → List Matcher → Faults → M (List Matcher × Faults)
  unfolding apply_event
  apply [] ms x = pure (ms, x)
  apply (e ∷ es) ms x = do
    tell (recorded (semantic e))
    (ms1, x1) ← apply_event e ms x
    apply es ms1 x1
