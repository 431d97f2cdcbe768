-- ===== src/Scenario/Validate.antt =====
-- `Scenario::validate`. `parse_duration` is the library's: a duration in nanoseconds, if the text is
-- one.
use pgfault.Base.{
  ℕ, ◌*◌, ◌^◌, ltb, ◌==◌, Bool, true, false, not, ◌&&◌, ◌||◌, String, Option, none, some, List, [],
  ◌∷◌, str_eq,
}
use pgfault.Base.Result.{Result, ok, err, ◌>>◌}
use pgfault.Base.Text.{is_blank}
use pgfault.Events.{events, is}
use pgfault.Scenario.{Scenario, Action, Delay, Direction}

pub data ScenarioError : Type 0 where
  unsupported_version empty_name unknown_event zero_based zero_ordinal : ScenarioError
  invalid_duration delay_too_long wrong_direction no_action truncate_elsewhere : ScenarioError

abbrev pub Checked : Type 0
Checked = Result ScenarioError (Unit {0})

-- `if b { bail!(e) }`
abbrev pub bail_if : Bool → ScenarioError → Checked
bail_if true e = err e
bail_if false e = ok tt

abbrev pub is_zero : Option ℕ → Bool
is_zero none = false
is_zero (some n) = n == 0

abbrev pub is_some {ℓ} : {A : Type ℓ} → Option A → Bool
is_some none = false
is_some (some a) = true

abbrev pub is_upstream : Direction → Bool
is_upstream Direction.upstream = true
is_upstream Direction.downstream = false

-- The events of frames that go upstream.
abbrev pub upstream_events : List String
upstream_events =
    "query.received" ∷ "query.forwarded" ∷ "statement.execution_started"
    ∷ "transaction.begin.requested" ∷ "transaction.commit.requested"
    ∷ "transaction.rollback.requested" ∷ "frontend.execute" ∷ "frontend.sync" ∷ []

-- 24 hours.
abbrev pub longest_delay : ℕ
longest_delay = 86400 * 10 ^ 9

abbrev pub same : Bool → Bool → Bool
same true b = b
same false b = not b

unfoldable pub check_delay : (String → Option ℕ) → String → Option Delay → Checked
check_delay parse_duration event none = ok tt
check_delay parse_duration event (some d) = elim (parse_duration d.duration) [
  | none ↦ err invalid_duration
  | some duration ↦ do
    bail_if (ltb longest_delay duration) delay_too_long
    bail_if (not (same (is upstream_events event) (is_upstream d.direction))) wrong_direction
]

abbrev pub has_action : Action → Bool
has_action a =
    is_some a.suppress || is_some a.disconnect || is_some a.delay || is_some a.truncate_result

unfoldable pub validate : (String → Option ℕ) → Scenario → Checked
unfolding check_delay
validate parse_duration s = do
  bail_if (not (s.version == 1)) unsupported_version
  bail_if (is_blank s.name) empty_name
  bail_if (not (is events s.when.event)) unknown_event
  bail_if (is_zero s.when.occurrence || is_zero s.when.row) zero_based
  bail_if (is_zero s.selector.connection_ordinal) zero_ordinal
  check_delay parse_duration s.when.event s.action.delay
  bail_if (not (has_action s.action)) no_action
  bail_if (is_some s.action.truncate_result && not (str_eq s.when.event "result.started"))
      truncate_elsewhere
