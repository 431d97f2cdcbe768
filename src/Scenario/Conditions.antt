-- ===== src/Scenario/Conditions.antt =====
-- What a valid scenario is, said without the code that tells it.
use pgfault.Base.{
  ℕ, ◌≤◌, ◌≡◌, ◌≢◌, ◌↔◌, ◌⊎◌, List, [], ◌∷◌, ◌*◌, false, String, Option, none, some, nat_eq,
  string_eq, bytes_eq_instance,
}
use pgfault.Base.Text.{is_blank}
use pgfault.Scenario.{Scenario, Delay, Direction, Action}

abbrev pub IsOneOf : List String → String → Type 0
IsOneOf [] name = ⊥
IsOneOf (x ∷ xs) name = (name ≡ x) ⊎ IsOneOf xs name

-- The events that a scenario may wait for.
abbrev pub known_names : List String
known_names =
    "query.received" ∷ "query.forwarded" ∷ "statement.execution_started"
    ∷ "statement.execution_completed" ∷ "transaction.begin.requested"
    ∷ "transaction.commit.requested" ∷ "transaction.commit.completed"
    ∷ "transaction.rollback.requested" ∷ "transaction.rollback.completed"
    ∷ "transaction.implicit.completed" ∷ "transaction.failed" ∷ "result.started" ∷ "result.row"
    ∷ "result.completed" ∷ "connection.ready" ∷ "frontend.execute" ∷ "frontend.sync"
    ∷ "backend.error" ∷ "backend.command_complete" ∷ "backend.ready" ∷ []

-- Those that come with frames of the client.
abbrev pub client_names : List String
client_names =
    "query.received" ∷ "query.forwarded" ∷ "statement.execution_started"
    ∷ "transaction.begin.requested" ∷ "transaction.commit.requested"
    ∷ "transaction.rollback.requested" ∷ "frontend.execute" ∷ "frontend.sync" ∷ []

-- A delay is a duration of at most 24 hours, and upstream exactly if the event is the client's.
pub record IsDelay (parse_duration : String → Option ℕ) (event : String) (d : Delay) : Type 0 where
  pub nanoseconds : ℕ
  pub parsed : parse_duration d.duration ≡ some nanoseconds
  pub short : nanoseconds ≤ 24 * 60 * 60 * 1000000000
  pub directed : (d.direction ≡ Direction.upstream) ↔ IsOneOf client_names event

abbrev pub Delays : (String → Option ℕ) → String → Option Delay → Type 0
Delays parse_duration event none = Unit {0}
Delays parse_duration event (some d) = IsDelay parse_duration event d

-- One of the four is there.
abbrev pub Acts : Action → Type 0
Acts a =
    (a.suppress ≢ none) ⊎ ((a.disconnect ≢ none) ⊎ ((a.delay ≢ none) ⊎ (a.truncate_result ≢ none)))

pub record IsValid (parse_duration : String → Option ℕ) (s : Scenario) : Type 0 where
  pub version_one : s.version ≡ 1
  pub named : is_blank s.name ≡ false
  pub known : IsOneOf known_names s.when.event
  pub occurrence_based : s.when.occurrence ≢ some 0
  pub row_based : s.when.row ≢ some 0
  pub ordinal_based : s.selector.connection_ordinal ≢ some 0
  pub delays : Delays parse_duration s.when.event s.action.delay
  pub acts : Acts s.action
  pub truncates : s.action.truncate_result ≢ none → s.when.event ≡ "result.started"
