-- ===== src/Trace.antt =====
-- crates/pgfault-trace/src/lib.rs: the trace of a run, and the scenarios that replay its faults. JSON
-- is the library's: `to_json` and `from_json` are parameters. A file is the list of its lines.
pub mod Pin
pub mod Again
pub mod Replay
pub mod Returns
use pgfault.Base.{
  ℕ, suc, if◌then◌else◌, String, Option, none, some, List, [], ◌∷◌, ◌++◌, any, is_empty, str_eq,
}
use pgfault.Base.Result.{Result, ok, err, ◌>>=◌}
use pgfault.Events.{Event}
use pgfault.Scenario.{Scenario}
use pgfault.Scenario.Validate.{ScenarioError, validate}

pub data Record : Type 0 where
  semantic : Event → Record
  fault : Event → Scenario → Record
  lifecycle : ℕ → String → String → Record

-- `Recorder::record`: a line at the end of the file.
unfoldable pub record_line : (Record → String) → Record → List String → List String
record_line to_json r file = file ++ to_json r ∷ []

-- The scenario that fires at the coordinates of `e`.
unfoldable pub pin : Event → Scenario → Scenario
pin e s =
    let m = s.selector in
    let w = s.when in
    record s {
      selector = record m {
        application_name = e.startup.application_name;
        user = e.startup.user;
        database = e.startup.database;
        transaction = some e.transaction_epoch;
        query_cycle = some e.query_cycle;
        statement = some e.statement_index;
        sql_fingerprint = some e.sql_fingerprint;
      };
      when = record w { event = e.event; occurrence = some 1; row = e.row_index };
    }

pub data ReplayError : Type 0 where
  bad_line : ℕ → ReplayError
  invalid : ScenarioError → ReplayError
  no_fired_faults : ReplayError

-- What the loop has gathered: the schedules, and the texts of those that are in.
pub record Gathered : Type 0 where
  pub schedules : List Scenario
  pub unique : List String

module _ (parse_duration : String → Option ℕ) (from_json : String → Option Record)
    (to_json : Scenario → String) where
  abbrev pub keep : Scenario → Gathered → Gathered
  keep s g =
      if any (str_eq (to_json s)) g.unique
      then g
      else record { schedules = g.schedules ++ s ∷ []; unique = to_json s ∷ g.unique }

  -- One record of the trace.
  unfoldable pub gather : Record → Gathered → Result ReplayError Gathered
  gather (semantic e) g = ok g
  gather (lifecycle id event detail) g = ok g
  gather (fault e s) g = elim (validate parse_duration (pin e s)) [
    | err x ↦ err (invalid x)
    | ok _ ↦ ok (keep (pin e s) g)
  ]

  -- The lines from number `i` on.
  unfoldable pub gather_lines : ℕ → List String → Gathered → Result ReplayError Gathered
  unfolding gather
  gather_lines i [] g = ok g
  gather_lines i (line ∷ lines) g = elim (from_json line) [
    | none ↦ err (bad_line (suc i))
    | some r ↦ elim (gather r g) [ err x ↦ err x | ok g' ↦ gather_lines (suc i) lines g' ]
  ]

  unfoldable pub replay : List String → Result ReplayError (List Scenario)
  unfolding gather_lines
  replay lines = do
    g ← gather_lines 0 lines (record { schedules = []; unique = [] })
    if is_empty g.schedules then err no_fired_faults else ok g.schedules
