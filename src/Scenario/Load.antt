-- ===== src/Scenario/Load.antt =====
-- `Scenario::load`. `read_to_string` is the text of a file, if it can be read, and `from_yaml` is the
-- library's.
use pgfault.Base.{ℕ, ◌≡◌, arith, String, Option, none, some}
use pgfault.Base.Result.{Result, ok, err}
use pgfault.Scenario.{Scenario}
use pgfault.Scenario.Validate.{ScenarioError, validate}

pub data LoadError : Type 0 where
  reading : String → LoadError
  no_scenario : LoadError
  invalid : ScenarioError → LoadError

module _ (parse_duration : String → Option ℕ) (read_to_string : String → Option String)
    (from_yaml : String → Option Scenario) where
  unfoldable pub load : String → Result LoadError Scenario
  load path = elim (read_to_string path) [
    | none ↦ err (reading path)
    | some text ↦ elim (from_yaml text) [
      | none ↦ err no_scenario
      | some s ↦ elim (validate parse_duration s) [ err e ↦ err (invalid e) | ok _ ↦ ok s ]
    ]
  ]

  pub load-validate :
      (path : String) (s : Scenario) → load path ≡ ok s → validate parse_duration s ≡ ok tt
  unfolding load
  load-validate path s h = ground arith
