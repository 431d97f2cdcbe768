-- ===== src/Scenario.antt =====
-- crates/pgfault-scenario/src/lib.rs: scenarios, their validation, and the matcher of a connection.
-- A field that serde fills in by default is what `load` has put there.
pub mod Validate
pub mod Load
pub mod Matcher
pub mod Conditions
pub mod Valid
pub mod Firing
use pgfault.Base.{ℕ, Bool, String, Option, none, List, []}
use pgfault.Events.{StatementClass}

pub record Selector : Type 0 where
  pub application_name : Option String
  pub user : Option String
  pub database : Option String
  pub connection_ordinal : Option ℕ
  pub transaction : Option ℕ
  pub query_cycle : Option ℕ
  pub statement : Option ℕ
  pub sql_fingerprint : Option String

-- `Selector::default()`
abbrev pub any_event : Selector
any_event = record {
  application_name = none;
  user = none;
  database = none;
  connection_ordinal = none;
  transaction = none;
  query_cycle = none;
  statement = none;
  sql_fingerprint = none;
}

pub record When : Type 0 where
  pub event : String
  pub occurrence : Option ℕ
  pub statement_class : List StatementClass
  pub row : Option ℕ

pub record Suppress : Type 0 where
  pub current : Bool

pub data Side : Type 0 where
  frontend upstream : Side

pub data Mode : Type 0 where
  close reset : Mode

pub record Disconnect : Type 0 where
  pub side : Side
  pub mode : Mode

pub data Direction : Type 0 where
  upstream downstream : Direction

pub record Delay : Type 0 where
  pub direction : Direction
  pub duration : String

pub record Truncate : Type 0 where
  pub after_rows : ℕ

pub record Action : Type 0 where
  pub suppress : Option Suppress
  pub disconnect : Option Disconnect
  pub delay : Option Delay
  pub truncate_result : Option Truncate

pub record Scenario : Type 0 where
  pub version : ℕ
  pub name : String
  pub selector : Selector
  pub when : When
  pub action : Action
