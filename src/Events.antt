-- ===== src/Events.antt =====
-- crates/pgfault-events/src/lib.rs: statements and their classes, and the semantic events.
pub mod Lexer
pub mod Classify
pub mod Fuel
pub mod Several
use pgfault.Base.{
  ℕ, ◌==◌, if◌then◌else◌, Bool, true, false, ◌||◌, String, Option, none, some, List, [], ◌∷◌, Bytes,
  any, str_eq, head?,
}

pub data StatementClass : Type 0 where
  begin commit rollback select insert update delete merge ddl other : StatementClass

pub record StartupMetadata : Type 0 where
  pub user : Option String
  pub database : Option String
  pub application_name : Option String

pub record Statement : Type 0 where
  pub class : StatementClass
  pub fingerprint : String

-- `Statement::default()`
abbrev pub no_statement : Statement
no_statement = record { class = other; fingerprint = "" }

abbrev pub no_metadata : StartupMetadata
no_metadata = record { user = none; database = none; application_name = none }

abbrev pub is : List String → String → Bool
is names w = any (str_eq w) names

abbrev pub is_one_of : List String → List String → Bool
is_one_of names = any (is names)

-- The class that the words of one statement give.
unfoldable pub class_of : List String → StatementClass
class_of [] = other
class_of (w ∷ ws) =
    if is ("BEGIN" ∷ "START" ∷ []) w
    then begin
    else if is ("COMMIT" ∷ "END" ∷ []) w
    then (if is_one_of ("PREPARED" ∷ "CHAIN" ∷ []) (w ∷ ws) then other else commit)
    else if is ("ROLLBACK" ∷ "ABORT" ∷ []) w
    then (if is_one_of ("TO" ∷ "PREPARED" ∷ "CHAIN" ∷ []) (w ∷ ws) then other else rollback)
    else if is ("SELECT" ∷ "VALUES" ∷ "TABLE" ∷ []) w
    then select
    else if is ("INSERT" ∷ []) w
    then insert
    else if is ("UPDATE" ∷ []) w
    then update
    else if is ("DELETE" ∷ []) w
    then delete
    else if is ("MERGE" ∷ []) w
    then merge
    else if is ("CREATE" ∷ "ALTER" ∷ "DROP" ∷ "TRUNCATE" ∷ []) w
    then ddl
    else other

-- The names of the events, the constant `EVENTS`.
abbrev pub events : List String
events =
    "query.received" ∷ "query.forwarded" ∷ "statement.execution_started"
    ∷ "statement.execution_completed" ∷ "transaction.begin.requested"
    ∷ "transaction.commit.requested" ∷ "transaction.commit.completed"
    ∷ "transaction.rollback.requested" ∷ "transaction.rollback.completed"
    ∷ "transaction.implicit.completed" ∷ "transaction.failed" ∷ "result.started" ∷ "result.row"
    ∷ "result.completed" ∷ "connection.ready" ∷ "frontend.execute" ∷ "frontend.sync"
    ∷ "backend.error" ∷ "backend.command_complete" ∷ "backend.ready" ∷ []

pub record Event : Type 0 where
  pub connection_id : ℕ
  pub semantic_reliable : Bool
  pub startup : StartupMetadata
  pub transaction_epoch : ℕ
  pub query_cycle : ℕ
  pub statement_index : ℕ
  pub statement_class : StatementClass
  pub sql_fingerprint : String
  pub event : String
  pub occurrence : ℕ
  pub row_index : Option ℕ
