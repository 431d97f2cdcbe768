-- ===== src/State.antt =====
-- crates/pgfault-state/src/lib.rs: what a connection's frames mean. This file has the types and the
-- parts that both directions use; `Frontend` and `Backend` hold the two handlers.
pub mod Frontend
pub mod Emit
pub mod Names
pub mod Completion
pub mod Ends
pub mod Ended
pub mod Foretold
pub mod Cycles
pub mod Answers
pub mod Attribution
pub mod Requests
pub mod Settled
pub mod Confirmed
pub mod Session
pub mod Backend
use pgfault.Base.{
  ℕ, ◌+◌, if◌then◌else◌, ltb, Bool, true, false, not, ◌||◌, ◌==◌, String, Option, none, some, List,
  [], ◌∷◌, ◌++◌, Bytes, str_eq, head?, last?, is_empty, update_back, update_front,
}
use pgfault.Base.{string_eq}
use pgfault.Base.Dict.{Dict, lookup, insert}
use pgfault.Base.Word.{u64_succ}
use pgfault.Events.{StartupMetadata, Statement, no_statement, Event}

pub data TxState : Type 0 where
  idle in_transaction failed_transaction : TxState

pub data Mutation : Type 0 where
  parse : Bytes → Statement → Mutation
  bind : Bytes → Statement → Mutation
  close : ℕ → Bytes → Mutation

pub record Cycle : Type 0 where
  pub id : ℕ
  pub statements : List Statement
  pub last : Statement
  pub rows : ℕ
  pub command : String
  pub error : Bool
  pub extended : Bool
  pub sealed : Bool
  pub statement_index : ℕ
  pub executions : ℕ
  pub epoch_allocated : Bool
  pub mutations : List Mutation

pub record ConnectionState : Type 0 where
  pub id : ℕ
  pub startup : StartupMetadata
  pub tx_state : TxState
  pub tx_epoch : ℕ
  pub prepared : Dict Bytes Statement
  pub portals : Dict Bytes Statement
  pub cycles : List Cycle
  pub next_cycle : ℕ
  pub reliable : Bool
  pub confirmed_prepared : Dict Bytes Statement
  pub confirmed_portals : Dict Bytes Statement
  pub counters : Dict String ℕ

-- `ConnectionState::new`
unfoldable pub new : ℕ → StartupMetadata → ConnectionState
new id startup = record {
  id = id;
  startup = startup;
  tx_state = idle;
  tx_epoch = 0;
  prepared = [];
  portals = [];
  cycles = [];
  next_cycle = 0;
  reliable = true;
  confirmed_prepared = [];
  confirmed_portals = [];
  counters = [];
}

abbrev pub is_idle : TxState → Bool
is_idle idle = true
is_idle in_transaction = false
is_idle failed_transaction = false

abbrev pub is_failed : TxState → Bool
is_failed idle = false
is_failed in_transaction = false
is_failed failed_transaction = true

abbrev pub fresh_cycle : ℕ → Bool → Cycle
fresh_cycle id extended = record {
  id = id;
  statements = [];
  last = no_statement;
  rows = 0;
  command = "";
  error = false;
  extended = extended;
  sealed = not extended;
  statement_index = 0;
  executions = 0;
  epoch_allocated = false;
  mutations = [];
}

-- `self.cycles.back().is_none_or(|c| c.sealed)`
abbrev pub needs_cycle : Option Cycle → Bool
needs_cycle none = true
needs_cycle (some c) = c.sealed

-- `ConnectionState::cycle`. The cycle that it returns is the last one, which `on_back` edits.
unfoldable pub cycle : Bool → ConnectionState → ConnectionState
cycle extended s =
    if not extended || needs_cycle (last? s.cycles)
    then record s {
      next_cycle = u64_succ s.next_cycle;
      cycles = s.cycles ++ fresh_cycle (u64_succ s.next_cycle) extended ∷ [];
    }
    else s

abbrev pub on_back : (Cycle → Cycle) → ConnectionState → ConnectionState
on_back f s = record s { cycles = update_back f s.cycles }

abbrev pub on_front : (Cycle → Cycle) → ConnectionState → ConnectionState
on_front f s = record s { cycles = update_front f s.cycles }

abbrev pub or_statement : Option Statement → Statement → Statement
or_statement none s = s
or_statement (some s) _ = s

-- The statement that an event of this cycle is about.
unfoldable pub statement_of : Bool → Option Cycle → Statement
statement_of front none = no_statement
statement_of true (some c) = or_statement (last? c.statements) c.last
statement_of false (some c) = or_statement (head? c.statements) c.last

unfoldable pub index_of : Bool → Option Cycle → ℕ
index_of front none = 0
index_of true (some c) = c.executions
index_of false (some c) =
    if is_empty c.statements
    then (if ltb c.statement_index 1 then 1 else c.statement_index)
    else u64_succ c.statement_index

abbrev pub id_of : Option Cycle → ℕ
id_of none = 0
id_of (some c) = c.id

unfoldable pub row_of : String → Option Cycle → Option ℕ
row_of name none = none
row_of name (some c) = if str_eq name "result.row" then some c.rows else none

-- The cycle that an event of this direction is about.
abbrev pub current : Bool → ConnectionState → Option Cycle
current front s = if front then last? s.cycles else head? s.cycles

abbrev pub or_zero : Option ℕ → ℕ
or_zero none = 0
or_zero (some n) = n

unfoldable pub counted : String → Dict String ℕ → ℕ
counted name counters = u64_succ (or_zero (lookup name counters))

-- The event without the change of the counter.
unfoldable pub event_at : String → Bool → ConnectionState → Event
event_at name front s =
    let c = current front s in
    record {
      connection_id = s.id;
      semantic_reliable = s.reliable;
      startup = s.startup;
      transaction_epoch = s.tx_epoch;
      query_cycle = id_of c;
      statement_index = index_of front c;
      statement_class = (statement_of front c).class;
      sql_fingerprint = (statement_of front c).fingerprint;
      event = name;
      occurrence = counted name s.counters;
      row_index = row_of name c;
    }

abbrev pub count : String → Dict String ℕ → Dict String ℕ
count name counters = insert name (counted name counters) counters

-- `ConnectionState::event`
unfoldable pub event : String → Bool → ConnectionState → ConnectionState × Event
event name front s = (record s { counters = count name s.counters }, event_at name front s)

-- One event for each name, in order.
unfoldable pub emit : Bool → List String → ConnectionState → ConnectionState × List Event
unfolding event
emit front [] s = (s, [])
emit front (name ∷ names) s =
    let (s1, e) = event name front s in let (s2, es) = emit front names s1 in (s2, e ∷ es)

-- `ConnectionState::forwarded`
unfoldable pub forwarded : ConnectionState → ConnectionState × Event
unfolding event
forwarded = event "query.forwarded" true
