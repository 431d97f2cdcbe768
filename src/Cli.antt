-- ===== src/Cli.antt =====
-- crates/pgfault-cli/src/main.rs: the command line. What it does to the world is a list of acts, in
-- order. `clap` has parsed the arguments.
pub mod Text
pub mod Setup
pub mod Start
pub mod Main
pub mod Served
pub mod Acts
pub mod Started
use pgfault.Base.{ℕ, Bool, String, Option, List, Bytes}
use pgfault.Base.Result.{Result}
use pgfault.Base.Logged.{Logged}
use pgfault.Scenario.{Scenario}
use pgfault.Scenario.Load.{LoadError}
use pgfault.Trace.{ReplayError, Record}
use pgfault.Proxy.Tls.{TlsConfig, TlsError}

pub record TlsArgs : Type 0 where
  pub tls_cert : Option String
  pub tls_key : Option String
  pub upstream_tls : Bool
  pub upstream_tls_insecure : Bool
  pub upstream_ca : Option String

-- `run`
pub record RunArgs : Type 0 where
  pub listen : String
  pub upstream : String
  pub scenario : List String
  pub trace : Option String
  pub tls : TlsArgs

-- `replay`
pub record ReplayArgs : Type 0 where
  pub trace : String
  pub listen : String
  pub upstream : String
  pub output_trace : Option String
  pub tls : TlsArgs

-- `probe`
pub record ProbeArgs : Type 0 where
  pub listen : String
  pub upstream : String
  pub scenario : List String
  pub trace : Option String
  pub tls : TlsArgs
  pub verify_sql : Option String
  pub verify_dsn : Option String
  pub command : List String

pub data Command : Type 0 where
  run : RunArgs → Command
  replay : ReplayArgs → Command
  validate : String → Command
  probe : ProbeArgs → Command

-- `Config` of crates/pgfault-proxy/src/lib.rs, with the path of its trace.
pub record Config (Acceptor Connector : Type 0) : Type 0 where
  pub upstream : String
  pub scenarios : List Scenario
  pub trace : String
  pub tls : TlsConfig Acceptor Connector

-- `served`: a server was started. `executed`: the program of a probe ran to its end. `stopped`: the
-- server of a probe was told to stop.
pub data Act (Acceptor Connector : Type 0) : Type 0 where
  made_dirs opened bound : String → Act Acceptor Connector
  served : Config Acceptor Connector → Act Acceptor Connector
  executed : List String → Act Acceptor Connector
  stopped : Act Acceptor Connector
  queried : String → String → Act Acceptor Connector
  printed : String → Act Acceptor Connector

pub data CliError : Type 0 where
  loading : LoadError → CliError
  replaying : ReplayError → CliError
  no_trace : String → CliError
  setting_up : TlsError → CliError
  directories file : String → CliError
  binding : String → CliError
  empty_command : CliError
  running : String → CliError
  serving : CliError

-- What a program leaves. `code`: `none` where a signal ended it.
pub record Output : Type 0 where
  pub code : Option ℕ
  pub stdout : Bytes
  pub stderr : Bytes

-- A message of tokio_postgres to a simple query.
pub data SimpleMessage : Type 0 where
  row : List (Option String) → SimpleMessage
  other_message : SimpleMessage

-- What the program asks of its libraries and of the machine. `bind` gives a port, `parent` is
-- `Path::parent`, and `serves` says whether the server's result is an `Ok`.
pub record Outside : Type 0 where
  pub read_to_string : String → Option String
  pub read_lines : String → Option (List String)
  pub from_yaml : String → Option Scenario
  pub parse_duration : String → Option ℕ
  pub from_json : String → Option Record
  pub to_json : Scenario → String
  pub nanos : ℕ
  pub process_id : ℕ
  pub parent : String → Option String
  pub make_dirs : String → Bool
  pub open_new : String → Bool
  pub bind : String → Option ℕ
  pub serves : Bool
  pub execute : String → List String → Option Output
  pub simple_query : String → String → Result String (List SimpleMessage)

-- The monad of the program.
abbrev pub M : Type 0 → Type 0 → Type 0 → Type 0
M Acceptor Connector A = Logged (Act Acceptor Connector) CliError A
