-- ===== src/Cli/Main.antt =====
-- `probe` and `main`.
use pgfault.Base.{ℕ, if◌then◌else◌, String, Option, none, some, List, [], ◌∷◌, map, is_empty}
use pgfault.Base.Result.{Result, ok, err}
use pgfault.Base.Logged.{pure, fail, tell, ◌>>=◌, ◌>>◌}
use Prim.Native.String.{◌++◌}
use pgfault.Base.Text.{from_utf8_lossy}
use pgfault.Base.{Bytes}
use pgfault.Scenario.{Scenario}
use pgfault.Scenario.Load.{load}
use pgfault.Trace
use pgfault.Trace.{ReplayError}
use pgfault.Proxy.Tls.{Rustls}
use pgfault.Cli.{
  TlsArgs, ProbeArgs, Command, run, replay, validate, probe, CliError, Output, SimpleMessage, row,
  other_message, Outside, M, executed, stopped, queried, printed, loading, replaying, no_trace,
  setting_up, empty_command, running, serving,
}
use pgfault.Cli.Text.{decimal, substitute, join_with, show_row, default_trace_path}
use pgfault.Cli.Setup.{into_config, load_all}
use pgfault.Cli.Start.{lift, require, start}

-- The rows of the ground truth, as lines.
abbrev rows_of : List SimpleMessage → List String
rows_of [] = []
rows_of (row cells ∷ ms) = show_row cells ∷ rows_of ms
rows_of (other_message ∷ ms) = rows_of ms

unfoldable pub verify_query : Outside → String → String → Result String (List String)
verify_query o dsn sql = elim (o.simple_query dsn sql) [
  | err text ↦ err text
  | ok messages ↦ ok (rows_of messages)
]

-- `pgfault_trace::replay`
unfoldable pub replayed : Outside → String → Result CliError (List Scenario)
replayed o path = elim (o.read_lines path) [
  | none ↦ err (no_trace path)
  | some lines ↦ elim (Trace.replay o.parse_duration o.from_json o.to_json lines) [
    | err e ↦ err (replaying e)
    | ok ss ↦ ok ss
  ]
]

-- `trace.unwrap_or_else(default_trace_path)`
abbrev pub trace_path : Outside → Option String → String
trace_path o none = default_trace_path o.nanos o.process_id
trace_path o (some path) = path

abbrev pub exit_text : Option ℕ → String
exit_text none = "signaled"
exit_text (some code) = decimal code

abbrev pub exit_line : Output → String
exit_line output = "exit code: " ++ exit_text output.code

abbrev pub command_line : List String → String
command_line command = "$ " ++ join_with " " command

abbrev pub ground_truth : String → String
ground_truth sql = "=== ground truth: " ++ sql ++ " ==="

-- `code().unwrap_or(1)`
abbrev pub exit_code : Option ℕ → ℕ
exit_code none = 1
exit_code (some code) = code

module _ {Acceptor Connector : Type 0} (o : Outside) where
  -- One `println!` for each line.
  unfoldable pub print_all : List String → M Acceptor Connector (Unit {0})
  print_all [] = pure tt
  print_all (line ∷ lines) = do tell (printed line); print_all lines

  abbrev pub print_stream : String → Bytes → M Acceptor Connector (Unit {0})
  print_stream name bytes =
      if is_empty bytes
      then pure tt
      else tell (printed ("--- " ++ name ++ " ---\n" ++ from_utf8_lossy bytes))

  abbrev pub print_rows : Result String (List String) → M Acceptor Connector (Unit {0})
  print_rows (err text) = tell (printed ("verify query failed: " ++ text))
  print_rows (ok rows) = if is_empty rows then tell (printed "(no rows)") else print_all rows

  -- The ground truth, if it is asked for.
  unfoldable pub verify : Option String → Option String → M Acceptor Connector (Unit {0})
  unfolding verify_query print_all
  verify (some sql) (some dsn) = do
    tell (printed (ground_truth sql))
    tell (queried dsn sql)
    print_rows (verify_query o dsn sql)
  verify (some sql) none = pure tt
  verify none dsn = pure tt

  -- `split_first`, and the program's run.
  unfoldable pub execute : List String → M Acceptor Connector Output
  execute [] = fail empty_command
  execute (program ∷ args) = elim (o.execute program args) [
    | none ↦ fail (running program)
    | some output ↦ (do tell (executed (program ∷ args)); pure output)
  ]

  unfoldable pub report : List String → Output → M Acceptor Connector (Unit {0})
  report command output = do
    tell (printed (command_line command))
    tell (printed (exit_line output))
    print_stream "stdout" output.stdout
    print_stream "stderr" output.stderr

  -- `probe` from the substituted command on, with its exit code.
  unfoldable pub probed : ProbeArgs → List String → M Acceptor Connector ℕ
  unfolding execute report verify
  probed args command = do
    output ← execute command
    tell stopped
    require serving o.serves
    report command output
    verify args.verify_sql args.verify_dsn
    pure (exit_code output.code)

module _ {Cert Key Roots Acceptor Connector : Type 0}
    (lib : Rustls Cert Key Roots Acceptor Connector) (read : String → Option Bytes)
    (o : Outside) where
  unfoldable pub run_probe : ProbeArgs → M Acceptor Connector ℕ
  unfolding probed start
  run_probe args = do
    scenarios ← lift loading (load_all o args.scenario)
    tls ← lift setting_up (into_config lib read args.tls)
    port ← start o args.listen args.upstream scenarios (trace_path o args.trace) tls
    probed o args (map (substitute port) args.command)

  -- The server of `run` and `replay`, until it ends.
  unfoldable pub run_server :
      String → String → List Scenario → Option String → TlsArgs → M Acceptor Connector (Option ℕ)
  unfolding start
  run_server listen upstream scenarios trace args = do
    tls ← lift setting_up (into_config lib read args)
    port ← start o listen upstream scenarios (trace_path o trace) tls
    require serving o.serves
    pure none

  -- `some code` where the process exits with this code, and `none` where `main` returns `Ok`.
  unfoldable pub main : Command → M Acceptor Connector (Option ℕ)
  unfolding run_probe run_server replayed
  main (validate path) = do
    s ← lift loading (load o.parse_duration o.read_to_string o.from_yaml path)
    tell (printed ("valid: " ++ s.name))
    pure none
  main (probe args) = do code ← run_probe args; pure (some code)
  main (run args) = do
    scenarios ← lift loading (load_all o args.scenario)
    run_server args.listen args.upstream scenarios args.trace args.tls
  main (replay args) = do
    scenarios ← lift (λ e. e) (replayed o args.trace)
    run_server args.listen args.upstream scenarios args.output_trace args.tls
