-- ===== src/Checks/OfCli.antt =====
-- The command line, at a concrete machine.
use pgfault.Base.{◌≡◌, refl, true, false, Option, none, some, String, List, [], ◌∷◌, All, Bytes}
use pgfault.Base.Result.{ok}
use pgfault.Checks.Base.{everything}
use pgfault.Checks.Session.{ambiguous_commit, durations}
use pgfault.Proxy.Tls.{Rustls, Verifier, trusting}
use pgfault.Cli.{
  TlsArgs, Command, probe, Outside, made_dirs, opened, bound, served, executed, stopped, printed,
  queried, row, other_message,
}
use pgfault.Base.Text.{is_blank}
use pgfault.Scenario.Validate.{validate}
use pgfault.Proxy.Tls.{frontend_acceptor, upstream_connector}
use pgfault.Cli.Text.{default_trace_path, substitute, join_with, decimal, show_row}
use pgfault.Cli.Setup.{load_all, into_config}
use pgfault.Cli.Main.{main}
use pgfault.Cli.Acts.{IsServed, tls_of}
use pgfault.Cli.Started.{main-IsServed}

-- A file is its own certificate and key, and the roots are a list of files.
abbrev files : Rustls Bytes Bytes (List Bytes) Bytes (Verifier (List Bytes))
files = record {
  certs = λ bytes. some (bytes ∷ []);
  private_key = λ bytes. some (some bytes);
  with_single_cert = λ certs key. some key;
  public_roots = [];
  add = λ cert roots. some (cert ∷ roots);
  client_config = λ v. v;
}

abbrev read : String → Option Bytes
read path = some (1 ∷ [])

abbrev machine : Outside
machine = record {
  read_to_string = λ path. some "version: 1";
  read_lines = λ path. none;
  from_yaml = λ text. some ambiguous_commit;
  parse_duration = durations;
  from_json = λ line. none;
  to_json = λ s. "";
  nanos = 7;
  process_id = 42;
  parent = λ path. some ".pgfault/traces";
  make_dirs = λ path. true;
  open_new = λ path. true;
  bind = λ listen. some 15432;
  serves = true;
  execute = λ program args. some (record { code = some 3; stdout = []; stderr = [] });
  simple_query = λ dsn sql. ok (row (some "1" ∷ none ∷ []) ∷ other_message ∷ []);
}

abbrev with_tls : TlsArgs
with_tls = record {
  tls_cert = some "cert.pem";
  tls_key = some "key.pem";
  upstream_tls = true;
  upstream_tls_insecure = false;
  upstream_ca = some "ca.pem";
}

abbrev probing : Command
probing = probe (record {
  listen = "127.0.0.1:0";
  upstream = "127.0.0.1:5432";
  scenario = "commit.yaml" ∷ [];
  trace = none;
  tls = with_tls;
  verify_sql = some "SELECT 1";
  verify_dsn = some "host=localhost";
  command = "psql" ∷ "port={{PGFAULT_PORT}}" ∷ [];
})

probe_acts : main files read machine probing [] ≡ (
  made_dirs ".pgfault/traces"
      ∷ opened ".pgfault/traces/7-42.jsonl"
      ∷ bound "127.0.0.1:0"
      ∷ served (record {
        upstream = "127.0.0.1:5432";
        scenarios = ambiguous_commit ∷ [];
        trace = ".pgfault/traces/7-42.jsonl";
        tls = record { frontend = some (1 ∷ []); upstream = some (trusting ((1 ∷ []) ∷ [])) };
      })
      ∷ executed ("psql" ∷ "port=15432" ∷ [])
      ∷ stopped
      ∷ printed "$ psql port=15432"
      ∷ printed "exit code: 3"
      ∷ printed "=== ground truth: SELECT 1 ==="
      ∷ queried "host=localhost" "SELECT 1"
      ∷ printed "1 | NULL"
      ∷ [],
  ok (some 3),
)
unfolding everything main load_all validate is_blank into_config frontend_acceptor
    upstream_connector default_trace_path substitute join_with decimal show_row
probe_acts = refl

main-IsServed_example :
    All (IsServed files read machine (tls_of probing)) (main files read machine probing []).0
main-IsServed_example = main-IsServed files read machine probing
