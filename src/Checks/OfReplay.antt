-- ===== src/Checks/OfReplay.antt =====
-- The theorem on replays, at the trace of two connections.
use pgfault.Base.{
  ℕ, if◌then◌else◌, ◌==◌, ◌≡◌, refl, true, false, Bytes, String, Option, none, some, List, [], ◌∷◌,
  ◌++◌, All, str_eq, nat_eq, string_eq, bytes_eq_instance,
}
use Prim.Native.String
use pgfault.Base.Result.{ok}
use pgfault.Base.Tests.{bytes_eq}
use pgfault.Base.Text.{codes, is_blank}
use pgfault.Checks.Base.{everything}
use pgfault.Checks.Session.{durations, digest, ambiguous_commit, query, tagged, ready}
use pgfault.Scenario.{Scenario}
use pgfault.Scenario.Validate.{validate}
use pgfault.Trace.{Record, semantic, fault, lifecycle, replay}
use pgfault.Trace.Returns.{faults_in, HoldsAll}
use pgfault.Proxy.Effects.{ProxyError}
use pgfault.Proxy.Metadata.{metadata}
use pgfault.Proxy.Connect.{World, connection, begin, fresh, connect}
use pgfault.Proxy.Negotiate.{negotiate_all}
use pgfault.Proxy.Serve.{task}
use pgfault.Proxy.Relay.{client, server}
use pgfault.Proxy.Pinnable.{Refires}
use pgfault.Proxy.Replayed.{written}
use pgfault.Proxy.Traced.{Merges, no_more, next_of, Task, records_by, trace-replay}

-- A server in plain text, under `ambiguous-commit`.
abbrev world : World
world = record {
  scenarios = ambiguous_commit ∷ [];
  acceptor = false;
  client_handshake = false;
  upstream = codes "localhost:5432";
  upstream_tls = false;
  reachable = true;
  reply = none;
  valid_name = λ name. true;
  server_handshake = false;
}

abbrev startup_packet : Bytes
startup_packet =
    (0 ∷ 0 ∷ 0 ∷ 40 ∷ 0 ∷ 3 ∷ 0 ∷ 0 ∷ [])
    ++ codes "application_name"
    ++ 0 ∷ []
    ++ codes "checkout-test"
    ++ 0 ∷ 0 ∷ []

abbrev committing : Task
committing = record {
  id = 1;
  world = world;
  packets = ok startup_packet ∷ [];
  inputs = client (query "COMMIT") ∷ server (tagged "COMMIT") ∷ server (ready b'I') ∷ [];
}

abbrev asking : Task
asking = record {
  id = 2;
  world = world;
  packets = ok startup_packet ∷ [];
  inputs = client (query "COMMIT") ∷ [];
}

abbrev error_text : ProxyError → String
error_text e = "error"

abbrev file : List Record
file =
    records_by digest durations error_text committing
    ++ records_by digest durations error_text asking

second-Merges : (a : List Record) → Merges ([] ∷ a ∷ []) a
second-Merges [] = no_more
second-Merges (r ∷ a) = next_of ([] ∷ []) [] r a refl (second-Merges a)

append-Merges : (a b : List Record) → Merges (a ∷ b ∷ []) (a ++ b)
append-Merges [] b = second-Merges b
append-Merges (r ∷ a) b = next_of [] (b ∷ []) r a refl (append-Merges a b)

-- A text for each record of this trace.
abbrev text_of : ℕ → String → String
text_of id event = if id == 1 then event else String.◌++◌ "2 " event

abbrev show : Record → String
show (semantic e) = text_of e.connection_id e.event
show (fault e s) = s.name
show (lifecycle id event detail) = text_of id event

abbrev found : String → List Record → Option Record
found text [] = none
found text (r ∷ rs) = if str_eq (show r) text then some r else found text rs

abbrev read : String → Option Record
read text = found text file

abbrev name_of : Scenario → String
name_of s = s.name

trace-replay_example :
    (ss : List Scenario) × (replay durations read name_of (written show file []) ≡ ok ss)
    × HoldsAll durations read name_of ss (faults_in file)
    × All Refires (faults_in file)
unfolding everything validate is_blank metadata task connection begin fresh connect negotiate_all
    bytes_eq
trace-replay_example =
    trace-replay digest durations error_text read name_of show (committing ∷ asking ∷ []) file
      ((refl, tt), ((refl, tt), tt))
      (append-Merges (records_by digest durations error_text committing)
        (records_by digest durations error_text asking))
      (
        refl,
        (
          refl,
          (
            refl,
            (
              refl,
              (
                refl,
                (
                  refl,
                  (
                    refl,
                    (
                      refl,
                      (
                        refl,
                        (refl, (refl, (refl, (refl, (refl, (refl, (refl, (refl, (refl, tt))))))))),
                      ),
                    ),
                  ),
                ),
              ),
            ),
          ),
        ),
      )
      ((λ e. cc), tt) (λ e. cc)
