-- ===== src/Checks/OfPump.antt =====
-- The theorems on whole connections, at concrete ones.
use pgfault.Base.{
  map, take, drop, ℕ, ◌≡◌, refl, ap, true, false, none, some, Option, List, [], ◌∷◌, ◌++◌, arith,
  Bytes, nat_eq, string_eq, bytes_eq_instance, head?,
}
use pgfault.Base.Result.{ok, err}
use pgfault.Base.Text.{codes, is_blank}
use pgfault.Checks.Base.{everything}
use pgfault.Checks.Session.{
  ambiguous_commit, durations, digest, checkout, query, tagged, ready, fresh,
}
use pgfault.Events.{no_metadata, Event}
use pgfault.State.{new, forwarded, Cycle, fresh_cycle, idle}
use pgfault.State.Frontend.{frontend}
use pgfault.Proxy.Effects.{Effect, ProxyError, to_upstream, connected}
use pgfault.Proxy.Negotiate.{plain, negotiate_all}
use pgfault.State.Backend.{backend, completed, ready_state}
use pgfault.Proxy.Apply.{Faults, apply}
use pgfault.Proxy.Faults.{IsApplied, observed_all, fired}
use pgfault.Proxy.Fired.{apply-fired}
use pgfault.Scenario.Validate.{validate}
use pgfault.Scenario.Matcher.{new_matcher}
use pgfault.Proxy.Kept.{IsLost}
use pgfault.Proxy.Lost.{ending-IsLost}
use pgfault.Proxy.Withheld.{IsWithheld, ending-IsWithheld}
use pgfault.Scenario.{Scenario}
use pgfault.Proxy.Cut.{Cuts, run-Cuts}
use pgfault.Proxy.Relay.{
  Connection, faults, client, server, run, Input, on_client, on_input, client_closed,
}
use pgfault.Proxy.Sent.{upstream, downstream, of_client, of_server, calm}
use pgfault.Proxy.Integrity.{run-Sublist}
use pgfault.Proxy.Connect.{World, begin, connection, tls_request}
use pgfault.Proxy.Whole.{request, connection-transparent}
use pgfault.Proxy.Declined.{begin-declined}
use pgfault.Proxy.Metadata.{metadata}
use pgfault.Proxy.Pump.{Pump, opened, Reach, here, next, client_read, client_frame}
use pgfault.Proxy.Runs.{IsRun, client_eof}
use pgfault.Proxy.Looped.{Reach-IsRun}
use mathlib.Core.List.{Sublist}

abbrev committed : List Input
committed = client (query "COMMIT") ∷ server (tagged "COMMIT") ∷ server (ready b'I') ∷ []

run-Sublist_example :
    let w = (run digest durations 1 committed fresh []).0 in
    Sublist (upstream w) (of_client committed) × Sublist (downstream w) (of_server committed)
run-Sublist_example = run-Sublist digest durations 1 committed fresh refl

-- A server that wants TLS.
abbrev encrypted : World
encrypted = record {
  scenarios = [];
  acceptor = false;
  client_handshake = false;
  upstream = codes "localhost:5432";
  upstream_tls = true;
  reachable = true;
  reply = some b'S';
  valid_name = λ name. true;
  server_handshake = true;
}

abbrev startup_packet : Bytes
startup_packet = 0 ∷ 0 ∷ 0 ∷ 9 ∷ 0 ∷ 3 ∷ 0 ∷ 0 ∷ 0 ∷ []

connection-transparent_example :
    let w = (connection digest durations 1 encrypted (ok startup_packet ∷ []) committed []).0 in
    (upstream w ≡ request encrypted ++ startup_packet ∷ of_client committed)
    × (downstream w ≡ downstream [] ++ of_server committed)
unfolding everything negotiate_all metadata
connection-transparent_example =
    connection-transparent digest durations 1 encrypted (ok startup_packet ∷ []) committed
      startup_packet plain no_metadata [] refl
      (record { reached = refl; replies = λ e. refl; named = λ e. refl; shaken = λ e. refl }) refl
      refl (refl, (tt, (tt, tt)))

abbrev code : Option ℕ → ℕ
code none = 0
code (some b) = b

begin-declined_example :
    (x : ProxyError) × (begin 1 (record encrypted { reply = some b'N' }) startup_packet []
      ≡ ([] ++ connected ∷ [] ++ to_upstream tls_request ∷ [], err x))
unfolding everything metadata
begin-declined_example =
    begin-declined 1 (record encrypted { reply = some b'N' }) startup_packet no_metadata [] refl
      refl refl (λ same. let e : b'N' ≡ b'S' = ap code same in omega arith)

abbrev sent : Bytes
sent = (query "BEGIN").bytes

-- The pump behind the first read, and behind the frame in it.
abbrev read : Pump
read = let r = opened (new 1 checkout) in record r { client_buffer = sent; client_sent = sent }

abbrev relayed : List Effect
relayed = (on_client digest durations 1 (query "BEGIN") (calm (new 1 checkout) none) []).0

abbrev behind_frame : Pump
behind_frame = record read {
  connection = calm (forwarded (frontend digest (query "BEGIN") (new 1 checkout)).0).0 none;
  client_buffer = [];
  log = relayed;
}

reached : Reach digest durations 1 (opened (new 1 checkout)) behind_frame
unfolding everything
reached = next {s = read} (next here (client_read sent refl refl)) (
    client_frame (query "BEGIN") []
      (calm (forwarded (frontend digest (query "BEGIN") (new 1 checkout)).0).0 none) relayed refl
      refl)

-- Then the client closes its side.
Reach-IsRun_example :
    IsRun digest durations 1
      (calm (new 1 checkout) none)
      behind_frame
      (on_input digest durations 1 client_closed behind_frame.connection relayed)
Reach-IsRun_example =
    Reach-IsRun digest durations 1 (calm (new 1 checkout) none) behind_frame
      (on_input digest durations 1 client_closed behind_frame.connection relayed) reached
      (client_eof refl)

-- At the `Z` behind a `COMMIT`.
abbrev ended : List Event
ended =
    (backend (ready b'I')
      (backend (tagged "COMMIT") (frontend digest (query "COMMIT") (new 1 checkout)).0).0).1

apply-fired_example :
    (v : List Effect) × (y : Faults) × (apply durations ended fresh.matchers (faults fresh) []
      ≡ (v, ok (observed_all ended fresh.matchers, y)))
    × IsApplied [] (faults fresh) (fired ended fresh.matchers) v y
apply-fired_example = apply-fired durations ended fresh.matchers (faults fresh) [] (tt, tt)

commit_fires : fired ended fresh.matchers ≡ map (λ e. (e, ambiguous_commit)) (take 1 (drop 1 ended))
unfolding everything
commit_fires = refl

abbrev before_end : Connection
before_end = record fresh {
  state = (backend (tagged "COMMIT") (frontend digest (query "COMMIT") (new 1 checkout)).0).0;
}

run-Cuts_example :
    Cuts []
      (fired ended fresh.matchers)
      (run digest durations 1 (server (ready b'I') ∷ committed) before_end [])
unfolding everything validate is_blank
run-Cuts_example =
    run-Cuts durations digest 1 (server (ready b'I')) committed before_end [] (refl, tt) refl

-- Behind the query, where the command tag is still to come.
abbrev asking : Connection
asking = record fresh { state = (frontend digest (query "COMMIT") (new 1 checkout)).0 }

abbrev or_fresh : Option Cycle → Cycle
or_fresh none = fresh_cycle 0 false
or_fresh (some c) = c

abbrev front : Cycle
front = or_fresh (head? asking.state.cycles)

ending-IsLost_example :
    IsLost []
      (run digest durations 1 (server (tagged "COMMIT") ∷ server (ready b'I') ∷ []) asking [])
unfolding everything validate is_blank completed ready_state
ending-IsLost_example =
    ending-IsLost digest durations 1 (tagged "COMMIT") (ready b'I') [] asking [] front idle
      "transaction.commit.completed" [] (new_matcher ambiguous_commit) [] (refl, tt) refl refl refl
      (λ same. let bad : ⊥ = cc in bad) refl refl refl
      (record { waits = refl; named = refl; picks = refl; counts = refl }) refl

-- The scenario without a disconnection.
abbrev hidden_commit : Scenario
hidden_commit =
    let a = ambiguous_commit.action in
    record ambiguous_commit { action = record a { disconnect = none } }

abbrev hiding : Connection
hiding = record asking { matchers = new_matcher hidden_commit ∷ [] }

ending-IsWithheld_example :
    IsWithheld []
      (run digest durations 1 (server (tagged "COMMIT") ∷ server (ready b'I') ∷ []) hiding [])
unfolding everything validate is_blank completed ready_state
ending-IsWithheld_example =
    ending-IsWithheld digest durations 1 (tagged "COMMIT") (ready b'I') hiding [] front idle
      "transaction.commit.completed" [] (new_matcher hidden_commit) [] (refl, tt) refl refl refl
      (λ same. let bad : ⊥ = cc in bad) refl refl refl
      (record { waits = refl; named = refl; picks = refl; counts = refl }) refl
