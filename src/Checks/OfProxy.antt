-- ===== src/Checks/OfProxy.antt =====
-- The theorems on proxied connections, at concrete inputs.
use pgfault.Base.{
  ℕ, ◌≡◌, ◌≢◌, ◌↔◌, refl, true, none, some, List, [], ◌∷◌, ◌++◌, map, arith, Bytes, nat_eq,
  string_eq, bytes_eq_instance,
}
use pgfault.Base.Result.{ok}
use pgfault.Base.Tests.{bytes_eq}
use pgfault.Base.Text.{codes, is_blank}
use pgfault.Checks.Base.{everything}
use pgfault.Checks.Session.{durations, digest, checkout, query, ready}
use pgfault.Wire.{Frame, frame}
use pgfault.State.{new}
use pgfault.Proxy.Relay.{Connection, client, server, run}
use pgfault.Proxy.Sent.{calm, downstream}
use pgfault.Proxy.Truncated.{result_truncated}
use pgfault.Scenario.{Scenario, any_event}
use pgfault.Scenario.Validate.{validate}
use pgfault.Scenario.Matcher.{new_matcher}
use pgfault.State.Frontend.{frontend}
use pgfault.Proxy.Outcome.{Keeps}
use pgfault.Proxy.Held.{Alive}
use pgfault.Proxy.Gate.{run-Alive}
use pgfault.Proxy.Negotiate.{tls, panicked, negotiate}
use pgfault.Proxy.Panic.{Panics, negotiate-Panics}
use pgfault.Proxy.Serve.{accepted, finished, serve}
use pgfault.Proxy.Tasks.{Numbered, serve-Numbered}
use pgfault.Proxy.Metadata.{metadata}
use pgfault.Proxy.Parameters.{pairs_bytes, metadata-pairs, metadata_returns}

abbrev quiet : Connection
quiet = calm (new 1 checkout) none

run-Alive_example :
    Keeps Alive
      (run digest durations 1 (client (query "BEGIN") ∷ server (ready b'T') ∷ []) quiet [])
run-Alive_example =
    run-Alive digest durations 1 (client (query "BEGIN") ∷ server (ready b'T') ∷ []) quiet []
      (record { sized = refl; bounded = omega arith })

abbrev row : ℕ → Frame
row n = frame b'D' (n ∷ [])

-- A result is to end behind two rows.
abbrev short_result : Scenario
short_result = record {
  version = 1;
  name = "short-result";
  selector = any_event;
  when = record { event = "result.started"; occurrence = none; statement_class = []; row = none };
  action = record {
    suppress = none;
    disconnect = none;
    delay = none;
    truncate_result = some (record { after_rows = 2 });
  };
}

abbrev selecting : Connection
selecting = record quiet {
  state = (frontend digest (query "SELECT 1") (new 1 checkout)).0;
  matchers = new_matcher short_result ∷ [];
}

result_truncated_example :
    let p =
      run digest durations 1
        (map server (frame b'T' [] ∷ row 1 ∷ row 2 ∷ row 3 ∷ []))
        selecting
        [] in
    (p.1 ≡ ok none)
    × (downstream p.0
        ≡ downstream [] ++ ((frame b'T' []).bytes ∷ (row 1).bytes ∷ (row 2).bytes ∷ []))
unfolding everything validate is_blank
result_truncated_example =
    result_truncated digest durations 1 (frame b'T' []) (row 1 ∷ row 2 ∷ row 3 ∷ []) 2 selecting []
      (refl, tt) refl refl (refl, refl) refl (refl, (refl, (refl, tt)))
      (((refl, refl), (λ t. refl), ((refl, refl), (λ t. refl), ((refl, refl), (λ t. refl), tt))))
      (omega arith) (omega arith)

abbrev ssl_packet : Bytes
ssl_packet = 0 ∷ 0 ∷ 0 ∷ 8 ∷ 4 ∷ 210 ∷ 22 ∷ 47 ∷ []

negotiate-Panics_example :
    ((negotiate true true true 1 ssl_packet tls []).1 ≡ ok panicked) ↔ Panics true ssl_packet tls
negotiate-Panics_example = negotiate-Panics true true true 1 ssl_packet tls []

serve-Numbered_example : Numbered 2 (serve (accepted ∷ accepted ∷ finished 1 ∷ []))
serve-Numbered_example = serve-Numbered (accepted ∷ accepted ∷ finished 1 ∷ []) (omega arith)

abbrev header : Bytes
header = 0 ∷ 0 ∷ 0 ∷ 16 ∷ 0 ∷ 3 ∷ 0 ∷ 0 ∷ []

abbrev settings : List (Bytes × Bytes)
settings =
    (codes "user", b'u' ∷ []) ∷ (codes "database", b'd' ∷ []) ∷ (codes "user", b'v' ∷ []) ∷ []

metadata-pairs_example :
    metadata (header ++ pairs_bytes settings)
    ≡ some (ok (record { user = some "v"; database = some "d"; application_name = none }))
unfolding everything bytes_eq
metadata-pairs_example = metadata-pairs header settings refl (
  (omega arith, omega arith, refl),
  ((omega arith, omega arith, refl), ((omega arith, omega arith, refl), tt)),
)

metadata_returns_example : metadata header ≢ none
metadata_returns_example = metadata_returns header
