-- ===== src/Lib.antt =====
-- pgfault, a proxy for PostgreSQL that fires faults at chosen points of a session.
--
-- The proxy accepts a client, negotiates its start, opens one connection to the server, and relays
-- frames both ways. Each frame goes through a state machine that says what it means for the session
-- (statements, transactions, results), as events. Scenarios select events, and fire at them: they
-- suppress the frame, delay it, end the connection, or cut a result. The trace records events and
-- faults, and a replay makes scenarios of the recorded faults.
--
-- Files, and the code that they model:
--   Base: numbers, lists, texts, dictionaries and results that the others share
--   Wire: crates/pgfault-wire/src/lib.rs. A socket is the list of the reads that it will serve.
--     `Frame`, `decode`, `next`, `startup`, `cstr`, `text` and `frame` have the source's names.
--   Events: crates/pgfault-events/src/lib.rs. Events.Lexer has the loop of `classify`, one token a
--     round, and Events.Classify has `classify` and `Statement::new`.
--   State: crates/pgfault-state/src/lib.rs. State has `ConnectionState` and `event`, State.Frontend
--     has `frontend`, and State.Backend has `completion_boundary` and `backend`.
--   Scenario: crates/pgfault-scenario/src/lib.rs. Scenario.Load has `load`, Scenario.Validate
--     `validate`, and Scenario.Matcher `selects` and the matcher.
--   Trace: crates/pgfault-trace/src/lib.rs, the records, the lines of a trace, and `replay`
--   Proxy: crates/pgfault-proxy/src/lib.rs and src/tls.rs of the same crate. Proxy.Effects has
--     the effects: a function that writes to sockets and to the trace gives the list of its
--     effects, and a result. Proxy.Apply has `apply`, Proxy.Relay the loop of `connection`, where a
--     run is the sequence of the inputs that `select!` takes, Proxy.Metadata has `metadata`,
--     Proxy.Negotiate the first loop of `connection`, Proxy.Connect what follows it and the whole
--     function, and Proxy.Serve `serve`, as a step function, and the task of a connection.
--     Proxy.Pump has the loop with its two `FrameReader`s, as a step relation on bytes, and
--     Proxy.Runs its ends. Proxy.Tls has the configuration of TLS, Proxy.Socket `Stream` and the
--     handshakes, and Proxy.Verify `NoVerify`. The other files see a stream as Proxy.Socket.View
--     does: whether TLS stands on it.
--   Cli: crates/pgfault-cli/src/main.rs. Cli.Setup has `into_config` and the loading of scenarios,
--     Cli.Start the trace (`Recorder::create`), `bind` and the server, Cli.Main `probe` and `main`,
--     and Cli.Text the texts. A run is the list of its acts on the machine, and a result.
--   Checks: tests on concrete sessions, and the theorems at concrete inputs
--
-- Numbers and fuel. Bytes and sizes are native numbers. Counters of 64 bits wrap, as the release
-- profile has them. The lexer takes one round for each byte and one more, and so does the loop of
-- `metadata`: each round takes a byte at least. `none` is their result if the fuel runs out.
--
-- The numbers that the command line prints have at most 39 digits.
--
-- Parameters: the digest of SQL text (SHA-256), the parser of durations (humantime), the text
-- formats of records and scenarios (JSON, YAML), rustls, tokio's sockets, socket2, the machine with
-- its files, addresses and programs, and the client library of the ground truth.
--
-- Not modelled: writes that fail, the parser of the arguments,
-- logging and signals, and the end-to-end tests and scripts.
pub mod Base
pub mod Wire
pub mod Events
pub mod State
pub mod Scenario
pub mod Trace
pub mod Proxy
pub mod Cli
mod Checks
