-- ===== src/Proxy.antt =====
-- crates/pgfault-proxy/src/lib.rs: a proxied connection. What the code does to its sockets and to the
-- trace is a list of effects, in order; writes succeed. `Effects` has the monad, `Apply` the faults of
-- scenarios, `Relay` the loop of a connection, `Metadata` and `Negotiate` its start, `Serve` the
-- accept loop.
pub mod Effects
pub mod Apply
pub mod Relay
pub mod Replayed
pub mod Metadata
pub mod Negotiate
pub mod Begun
pub mod Connect
pub mod Tls
pub mod Serve
pub mod Runs
pub mod Sent
pub mod Outcome
pub mod Silent
pub mod Socket
pub mod Faults
pub mod Fired
pub mod Cut
pub mod Due
pub mod Kept
pub mod Pinnable
pub mod Looped
pub mod Lost
pub mod Withheld
pub mod Within
pub mod Integrity
pub mod Crossing
pub mod Traced
pub mod Transparent
pub mod Held
pub mod Gate
pub mod Panic
pub mod Tasks
pub mod Settings
pub mod Parameters
pub mod Truncated
pub mod Unsent
pub mod Verify
pub mod Whole
pub mod Pump
pub mod Declined
