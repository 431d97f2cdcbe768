-- ===== src/Proxy/Effects.antt =====
-- Effects on the world, and the monad of the asynchronous functions that end in `Result`.
use pgfault.Base.{ℕ, List, [], ◌∷◌, Bytes}
pub use pgfault.Base.Logged.{pure, fail, continue, ◌>>=◌, ◌>>◌, tell}
use pgfault.Base.Logged.{Logged}
use pgfault.Wire.{WireError}
use pgfault.Scenario.{Side}
use pgfault.Trace.{Record}

pub data Effect : Type 0 where
  to_client : Bytes → Effect
  to_upstream : Bytes → Effect
  recorded : Record → Effect
  slept : ℕ → Effect
  reset : Side → Effect
  shut_down : Side → Effect
  connected : Effect

-- `out_of_fuel` is the model's own.
pub data ProxyError : Type 0 where
  wire : WireError → ProxyError
  invalid_duration : ProxyError
  gate_exceeded : ProxyError
  invalid_startup_parameter invalid_startup_value trailing_startup_data : ProxyError
  invalid_negotiation invalid_cancellation : ProxyError
  unsupported_protocol : ℕ → ProxyError
  timed_out : ProxyError
  handshake_failed : ProxyError
  connect_failed : ProxyError
  no_upstream_reply upstream_without_tls invalid_server_name upstream_handshake_failed : ProxyError
  out_of_fuel : ProxyError

abbrev pub M {ℓ} : Type ℓ → Type ℓ
M A = Logged Effect ProxyError A

-- One write for each chunk.
unfoldable pub write_all : List Bytes → M (Unit {0})
write_all [] = pure tt
write_all (chunk ∷ chunks) = do tell (to_client chunk); write_all chunks
