-- ===== src/Proxy/Connect.antt =====
-- `connection` from the startup packet on: the connection to the server, with the negotiation of TLS
-- on it, and the composition of the whole function. `connect` of crates/pgfault-proxy/src/tls.rs is
-- a handshake that succeeds or fails.
use pgfault.Base.{
  ℕ, ◌==◌, if◌then◌else◌, Bool, not, String, Option, none, some, List, [], ◌∷◌, ◌++◌, map, Bytes,
  nat_eq, string_eq, bytes_eq_instance,
}
use pgfault.Base.Result.{Result, ok, err}
use pgfault.Base.Word.{be_bytes}
use pgfault.Wire.{ssl_request}
use pgfault.Events.{StartupMetadata}
use pgfault.State.{new}
use pgfault.Scenario.{Scenario}
use pgfault.Scenario.Matcher.{new_matcher}
use pgfault.Trace.{lifecycle}
use pgfault.Proxy.Effects.{
  ProxyError, M, pure, fail, ◌>>=◌, ◌>>◌, tell, to_upstream, recorded, connected, connect_failed,
  no_upstream_reply, upstream_without_tls, invalid_server_name, upstream_handshake_failed,
  out_of_fuel,
}
use pgfault.Proxy.Relay.{Connection, Input, run}
use pgfault.Proxy.Metadata.{metadata}
use pgfault.Proxy.Negotiate.{Stream, plain, tls, Negotiated, again, accepted, negotiate_all}

-- What the configuration and the world have for a connection. The server's reply to a request for
-- TLS is its first byte, if one comes. `valid_name` is a library's test of a host name.
pub record World : Type 0 where
  pub scenarios : List Scenario
  pub acceptor : Bool
  pub client_handshake : Bool
  pub upstream : Bytes
  pub upstream_tls : Bool
  pub reachable : Bool
  pub reply : Option ℕ
  pub valid_name : Bytes → Bool
  pub server_handshake : Bool

-- `rsplit_once(':')`: the text before the last colon, if there is one.
unfoldable pub before_last : Bytes → Option Bytes
before_last [] = none
before_last (b ∷ bs) = elim (before_last bs) [
  | some before ↦ some (b ∷ before)
  | none ↦ if b == b':' then some [] else none
]

unfoldable pub host : Bytes → Bytes
unfolding before_last
host address = elim (before_last address) [ none ↦ address | some before ↦ before ]

abbrev pub tls_request : Bytes
tls_request = be_bytes 8 ++ be_bytes ssl_request

-- `tls::server_name`
unfoldable pub server_name : World → Bytes → M (Unit {0})
server_name e name = if e.valid_name name then pure tt else fail invalid_server_name

-- `tls::connect`
unfoldable pub connect_tls : World → M Stream
connect_tls e = if e.server_handshake then pure tls else fail upstream_handshake_failed

-- The server's reply to the request for TLS, and what follows it.
unfoldable pub upgrade : World → M Stream
unfolding host server_name connect_tls
upgrade e = elim e.reply [
  | none ↦ fail no_upstream_reply
  | some b ↦
      if not (b == b'S')
      then fail upstream_without_tls
      else (do server_name e (host e.upstream); connect_tls e)
]

unfoldable pub connect : World → M Stream
unfolding upgrade
connect e =
    if e.reachable
    then (do
      tell connected
      if e.upstream_tls then (do tell (to_upstream tls_request); upgrade e) else pure plain)
    else fail connect_failed

abbrev pub startup_metadata : Bytes → M StartupMetadata
startup_metadata packet = elim (metadata packet) [
  | none ↦ fail out_of_fuel
  | some (err e) ↦ fail e
  | some (ok m) ↦ pure m
]

-- The connection that the relay starts from.
unfoldable pub fresh : ℕ → List Scenario → StartupMetadata → Connection
fresh id scenarios m = record {
  state = new id m;
  matchers = map new_matcher scenarios;
  held = [];
  held_size = 0;
  truncate = none;
}

unfoldable pub begin : ℕ → World → Bytes → M Connection
unfolding connect fresh
begin id e packet = do
  m ← startup_metadata packet
  stream ← connect e
  tell (to_upstream packet)
  tell (recorded (lifecycle id "startup" ""))
  pure (fresh id e.scenarios m)

-- What `connection` comes to. `waiting`: for a packet of the client. `relayed`: the relay goes on, or
-- has ended.
pub data Connected : Type 0 where
  waiting cancelled panicked : Connected
  relayed : Option Connection → Connected

module _ (digest : Bytes → String) (parse_duration : String → Option ℕ) (id : ℕ) where
  -- The function, on what the calls of `startup` come to and the inputs of the relay.
  unfoldable pub connection : World → List (Result ProxyError Bytes) → List Input → M Connected
  unfolding begin
  connection e packets inputs = do
    r ← negotiate_all e.reachable e.acceptor e.client_handshake id packets plain
    elim r [
      | again stream ↦ pure waiting
      | Negotiated.cancelled ↦ pure cancelled
      | Negotiated.panicked ↦ pure panicked
      | accepted packet stream ↦ (do
        c ← begin id e packet
        after ← run digest parse_duration id inputs c
        pure (relayed after))
    ]
