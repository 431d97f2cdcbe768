-- ===== src/Proxy/Negotiate.antt =====
-- The first loop of `connection`, and `Stream` of crates/pgfault-proxy/src/tls.rs as far as it goes
-- through: whether TLS stands on the socket of the client.
use pgfault.Base.{ℕ, if◌then◌else◌, ◌==◌, Bool, not, List, [], ◌∷◌, Bytes, length, get_or}
use pgfault.Base.Result.{Result, ok, err}
use pgfault.Base.Word.{from_be}
use pgfault.Wire.{ssl_request, gss_request, cancel_request, protocol_v3}
use pgfault.Trace.{lifecycle}
use pgfault.Scenario.{Side}
use pgfault.Proxy.Effects.{
  M, pure, fail, ◌>>=◌, ◌>>◌, tell, to_client, to_upstream, recorded, shut_down, connected,
  invalid_negotiation, invalid_cancellation, unsupported_protocol, handshake_failed, connect_failed,
  ProxyError,
}

pub data Stream : Type 0 where
  plain tls : Stream

-- What a packet comes to. `panicked` is the `unreachable!` of `into_plain`.
pub data Negotiated : Type 0 where
  again : Stream → Negotiated
  accepted : Bytes → Stream → Negotiated
  cancelled : Negotiated
  panicked : Negotiated

abbrev pub request_code : Bytes → ℕ
request_code p = from_be (get_or p 4 0) (get_or p 5 0) (get_or p 6 0) (get_or p 7 0)

-- `tls::accept(frontend.into_plain(), acceptor)`. `handshake` says whether the handshake succeeds.
abbrev pub accept_tls : Bool → Stream → M Negotiated
accept_tls handshake tls = pure panicked
accept_tls handshake plain = if handshake then pure (again tls) else fail handshake_failed

-- `reachable`: the server can be connected to, for a cancellation. `acceptor`: the proxy has a
-- certificate for its clients.
unfoldable pub negotiate : Bool → Bool → Bool → ℕ → Bytes → Stream → M Negotiated
negotiate reachable acceptor handshake id packet stream =
    let code = request_code packet in
    if code == ssl_request
    then (if not (length packet == 8)
        then fail invalid_negotiation
        else if acceptor
        then (do tell (to_client (b'S' ∷ [])); accept_tls handshake stream)
        else (do tell (to_client (b'N' ∷ [])); pure (again stream)))
    else if code == gss_request
    then (if not (length packet == 8)
        then fail invalid_negotiation
        else (do tell (to_client (b'N' ∷ [])); pure (again stream)))
    else if code == cancel_request
    then (if not (length packet == 16)
        then fail invalid_cancellation
        else if reachable
        then (do
          tell connected
          tell (to_upstream packet)
          tell (shut_down Side.upstream)
          tell (recorded (lifecycle id "cancel.forwarded" ""))
          pure cancelled)
        else fail connect_failed)
    else if code == protocol_v3
    then pure (accepted packet stream)
    else fail (unsupported_protocol code)

-- The loop, over what the calls of `startup` come to: a packet, its error, or the timeout. `again`: it
-- still waits for one.
unfoldable pub negotiate_all :
    Bool → Bool → Bool → ℕ → List (Result ProxyError Bytes) → Stream → M Negotiated
unfolding negotiate
negotiate_all reachable acceptor handshake id [] stream = pure (again stream)
negotiate_all reachable acceptor handshake id (err e ∷ ps) stream = fail e
negotiate_all reachable acceptor handshake id (ok p ∷ ps) stream = do
  r ← negotiate reachable acceptor handshake id p stream
  elim r [
    | again stream' ↦ negotiate_all reachable acceptor handshake id ps stream'
    | accepted packet stream' ↦ pure (accepted packet stream')
    | cancelled ↦ pure cancelled
    | panicked ↦ pure panicked
  ]
