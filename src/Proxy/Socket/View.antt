-- ===== src/Proxy/Socket/View.antt =====
-- The streams of `Proxy.Negotiate` and `Proxy.Connect` are the view of these.
use pgfault.Base.{
  ℕ, if◌then◌else◌, ◌≡◌, refl, Bool, false, Option, none, some, List, nat_eq, string_eq,
  bytes_eq_instance,
}
use pgfault.Base.Result.{Result, ok, err}
use pgfault.Scenario.Validate.{is_some}
use pgfault.Proxy.Effects.{
  Effect, ProxyError, fail, pure, handshake_failed, upstream_handshake_failed,
}
use pgfault.Proxy.Negotiate
use pgfault.Proxy.Negotiate.{Negotiated, again, panicked, accept_tls}
use pgfault.Proxy.Connect.{World, connect_tls}
use pgfault.Proxy.Socket.{
  Stream, plain, tls, into_plain, HandshakeError, with_client, with_upstream, session, accept,
  connect,
}

-- Whether TLS stands on the socket.
abbrev pub view : {Tcp Tls : Type 0} → Stream Tcp Tls → Negotiate.Stream
view (plain t) = Negotiate.plain
view (tls t fd) = Negotiate.tls

module _ {Sys Tcp Tls Acceptor Connector Name : Type 0} (as_raw_fd : Tcp → ℕ)
    (accepting : Acceptor → Tcp → Sys → Sys × Option Tls)
    (connecting : Connector → Name → Tcp → Sys → Sys × Option Tls) where
  -- `tls::accept(frontend.into_plain(), acceptor)`. `none`: the task panics.
  abbrev accept_or_panic :
      Acceptor → Sys → Option Tcp → Sys × Option (Result HandshakeError (Stream Tcp Tls))
  accept_or_panic acceptor w none = (w, none)
  accept_or_panic acceptor w (some t) =
      let (w', r) = accept as_raw_fd accepting t acceptor w in (w', some r)

  unfoldable pub accept_stream :
      Stream Tcp Tls → Acceptor → Sys → Sys × Option (Result HandshakeError (Stream Tcp Tls))
  unfolding accept into_plain
  accept_stream s acceptor w = accept_or_panic acceptor w (into_plain s)

  -- Whether the handshake on a plain stream succeeds.
  abbrev pub handshaken : Stream Tcp Tls → Acceptor → Sys → Bool
  handshaken (plain t) acceptor w = is_some (accepting acceptor t w).1
  handshaken (tls t fd) acceptor w = false

  abbrev pub seen : Option (Result HandshakeError (Stream Tcp Tls)) → Result ProxyError Negotiated
  seen none = ok panicked
  seen (some (ok s)) = ok (again (view s))
  seen (some (err e)) = err handshake_failed

  seen-session :
      (n : ℕ) (p : Sys × Option Tls) (v : List Effect)
      → (if is_some p.1 then pure (again Negotiate.tls) else fail handshake_failed) v
        ≡ (v, seen (some (session as_raw_fd with_client n p).1))
  seen-session n (w, none) v = refl
  seen-session n (w, some t) v = refl

  -- For any stream and acceptor, `accept_tls` on the view of the stream, told whether the
  -- handshake on its socket succeeds, comes to the view of what `accept` on the result of
  -- `into_plain` comes to: a panic on a stream with TLS, the stream with TLS, or the error.
  pub accept_stream-view :
      (s : Stream Tcp Tls) (acceptor : Acceptor) (w : Sys) (v : List Effect)
      → accept_tls (handshaken s acceptor w) (view s) v ≡ (v, seen (accept_stream s acceptor w).1)
  unfolding accept_stream accept into_plain
  accept_stream-view (tls t fd) acceptor w v = refl
  accept_stream-view (plain t) acceptor w v = seen-session (as_raw_fd t) (accepting acceptor t w) v

  -- What `tls::connect` comes to.
  abbrev pub answered : Result HandshakeError (Stream Tcp Tls) → Result ProxyError Negotiate.Stream
  answered (ok s) = ok (view s)
  answered (err e) = err upstream_handshake_failed

  answered-session :
      (n : ℕ) (p : Sys × Option Tls) (v : List Effect)
      → (if is_some p.1 then pure Negotiate.tls else fail upstream_handshake_failed) v
        ≡ (v, answered (session as_raw_fd with_upstream n p).1)
  answered-session n (w, none) v = refl
  answered-session n (w, some t) v = refl

  pub connect-view :
      (t : Tcp) (connector : Connector) (name : Name) (w : Sys) (e : World) (v : List Effect)
      → e.server_handshake ≡ is_some (connecting connector name t w).1
      → connect_tls e v ≡ (v, answered (connect as_raw_fd connecting t connector name w).1)
  unfolding connect_tls connect
  connect-view t connector name w e v h =
      rw h (answered-session (as_raw_fd t) (connecting connector name t w) v)
