-- ===== src/Proxy/Socket/Upgrade.antt =====
-- A stream from its socket on, over calls and handshakes: its descriptor stays that of the socket.
use pgfault.Base.{
  ℕ, ◌≡◌, refl, sym, ap, ◌∙◌, Option, none, some, nat_eq, string_eq, bytes_eq_instance,
}
use pgfault.Base.Result.{Result, ok, ok-injective}
use pgfault.Proxy.Socket.{
  Async, Stream, plain, tls, of_stream, into_plain, fd, reset, HandshakeError, with_client,
  with_upstream, session, accept, connect,
}
use pgfault.Proxy.Socket.Calls.{Call, call, call-plain, call-tls}

module _ {World Context ReadBuf IoError Tcp Tls Acceptor Connector Name : Type 0}
    (of_tcp : Async World Context ReadBuf IoError Tcp)
    (of_tls : Async World Context ReadBuf IoError Tls) (as_raw_fd : Tcp → ℕ)
    (set_linger : ℕ → Option ℕ → World → World × Result IoError (Unit {0}))
    (accepting : Acceptor → Tcp → World → World × Option Tls)
    (connecting : Connector → Name → Tcp → World → World × Option Tls) where
  -- What comes of a socket: each step may have a world of its own.
  pub data Reach (t : Tcp) : Stream Tcp Tls → Type 0 where
    start : Reach t (plain t)
    called :
        (s : Stream Tcp Tls)
        → Reach t s
        → (k : Call Context ReadBuf) (w : World) → Reach t (call (of_stream of_tcp of_tls) k s w).1
    accepted :
        (s s' : Stream Tcp Tls) (t' : Tcp) (w w' : World)
        → Reach t s
        → into_plain s ≡ some t'
        → (acceptor : Acceptor) → accept as_raw_fd accepting t' acceptor w ≡ (w', ok s')
        → Reach t s'
    connected :
        (s s' : Stream Tcp Tls) (t' : Tcp) (w w' : World)
        → Reach t s
        → into_plain s ≡ some t'
        → (connector : Connector) (name : Name)
        → connect as_raw_fd connecting t' connector name w ≡ (w', ok s')
        → Reach t s'

  -- A call of a socket leaves its descriptor.
  abbrev pub KeepsFd : Type 0
  KeepsFd =
      (k : Call Context ReadBuf) (t : Tcp) (w : World)
      → as_raw_fd (call of_tcp k t w).1 ≡ as_raw_fd t

  fd-call :
      KeepsFd
      → (k : Call Context ReadBuf) (s : Stream Tcp Tls) (w : World)
      → fd as_raw_fd set_linger (call (of_stream of_tcp of_tls) k s w).1 ≡ fd as_raw_fd set_linger s
  unfolding fd
  fd-call keeps k (plain t) w = rw (call-plain of_tcp of_tls k t w) (keeps k t w)
  fd-call keeps k (tls t n) w = rw (call-tls of_tcp of_tls k t n w) refl

  fd-session :
      (e : HandshakeError) (n : ℕ) (p : World × Option Tls) (w' : World) (s : Stream Tcp Tls)
      → session as_raw_fd e n p ≡ (w', ok s)
      → fd as_raw_fd set_linger s ≡ n
  unfolding fd
  fd-session e n (w, none) w' s h = let bad : ⊥ = cc in elim bad [ ]
  fd-session e n (w, some t) w' s h =
      sym (ap (fd as_raw_fd set_linger) (ok-injective (ap (λ p. p.1) h)))

  fd-into_plain :
      (s : Stream Tcp Tls) (t : Tcp)
      → into_plain s ≡ some t
      → fd as_raw_fd set_linger s ≡ as_raw_fd t
  unfolding fd into_plain
  fd-into_plain (plain t') t h = ap as_raw_fd cc
  fd-into_plain (tls t' n) t h = let bad : ⊥ = cc in elim bad [ ]

  Reach-fd :
      KeepsFd → (t : Tcp) (s : Stream Tcp Tls) → Reach t s → fd as_raw_fd set_linger s ≡ as_raw_fd t
  unfolding fd accept connect
  Reach-fd keeps t s start = refl
  Reach-fd keeps t s (called s0 r k w) = fd-call keeps k s0 w ∙ Reach-fd keeps t s0 r
  Reach-fd keeps t s (accepted s0 s1 t' w w' r p acceptor h) =
      fd-session with_client (as_raw_fd t') (accepting acceptor t' w) w' s h
      ∙ sym (fd-into_plain s0 t' p)
      ∙ Reach-fd keeps t s0 r
  Reach-fd keeps t s (connected s0 s1 t' w w' r p connector name h) =
      fd-session with_upstream (as_raw_fd t') (connecting connector name t' w) w' s h
      ∙ sym (fd-into_plain s0 t' p)
      ∙ Reach-fd keeps t s0 r

  -- If the calls of a socket leave its descriptor, then for any stream that comes of a plain
  -- socket by calls and handshakes, in any order and in any worlds, `reset` sets the linger time
  -- of the descriptor of that socket to zero.
  pub Reach-reset :
      KeepsFd
      → (t : Tcp) (s : Stream Tcp Tls) (w : World) → Reach t s
      → reset as_raw_fd set_linger s w ≡ set_linger (as_raw_fd t) (some 0) w
  unfolding reset
  Reach-reset keeps t s w r = ap (λ n. set_linger n (some 0) w) (Reach-fd keeps t s r)
