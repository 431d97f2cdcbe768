-- ===== src/Proxy/Socket.antt =====
-- crates/pgfault-proxy/src/tls.rs: `Stream`, which is a socket with or without TLS on it, the
-- handshakes, and `NoVerify`. tokio, socket2 and rustls are parameters: the calls of their objects
-- act on a world, and return the object behind the call.
pub mod Calls
pub mod Upgrade
pub mod View
use pgfault.Base.{ℕ, Option, none, some, List, Bytes}
use pgfault.Base.Result.{Result, ok, err}

pub data Poll (A : Type 0) : Type 0 where
  pending : Poll A
  ready : A → Poll A

-- `AsyncRead` and `AsyncWrite` of objects of a type.
pub record Async (World Context ReadBuf IoError Object : Type 0) : Type 0 where
  pub poll_read :
      Object
      → Context
      → ReadBuf
      → World
      → World × Object × ReadBuf × Poll (Result IoError (Unit {0}))
  pub poll_write : Object → Context → Bytes → World → World × Object × Poll (Result IoError ℕ)
  pub poll_flush : Object → Context → World → World × Object × Poll (Result IoError (Unit {0}))
  pub poll_shutdown : Object → Context → World → World × Object × Poll (Result IoError (Unit {0}))

-- `tls session fd`: the descriptor is that of the socket below the session.
pub data Stream (Tcp Tls : Type 0) : Type 0 where
  plain : Tcp → Stream Tcp Tls
  tls : Tls → ℕ → Stream Tcp Tls

module _ {World Context ReadBuf IoError Tcp Tls : Type 0}
    (of_tcp : Async World Context ReadBuf IoError Tcp)
    (of_tls : Async World Context ReadBuf IoError Tls) where
  unfoldable pub poll_read :
      Stream Tcp Tls
      → Context
      → ReadBuf
      → World
      → World × Stream Tcp Tls × ReadBuf × Poll (Result IoError (Unit {0}))
  poll_read (plain t) cx buf w =
      let (w', t', buf', r) = of_tcp.poll_read t cx buf w in (w', plain t', buf', r)
  poll_read (tls t fd) cx buf w =
      let (w', t', buf', r) = of_tls.poll_read t cx buf w in (w', tls t' fd, buf', r)

  unfoldable pub poll_write :
      Stream Tcp Tls → Context → Bytes → World → World × Stream Tcp Tls × Poll (Result IoError ℕ)
  poll_write (plain t) cx buf w =
      let (w', t', r) = of_tcp.poll_write t cx buf w in (w', plain t', r)
  poll_write (tls t fd) cx buf w =
      let (w', t', r) = of_tls.poll_write t cx buf w in (w', tls t' fd, r)

  unfoldable pub poll_flush :
      Stream Tcp Tls → Context → World → World × Stream Tcp Tls × Poll (Result IoError (Unit {0}))
  poll_flush (plain t) cx w = let (w', t', r) = of_tcp.poll_flush t cx w in (w', plain t', r)
  poll_flush (tls t fd) cx w = let (w', t', r) = of_tls.poll_flush t cx w in (w', tls t' fd, r)

  unfoldable pub poll_shutdown :
      Stream Tcp Tls → Context → World → World × Stream Tcp Tls × Poll (Result IoError (Unit {0}))
  poll_shutdown (plain t) cx w = let (w', t', r) = of_tcp.poll_shutdown t cx w in (w', plain t', r)
  poll_shutdown (tls t fd) cx w =
      let (w', t', r) = of_tls.poll_shutdown t cx w in (w', tls t' fd, r)

  -- `impl AsyncRead for Stream` and `impl AsyncWrite for Stream`
  abbrev pub of_stream : Async World Context ReadBuf IoError (Stream Tcp Tls)
  of_stream = record {
    poll_read = poll_read;
    poll_write = poll_write;
    poll_flush = poll_flush;
    poll_shutdown = poll_shutdown;
  }

-- `none`: the `unreachable!`.
unfoldable pub into_plain : {Tcp Tls : Type 0} → Stream Tcp Tls → Option Tcp
into_plain (plain t) = some t
into_plain (tls t fd) = none

-- `as_raw_fd` is the descriptor of a socket, and `set_linger fd linger` is socket2's, with the
-- duration in nanoseconds.
module _ {World IoError Tcp Tls : Type 0} (as_raw_fd : Tcp → ℕ)
    (set_linger : ℕ → Option ℕ → World → World × Result IoError (Unit {0})) where
  unfoldable pub fd : Stream Tcp Tls → ℕ
  fd (plain t) = as_raw_fd t
  fd (tls t n) = n

  unfoldable pub reset : Stream Tcp Tls → World → World × Result IoError (Unit {0})
  unfolding fd
  reset s w = set_linger (fd s) (some 0) w

pub data HandshakeError : Type 0 where
  with_client with_upstream : HandshakeError

-- `handshake` is that of the acceptor, or of the connector with the name of the server: the session
-- on the socket, if there is one.
module _ {World Tcp Tls : Type 0} (as_raw_fd : Tcp → ℕ) where
  abbrev pub session :
      HandshakeError → ℕ → World × Option Tls → World × Result HandshakeError (Stream Tcp Tls)
  session e fd (w, none) = (w, err e)
  session e fd (w, some t) = (w, ok (tls t fd))

  unfoldable pub accept :
      {Acceptor : Type 0}
      → (Acceptor → Tcp → World → World × Option Tls)
      → Tcp
      → Acceptor
      → World
      → World × Result HandshakeError (Stream Tcp Tls)
  accept handshake tcp acceptor w =
      let fd = as_raw_fd tcp in session with_client fd (handshake acceptor tcp w)

  unfoldable pub connect :
      {Connector Name : Type 0}
      → (Connector → Name → Tcp → World → World × Option Tls)
      → Tcp
      → Connector
      → Name
      → World
      → World × Result HandshakeError (Stream Tcp Tls)
  connect handshake tcp connector name w =
      let fd = as_raw_fd tcp in session with_upstream fd (handshake connector name tcp w)
