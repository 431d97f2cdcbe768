-- ===== src/Proxy/Socket/Calls.antt =====
-- The calls of a stream: they are those of the object in it.
use pgfault.Base.{ℕ, ◌≡◌, refl, Bytes}
use pgfault.Base.Result.{Result}
use pgfault.Proxy.Socket.{
  Poll, Async, plain, tls, of_stream, poll_read, poll_write, poll_flush, poll_shutdown,
}

pub data Call (Context ReadBuf : Type 0) : Type 0 where
  reads : Context → ReadBuf → Call Context ReadBuf
  writes : Context → Bytes → Call Context ReadBuf
  flushes shuts : Context → Call Context ReadBuf

-- What a call returns, with the buffer of a read.
pub data Answer (ReadBuf IoError : Type 0) : Type 0 where
  has_read : ReadBuf → Poll (Result IoError (Unit {0})) → Answer ReadBuf IoError
  has_written : Poll (Result IoError ℕ) → Answer ReadBuf IoError
  is_done : Poll (Result IoError (Unit {0})) → Answer ReadBuf IoError

module _ {World Context ReadBuf IoError : Type 0} where
  module _ {Object : Type 0} (o : Async World Context ReadBuf IoError Object) where
    abbrev pub call :
        Call Context ReadBuf → Object → World → World × Object × Answer ReadBuf IoError
    call (reads cx buf) t w =
        let (w', t', buf', r) = o.poll_read t cx buf w in (w', t', has_read buf' r)
    call (writes cx bytes) t w =
        let (w', t', r) = o.poll_write t cx bytes w in (w', t', has_written r)
    call (flushes cx) t w = let (w', t', r) = o.poll_flush t cx w in (w', t', is_done r)
    call (shuts cx) t w = let (w', t', r) = o.poll_shutdown t cx w in (w', t', is_done r)

  module _ {Tcp Tls : Type 0} (of_tcp : Async World Context ReadBuf IoError Tcp)
      (of_tls : Async World Context ReadBuf IoError Tls) where
    pub call-plain :
        (k : Call Context ReadBuf) (t : Tcp) (w : World)
        → let (w', t', a) = call of_tcp k t w in
          call (of_stream of_tcp of_tls) k (plain t) w ≡ (w', plain t', a)
    unfolding poll_read poll_write poll_flush poll_shutdown
    call-plain (reads cx buf) t w = refl
    call-plain (writes cx bytes) t w = refl
    call-plain (flushes cx) t w = refl
    call-plain (shuts cx) t w = refl

    pub call-tls :
        (k : Call Context ReadBuf) (t : Tls) (fd : ℕ) (w : World)
        → let (w', t', a) = call of_tls k t w in
          call (of_stream of_tcp of_tls) k (tls t fd) w ≡ (w', tls t' fd, a)
    unfolding poll_read poll_write poll_flush poll_shutdown
    call-tls (reads cx buf) t fd w = refl
    call-tls (writes cx bytes) t fd w = refl
    call-tls (flushes cx) t fd w = refl
    call-tls (shuts cx) t fd w = refl
