-- ===== src/Checks/OfSocket.antt =====
-- The theorems on streams, at a socket with descriptor 7.
use pgfault.Base.{
  ℕ, suc, ◌≡◌, refl, Option, none, some, List, [], ◌∷◌, Bytes, length, nat_eq, string_eq,
  bytes_eq_instance,
}
use pgfault.Base.Result.{Result, ok}
use pgfault.Proxy.Socket.{
  Poll, ready, Async, Stream, plain, tls, poll_read, poll_write, into_plain, accept, reset,
}
use pgfault.Proxy.Socket.Calls.{reads, writes, flushes, shuts}
use pgfault.Proxy.Socket.Upgrade.{Reach, start, called, accepted, KeepsFd, Reach-reset}

-- The descriptors that were set to linger, and how long.
abbrev Lingers : Type 0
Lingers = List (ℕ × Option ℕ)

-- A socket is its descriptor. What is read is one byte.
abbrev sockets : Async Lingers (Unit {0}) Bytes (Unit {0}) ℕ
sockets = record {
  poll_read = λ t cx buf w. (w, t, 1 ∷ buf, ready (ok tt));
  poll_write = λ t cx bytes w. (w, t, ready (ok (length bytes)));
  poll_flush = λ t cx w. (w, t, ready (ok tt));
  poll_shutdown = λ t cx w. (w, t, ready (ok tt));
}

-- A session counts the calls that wrote.
abbrev sessions : Async Lingers (Unit {0}) Bytes (Unit {0}) ℕ
sessions = record {
  poll_read = λ t cx buf w. (w, t, 2 ∷ buf, ready (ok tt));
  poll_write = λ t cx bytes w. (w, suc t, ready (ok (length bytes)));
  poll_flush = λ t cx w. (w, t, Poll.pending);
  poll_shutdown = λ t cx w. (w, t, ready (ok tt));
}

abbrev as_raw_fd : ℕ → ℕ
as_raw_fd t = t

abbrev set_linger : ℕ → Option ℕ → Lingers → Lingers × Result (Unit {0}) (Unit {0})
set_linger fd linger w = ((fd, linger) ∷ w, ok tt)

abbrev accepting : Unit {0} → ℕ → Lingers → Lingers × Option ℕ
accepting acceptor t w = (w, some 0)

abbrev connecting : Unit {0} → Unit {0} → ℕ → Lingers → Lingers × Option ℕ
connecting connector name t w = (w, none)

keeps : KeepsFd sockets sessions as_raw_fd set_linger accepting connecting
keeps (reads cx buf) t w = refl
keeps (writes cx bytes) t w = refl
keeps (flushes cx) t w = refl
keeps (shuts cx) t w = refl

abbrev bare : Stream ℕ ℕ
bare = plain 7

abbrev wrapped : Stream ℕ ℕ
wrapped = tls 1 7

-- A read, the handshake, and a write.
upgraded : Reach sockets sessions as_raw_fd set_linger accepting connecting 7 (tls 1 7)
unfolding poll_read poll_write into_plain accept
upgraded =
    called (tls 0 7)
      (accepted (plain 7) (tls 0 7) 7 [] [] (called (plain 7) start (reads tt []) []) refl tt refl)
      (writes tt (5 ∷ [])) []

Reach-reset_example : reset as_raw_fd set_linger wrapped [] ≡ ((7, some 0) ∷ [], ok tt)
Reach-reset_example =
    Reach-reset sockets sessions as_raw_fd set_linger accepting connecting keeps 7 wrapped []
      upgraded
