-- ===== src/Proxy/Panic.antt =====
-- `negotiate`: when the `unreachable!` of `into_plain` is reached.
use pgfault.Base.{
  ℕ, ◌==◌, if◌then◌else◌, ◌≡◌, ◌↔◌, inl, inr, refl, ap, Bool, true, false, List, [], ◌∷◌, arith,
  Bytes, length, Bool-cases, nat_eq, string_eq, bytes_eq_instance,
}
use pgfault.Base.Result.{Result, ok}
use pgfault.Wire.{ssl_request}
use pgfault.Proxy.Effects.{Effect, ProxyError, M, pure, tell, ◌>>◌, to_client}
use pgfault.Proxy.Negotiate.{
  Stream, plain, tls, Negotiated, again, panicked, request_code, accept_tls, negotiate,
}

-- What a packet comes to, for each code. The panic needs a certificate, a session that has TLS
-- already, and a request of eight bytes for TLS in it.
abbrev pub Panics : Bool → Bytes → Stream → Type 0
Panics acceptor p stream =
    (acceptor ≡ true) × (stream ≡ tls) × (request_code p ≡ ssl_request) × (length p ≡ 8)

-- What is answered to a request for TLS.
abbrev answer : Bool → Bool → Stream → M Negotiated
answer acceptor handshake stream =
    if acceptor
    then (do tell (to_client (b'S' ∷ [])); accept_tls handshake stream)
    else (do tell (to_client (b'N' ∷ [])); pure (again stream))

answer-panicked :
    (acceptor handshake : Bool) (stream : Stream) (w : List Effect)
    → ((answer acceptor handshake stream w).1 ≡ ok panicked) ↔ ((acceptor ≡ true) × (stream ≡ tls))
answer-panicked true true plain w = (λ h. cc, λ h. cc)
answer-panicked true false plain w = (λ h. cc, λ h. cc)
answer-panicked true handshake tls w = (λ h. (refl, refl), λ h. refl)
answer-panicked false handshake stream w = (λ h. cc, λ h. cc)

abbrev unpanicked : Result ProxyError Negotiated → Bool
unpanicked (ok panicked) = false
unpanicked _ = true

-- A packet with another code.
other_code :
    (reachable acceptor handshake : Bool) (id : ℕ) (p : Bytes) (stream : Stream) (w : List Effect)
    → (request_code p == ssl_request) ≡ false
    → unpanicked (negotiate reachable acceptor handshake id p stream w).1 ≡ true
unfolding negotiate
other_code reachable acceptor handshake id p stream w other = ground arith

-- A negotiation packet makes the task panic exactly when the proxy has a certificate, the
-- client's stream has TLS already, and the packet is a request for TLS of eight bytes.
pub negotiate-Panics :
    (reachable acceptor handshake : Bool) (id : ℕ) (p : Bytes) (stream : Stream) (w : List Effect)
    → ((negotiate reachable acceptor handshake id p stream w).1 ≡ ok panicked)
      ↔ Panics acceptor p stream
unfolding negotiate
negotiate-Panics reachable acceptor handshake id p stream w =
    elim (Bool-cases (request_code p == ssl_request)) [
      | inl ssl ↦ elim (Bool-cases (length p == 8)) [
        | inl eight ↦
            let (forth, back) = answer-panicked acceptor handshake stream w in
            rw (ssl, eight)
              (
                λ h. ((forth h).0, (forth h).1, ground (arith, ssl), ground (arith, eight)),
                λ h. back (h.0, h.1),
              )
        | inr long ↦ rw (ssl, long) (λ h. cc, λ h. ground (arith, h.3, long))
      ]
      | inr other ↦ (
        λ h.
            ground
              (arith, other_code reachable acceptor handshake id p stream w other, ap unpanicked h),
        λ h. ground (arith, h.2, other),
      )
    ]
