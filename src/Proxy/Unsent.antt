-- ===== src/Proxy/Unsent.antt =====
-- The negotiation with the client: nothing of it goes to the server, but a cancellation.
use pgfault.Base.{
  ℕ, ◌==◌, if◌then◌else◌, ◌≡◌, refl, ◌∙◌, Bool, true, false, not, List, [], ◌∷◌, ◌++◌, append-nil,
  Bytes, length, nat_eq, string_eq, bytes_eq_instance,
}
use pgfault.Base.Result.{Result, ok, err}
use pgfault.Proxy.Effects.{Effect, ProxyError, M, continue, pure, to_client}
use pgfault.Wire.{ssl_request, gss_request, cancel_request, protocol_v3}
use pgfault.Proxy.Negotiate.{
  Stream, plain, tls, Negotiated, again, accepted, request_code, accept_tls, negotiate,
  negotiate_all,
}
use pgfault.Proxy.Sent.{upstream, upstream-append}
use pgfault.Proxy.Outcome.{Leaves}

-- What a packet of the negotiation comes to: unless it is a cancellation, nothing goes to the server.
abbrev pub UnsentUnless : Negotiated → List Effect → List Effect → Type 0
UnsentUnless Negotiated.cancelled w v = Unit {0}
UnsentUnless _ w v = upstream v ≡ upstream w

abbrev pub Unsent : List Effect → List Effect × Result ProxyError Negotiated → Type 0
Unsent w = Leaves (λ v r. UnsentUnless r w v) (λ v. upstream v ≡ upstream w)

Unsent-if :
    (w : List Effect) (b : Bool) (x y : M Negotiated) (v : List Effect)
    → (b ≡ true → Unsent w (x v))
    → (b ≡ false → Unsent w (y v))
    → Unsent w ((if b then x else y) v)
Unsent-if w true x y v h k = h refl
Unsent-if w false x y v h k = k refl

-- An answer of one byte to the client.
answered : (b : ℕ) (w : List Effect) → upstream (w ++ to_client (b ∷ []) ∷ []) ≡ upstream w
answered b w = simp (upstream-append, append-nil)

accept_tls-Unsent :
    (handshake : Bool) (stream : Stream) (b : ℕ) (w : List Effect)
    → Unsent w (accept_tls handshake stream (w ++ to_client (b ∷ []) ∷ []))
accept_tls-Unsent handshake tls b w = answered b w
accept_tls-Unsent true plain b w = answered b w
accept_tls-Unsent false plain b w = answered b w

negotiate-Unsent :
    (reachable acceptor handshake : Bool) (id : ℕ) (packet : Bytes) (stream : Stream)
    (w : List Effect)
    → Unsent w (negotiate reachable acceptor handshake id packet stream w)
unfolding negotiate
negotiate-Unsent reachable acceptor handshake id packet stream w =
    Unsent-if w (request_code packet == ssl_request) _ _ w
      (λ ssl.
        Unsent-if w (not (length packet == 8)) _ _ w (λ long. refl)
          (λ fits.
            Unsent-if w acceptor _ _ w (λ able. accept_tls-Unsent handshake stream b'S' w)
              (λ unable. answered b'N' w)))
      (λ more.
        Unsent-if w (request_code packet == gss_request) _ _ w
          (λ gss.
            Unsent-if w (not (length packet == 8)) _ _ w (λ long. refl) (λ fits. answered b'N' w))
          (λ more.
            Unsent-if w (request_code packet == cancel_request) _ _ w
              (λ cancel.
                Unsent-if w (not (length packet == 16)) _ _ w (λ long. refl)
                  (λ fits. Unsent-if w reachable _ _ w (λ there. tt) (λ gone. refl)))
              (λ more.
                Unsent-if w (request_code packet == protocol_v3) _ _ w (λ start. refl)
                  (λ other. refl))))

UnsentUnless-trans :
    (r : Negotiated) (u v w : List Effect)
    → upstream v ≡ upstream u
    → UnsentUnless r v w
    → UnsentUnless r u w
UnsentUnless-trans Negotiated.cancelled u v w h k = tt
UnsentUnless-trans (again stream) u v w h k = k ∙ h
UnsentUnless-trans (accepted packet stream) u v w h k = k ∙ h
UnsentUnless-trans Negotiated.panicked u v w h k = k ∙ h

Unsent-trans :
    (u v : List Effect) (q : List Effect × Result ProxyError Negotiated)
    → upstream v ≡ upstream u
    → Unsent v q
    → Unsent u q
Unsent-trans u v (w, ok r) h k = UnsentUnless-trans r u v w h k
Unsent-trans u v (w, err e) h k = k ∙ h

Unsent-continue :
    (w : List Effect) (q : List Effect × Result ProxyError Negotiated)
    (f : Negotiated → M Negotiated)
    → Unsent w q
    → ((r : Negotiated) (v : List Effect) → UnsentUnless r w v → Unsent w (f r v))
    → Unsent w (continue q f)
Unsent-continue w (v, ok r) f h k = k r v h
Unsent-continue w (v, err e) f h k = h

-- The loop behind a packet.
abbrev pub next_packet :
    Bool → Bool → Bool → ℕ → List (Result ProxyError Bytes) → Negotiated → M Negotiated
next_packet reachable acceptor handshake id ps r = elim r [
  | again stream ↦ negotiate_all reachable acceptor handshake id ps stream
  | accepted packet stream ↦ pure (accepted packet stream)
  | Negotiated.cancelled ↦ pure Negotiated.cancelled
  | Negotiated.panicked ↦ pure Negotiated.panicked
]

each :
    (reachable acceptor handshake : Bool) (id : ℕ) (ps : List (Result ProxyError Bytes))
    (w : List Effect) (r : Negotiated) (v : List Effect)
    → UnsentUnless r w v
    → ((stream : Stream) (v : List Effect)
        → Unsent v (negotiate_all reachable acceptor handshake id ps stream v))
    → Unsent w (next_packet reachable acceptor handshake id ps r v)
each reachable acceptor handshake id ps w (again stream) v h k =
    Unsent-trans w v (negotiate_all reachable acceptor handshake id ps stream v) h (k stream v)
each reachable acceptor handshake id ps w (accepted packet stream) v h k = h
each reachable acceptor handshake id ps w Negotiated.cancelled v h k = tt
each reachable acceptor handshake id ps w Negotiated.panicked v h k = h

pub negotiate_all-Unsent :
    (reachable acceptor handshake : Bool) (id : ℕ) (ps : List (Result ProxyError Bytes))
    (stream : Stream) (w : List Effect)
    → Unsent w (negotiate_all reachable acceptor handshake id ps stream w)
unfolding negotiate_all
negotiate_all-Unsent reachable acceptor handshake id [] stream w = refl
negotiate_all-Unsent reachable acceptor handshake id (err e ∷ ps) stream w = refl
negotiate_all-Unsent reachable acceptor handshake id (ok p ∷ ps) stream w =
    Unsent-continue w (negotiate reachable acceptor handshake id p stream w) _
      (negotiate-Unsent reachable acceptor handshake id p stream w)
      (λ r v h.
        each reachable acceptor handshake id ps w r v h
          (λ stream' v'. negotiate_all-Unsent reachable acceptor handshake id ps stream' v'))
