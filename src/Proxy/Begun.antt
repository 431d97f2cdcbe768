-- ===== src/Proxy/Begun.antt =====
-- The trace of a connection up to its relay: no fault is in it.
use pgfault.Base.{
  ℕ, ◌==◌, ◌≡◌, refl, Bool, true, false, not, String, Option, none, some, List, [], ◌∷◌, ◌++◌, map,
  All, Bytes, length, inl, inr, Option-cases, nat_eq, string_eq, bytes_eq_instance,
}
use pgfault.Base.Result.{Result, ok, err, Result-cases}
use pgfault.Wire.{ssl_request, gss_request, cancel_request, protocol_v3}
use pgfault.Scenario.{Scenario, Side}
use pgfault.Scenario.Validate.{validate}
use pgfault.Scenario.Matcher.{new_matcher}
use pgfault.Trace.{lifecycle}
use pgfault.Proxy.Effects.{
  M, pure, ◌>>=◌, Effect, ProxyError, to_client, to_upstream, recorded, shut_down, connected,
}
use pgfault.Proxy.Relay.{Connection, Input, run}
use pgfault.Proxy.Metadata.{metadata}
use pgfault.Proxy.Negotiate.{
  Stream, plain, tls, Negotiated, again, accepted, request_code, accept_tls, negotiate,
  negotiate_all,
}
use pgfault.Proxy.Connect.{
  World, tls_request, host, server_name, connect_tls, upgrade, connect, startup_metadata, fresh,
  begin, Connected, waiting, relayed, connection,
}
use pgfault.Proxy.Unsent.{next_packet}
use pgfault.Proxy.Outcome.{Leaves, Leaves-continue, Leaves-if}
use pgfault.Proxy.Cut.{AllValid}
use pgfault.Proxy.Pinnable.{Pinnable, Ready, Going, Pinnable-concat}
use pgfault.Proxy.Replayed.{run-Going}

module _ (parse_duration : String → Option ℕ) where
  abbrev After {ℓ} : {A : Type ℓ} → List Effect → A → Type 0
  After w a = Pinnable parse_duration w

  -- Whatever it comes to, the faults of the trace are pinnable.
  abbrev pub Ends {ℓ} : {A : Type ℓ} → List Effect × Result ProxyError A → Type 0
  Ends p = Leaves After (Pinnable parse_duration) p

  accept_tls-Ends :
      (handshake : Bool) (stream : Stream) (w : List Effect)
      → Pinnable parse_duration w
      → Ends (accept_tls handshake stream w)
  accept_tls-Ends handshake tls w k = k
  accept_tls-Ends true plain w k = k
  accept_tls-Ends false plain w k = k

  cancel-Pinnable :
      (id : ℕ) (packet : Bytes) (w : List Effect)
      → Pinnable parse_duration w
      → Pinnable parse_duration (
          (((w ++ connected ∷ []) ++ to_upstream packet ∷ []) ++ shut_down Side.upstream ∷ [])
          ++ recorded (lifecycle id "cancel.forwarded" "") ∷ [])
  cancel-Pinnable id packet w k =
      let w1 = w ++ connected ∷ [] in
      let w2 = w1 ++ to_upstream packet ∷ [] in
      let w3 = w2 ++ shut_down Side.upstream ∷ [] in
      Pinnable-concat parse_duration w3 (recorded (lifecycle id "cancel.forwarded" "")) refl (
        Pinnable-concat parse_duration w2 (shut_down Side.upstream) refl (
          Pinnable-concat parse_duration w1 (to_upstream packet) refl
            (Pinnable-concat parse_duration w connected refl k)))

  negotiate-Ends :
      (reachable acceptor handshake : Bool) (id : ℕ) (packet : Bytes) (stream : Stream)
      (w : List Effect)
      → Pinnable parse_duration w
      → Ends (negotiate reachable acceptor handshake id packet stream w)
  unfolding negotiate
  negotiate-Ends reachable acceptor handshake id packet stream w k =
      let says = λ (b : ℕ). Pinnable-concat parse_duration w (to_client (b ∷ [])) refl k in
      Leaves-if After (Pinnable parse_duration) (request_code packet == ssl_request) _ _ w
        (λ ssl.
          Leaves-if After (Pinnable parse_duration) (not (length packet == 8)) _ _ w (λ long. k)
            (λ fits.
              Leaves-if After (Pinnable parse_duration) acceptor _ _ w
                (λ able.
                  accept_tls-Ends handshake stream (w ++ to_client (b'S' ∷ []) ∷ []) (says b'S'))
                (λ unable. says b'N')))
        (λ more.
          Leaves-if After (Pinnable parse_duration) (request_code packet == gss_request) _ _ w
            (λ gss.
              Leaves-if After (Pinnable parse_duration) (not (length packet == 8)) _ _ w (λ long. k)
                (λ fits. says b'N'))
            (λ more.
              Leaves-if After (Pinnable parse_duration) (request_code packet == cancel_request) _ _
                w
                (λ cancel.
                  Leaves-if After (Pinnable parse_duration) (not (length packet == 16)) _ _ w
                    (λ long. k)
                    (λ fits.
                      Leaves-if After (Pinnable parse_duration) reachable _ _ w
                        (λ there. cancel-Pinnable id packet w k) (λ gone. k)))
                (λ more.
                  Leaves-if After (Pinnable parse_duration) (request_code packet == protocol_v3) _ _
                    w (λ start. k) (λ other. k))))

  next_packet-Ends :
      (reachable acceptor handshake : Bool) (id : ℕ) (ps : List (Result ProxyError Bytes))
      (r : Negotiated) (w : List Effect)
      → Pinnable parse_duration w
      → ((stream : Stream) → Ends (negotiate_all reachable acceptor handshake id ps stream w))
      → Ends (next_packet reachable acceptor handshake id ps r w)
  next_packet-Ends reachable acceptor handshake id ps (again stream) w k more = more stream
  next_packet-Ends reachable acceptor handshake id ps (accepted packet stream) w k more = k
  next_packet-Ends reachable acceptor handshake id ps Negotiated.cancelled w k more = k
  next_packet-Ends reachable acceptor handshake id ps Negotiated.panicked w k more = k

  negotiate_all-Ends :
      (reachable acceptor handshake : Bool) (id : ℕ) (ps : List (Result ProxyError Bytes))
      (stream : Stream) (w : List Effect)
      → Pinnable parse_duration w
      → Ends (negotiate_all reachable acceptor handshake id ps stream w)
  unfolding negotiate_all
  negotiate_all-Ends reachable acceptor handshake id [] stream w k = k
  negotiate_all-Ends reachable acceptor handshake id (err e ∷ ps) stream w k = k
  negotiate_all-Ends reachable acceptor handshake id (ok p ∷ ps) stream w k =
      Leaves-continue After After (Pinnable parse_duration)
        (negotiate reachable acceptor handshake id p stream w) _
        (negotiate-Ends reachable acceptor handshake id p stream w k)
        (λ r v k1.
          next_packet-Ends reachable acceptor handshake id ps r v k1
            (λ stream'. negotiate_all-Ends reachable acceptor handshake id ps stream' v k1))

  startup_metadata-Ends :
      (packet : Bytes) (w : List Effect)
      → Pinnable parse_duration w
      → Ends (startup_metadata packet w)
  startup_metadata-Ends packet w k = elim (Option-cases (metadata packet)) [
    | inl stuck ↦ rw (stuck, startup_metadata) k
    | inr (r, read) ↦ elim (Result-cases r) [
      | inl (e, fails) ↦ rw (read, startup_metadata, fails) k
      | inr (m, returns) ↦ rw (read, startup_metadata, returns) k
    ]
  ]

  upgrade-Ends : (e : World) (w : List Effect) → Pinnable parse_duration w → Ends (upgrade e w)
  unfolding upgrade server_name connect_tls
  upgrade-Ends e w k = elim (Option-cases e.reply) [
    | inl silent ↦ rw silent k
    | inr (b, says) ↦ rw says (
        Leaves-if After (Pinnable parse_duration) (not (b == b'S')) _ _ w (λ declined. k)
          (λ agreed.
            Leaves-continue After After (Pinnable parse_duration)
              (server_name e (host e.upstream) w) _
              (Leaves-if After (Pinnable parse_duration) (e.valid_name (host e.upstream)) _ _ w
                (λ named. k) (λ bad. k))
              (λ u v k1.
                Leaves-if After (Pinnable parse_duration) e.server_handshake _ _ v (λ done. k1)
                  (λ fails. k1))))
  ]

  connect-Ends : (e : World) (w : List Effect) → Pinnable parse_duration w → Ends (connect e w)
  unfolding connect
  connect-Ends e w k =
      let k1 = Pinnable-concat parse_duration w connected refl k in
      Leaves-if After (Pinnable parse_duration) e.reachable _ _ w
        (λ there.
          Leaves-if After (Pinnable parse_duration) e.upstream_tls _ _ (w ++ connected ∷ [])
            (λ wanted. upgrade-Ends e ((w ++ connected ∷ []) ++ to_upstream tls_request ∷ []) (
              Pinnable-concat parse_duration (w ++ connected ∷ []) (to_upstream tls_request) refl
                k1))
            (λ plain_text. k1))
        (λ gone. k)

  -- The scenarios of the configuration are valid.
  abbrev pub ScenariosValid : List Scenario → Type 0
  ScenariosValid ss = All (λ s. validate parse_duration s ≡ ok tt) ss

  new-AllValid :
      (ss : List Scenario) → ScenariosValid ss → AllValid parse_duration (map new_matcher ss)
  new-AllValid [] valid = tt
  new-AllValid (s ∷ ss) (v, valid) = (v, new-AllValid ss valid)

  begin-Ready :
      (id : ℕ) (e : World) (packet : Bytes) (w : List Effect)
      → ScenariosValid e.scenarios
      → Pinnable parse_duration w
      → Leaves (Ready parse_duration) (Pinnable parse_duration) (begin id e packet w)
  unfolding begin fresh
  begin-Ready id e packet w valid k =
      Leaves-continue After (Ready parse_duration) (Pinnable parse_duration)
        (startup_metadata packet w) _ (startup_metadata-Ends packet w k)
        (λ m v k1.
          Leaves-continue After (Ready parse_duration) (Pinnable parse_duration) (connect e v) _
            (connect-Ends e v k1)
            (λ stream u k2. (
              Pinnable-concat parse_duration (u ++ to_upstream packet ∷ [])
                  (recorded (lifecycle id "startup" "")) refl
                  (Pinnable-concat parse_duration u (to_upstream packet) refl k2),
              new-AllValid e.scenarios valid,
            )))

  Going-Pinnable :
      (w : List Effect) (o : Option Connection)
      → Going parse_duration w o
      → Pinnable parse_duration w
  Going-Pinnable w none k = k
  Going-Pinnable w (some c) k = k.0

  module _ (digest : Bytes → String) (id : ℕ) (e : World) (is : List Input) where
    -- The rest of `connection` behind the negotiation.
    abbrev negotiated : Negotiated → M Connected
    negotiated r = elim r [
      | again stream ↦ pure waiting
      | Negotiated.cancelled ↦ pure Connected.cancelled
      | Negotiated.panicked ↦ pure Connected.panicked
      | accepted packet stream ↦ (do
        c ← begin id e packet
        after ← run digest parse_duration id is c
        pure (relayed after))
    ]

    negotiated-Ends :
        (r : Negotiated) (w : List Effect)
        → ScenariosValid e.scenarios
        → Pinnable parse_duration w
        → Ends (negotiated r w)
    negotiated-Ends (again stream) w valid k = k
    negotiated-Ends Negotiated.cancelled w valid k = k
    negotiated-Ends Negotiated.panicked w valid k = k
    negotiated-Ends (accepted packet stream) w valid k =
        Leaves-continue (Ready parse_duration) After (Pinnable parse_duration) (begin id e packet w)
          _ (begin-Ready id e packet w valid k)
          (λ c u ready.
            Leaves-continue (Going parse_duration) After (Pinnable parse_duration)
              (run digest parse_duration id is c u) _
              (run-Going digest parse_duration id is c u ready)
              (λ o t going. Going-Pinnable t o going))

    pub connection-Ends :
        (ps : List (Result ProxyError Bytes))
        → ScenariosValid e.scenarios
        → Ends (connection digest parse_duration id e ps is [])
    unfolding connection
    connection-Ends ps valid =
        Leaves-continue After After (Pinnable parse_duration)
          (negotiate_all e.reachable e.acceptor e.client_handshake id ps plain []) _
          (negotiate_all-Ends e.reachable e.acceptor e.client_handshake id ps plain [] tt)
          (λ r v k. negotiated-Ends r v valid k)
