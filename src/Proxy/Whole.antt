-- ===== src/Proxy/Whole.antt =====
-- `connection` as a whole: the negotiation, the connection to the server, and the relay.
use pgfault.Base.{
  subst, ℕ, if◌then◌else◌, ◌≡◌, inl, inr, refl, ap, ◌∙◌, true, String, Option, none, some, List, [],
  ◌∷◌, ◌++◌, append-nil, append_assoc, Bytes, All, Bool-cases, nat_eq, string_eq, bytes_eq_instance,
}
use pgfault.Base.Result.{Result, ok, err}
use pgfault.Events.{StartupMetadata}
use pgfault.State.{new}
use pgfault.Trace.{lifecycle}
use pgfault.Proxy.Effects.{Effect, ProxyError, continue, pure, to_upstream, recorded, connected}
use pgfault.Proxy.Relay.{Connection, Input, run}
use pgfault.Proxy.Metadata.{metadata}
use pgfault.Proxy.Negotiate.{Stream, plain, tls, accepted, negotiate_all}
use pgfault.Proxy.Connect.{
  World, host, tls_request, upgrade, connect, fresh, begin, startup_metadata, relayed, connection,
}
use pgfault.Proxy.Sent.{
  upstream, downstream, upstream-append, downstream-append, IsFrame, of_client, of_server, calm,
}
use pgfault.Proxy.Unsent.{Unsent, negotiate_all-Unsent}
use pgfault.Proxy.Transparent.{run-Crosses}

-- The server is reached, and gives TLS where it is wanted.
pub record Connects (e : World) : Type 0 where
  pub reached : e.reachable ≡ true
  pub replies : e.upstream_tls ≡ true → e.reply ≡ some b'S'
  pub named : e.upstream_tls ≡ true → e.valid_name (host e.upstream) ≡ true
  pub shaken : e.upstream_tls ≡ true → e.server_handshake ≡ true

-- The request for TLS, where it is wanted.
abbrev pub request : World → List Bytes
request e = if e.upstream_tls then tls_request ∷ [] else []

-- The effects of a connection to the server that is made.
abbrev reached : World → List Effect → List Effect
reached e w =
    if e.upstream_tls
    then w ++ connected ∷ [] ++ to_upstream tls_request ∷ []
    else w ++ connected ∷ []

connect-Connects :
    (e : World) (w : List Effect)
    → Connects e
    → connect e w ≡ (reached e w, ok (if e.upstream_tls then tls else plain))
unfolding connect upgrade
connect-Connects e w k = elim (Bool-cases e.upstream_tls) [
  | inl wanted ↦ rw (k.reached, wanted, k.replies wanted, k.named wanted, k.shaken wanted) refl
  | inr plain_text ↦ rw (k.reached, plain_text) refl
]

upstream-reached : (e : World) (w : List Effect) → upstream (reached e w) ≡ upstream w ++ request e
upstream-reached e w = elim (Bool-cases e.upstream_tls) [
  | inl wanted ↦ rw wanted (simp (upstream-append, append-nil))
  | inr plain_text ↦ rw plain_text (simp (upstream-append, append-nil))
]

downstream-reached : (e : World) (w : List Effect) → downstream (reached e w) ≡ downstream w
downstream-reached e w = elim (Bool-cases e.upstream_tls) [
  | inl wanted ↦ rw wanted (simp (downstream-append, append-nil))
  | inr plain_text ↦ rw plain_text (simp (downstream-append, append-nil))
]

-- The effects up to the relay.
abbrev begun : ℕ → World → Bytes → List Effect → List Effect
begun id e packet w =
    reached e w ++ to_upstream packet ∷ [] ++ recorded (lifecycle id "startup" "") ∷ []

begin-Connects :
    (id : ℕ) (e : World) (packet : Bytes) (m : StartupMetadata) (w : List Effect)
    → Connects e
    → metadata packet ≡ some (ok m)
    → begin id e packet w ≡ (begun id e packet w, ok (fresh id e.scenarios m))
unfolding begin
begin-Connects id e packet m w k known = rw (known, startup_metadata, connect-Connects e w k) refl

upstream-begun :
    (id : ℕ) (e : World) (packet : Bytes) (w : List Effect)
    → upstream (begun id e packet w) ≡ upstream w ++ (request e ++ packet ∷ [])
upstream-begun id e packet w =
    upstream-append (reached e w ++ to_upstream packet ∷ [])
      (recorded (lifecycle id "startup" "") ∷ [])
    ∙ append-nil (upstream (reached e w ++ to_upstream packet ∷ []))
    ∙ upstream-append (reached e w) (to_upstream packet ∷ [])
    ∙ rw (upstream-reached e w) (append_assoc (upstream w) (request e) (packet ∷ []))

downstream-begun :
    (id : ℕ) (e : World) (packet : Bytes) (w : List Effect)
    → downstream (begun id e packet w) ≡ downstream w
downstream-begun id e packet w =
    downstream-append (reached e w ++ to_upstream packet ∷ [])
      (recorded (lifecycle id "startup" "") ∷ [])
    ∙ append-nil (downstream (reached e w ++ to_upstream packet ∷ []))
    ∙ downstream-append (reached e w) (to_upstream packet ∷ [])
    ∙ append-nil (downstream (reached e w))
    ∙ downstream-reached e w

-- What only changes the result keeps the effects.
continue-pure :
    (p : List Effect × Result ProxyError (Option Connection))
    → (continue p (λ after. pure (relayed after))).0 ≡ p.0
continue-pure (w, ok o) = refl
continue-pure (w, err e) = refl

module _ (digest : Bytes → String) (parse_duration : String → Option ℕ) (id : ℕ) where
  -- Without scenarios, with a server that is reached and gives TLS where it is wanted, when the
  -- negotiation accepts a packet with known parameters, and for any interleaving of frames of
  -- both sides that has no `X`: the server gets the request for TLS where it is wanted, then
  -- that packet, then the frames of the client, and the client gets what the negotiation wrote
  -- to it, then the frames of the server, each in their order and unchanged.
  pub connection-transparent :
      (e : World) (ps : List (Result ProxyError Bytes)) (is : List Input) (packet : Bytes)
      (stream : Stream) (m : StartupMetadata) (v : List Effect)
      → e.scenarios ≡ []
      → Connects e
      → negotiate_all e.reachable e.acceptor e.client_handshake id ps plain []
        ≡ (v, ok (accepted packet stream))
      → metadata packet ≡ some (ok m)
      → All IsFrame is
      → let w = (connection digest parse_duration id e ps is []).0 in
        (upstream w ≡ request e ++ packet ∷ of_client is)
        × (downstream w ≡ downstream v ++ of_server is)
  unfolding connection fresh
  connection-transparent e ps is packet stream m v calm_ k done known frames =
      let start = begun id e packet v in
      let r = run-Crosses parse_duration digest id is (new id m) start frames in
      let p = run digest parse_duration id is (calm (new id m) none) start in
      let none_sent : upstream v ≡ [] =
        subst (Unsent []) done
          (negotiate_all-Unsent e.reachable e.acceptor e.client_handshake id ps plain []) in
      rw (done, begin-Connects id e packet m v k known, fresh, calm_)
        (
          ap upstream (continue-pure p)
              ∙ r.up_lem
              ∙ rw
                  (
                    upstream-begun id e packet v,
                    none_sent,
                    append_assoc (request e) (packet ∷ []) (of_client is),
                  )
                  refl,
          ap downstream (continue-pure p) ∙ r.down_lem ∙ rw (downstream-begun id e packet v) refl,
        )
