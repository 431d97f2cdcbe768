-- ===== src/Proxy/Declined.antt =====
-- `connection` where the server is to give TLS and does not.
use pgfault.Base.{
  ℕ, ◌==◌, ==_iff, ◌≡◌, ◌≢◌, inl, inr, refl, ap, ◌∙◌, true, some, List, [], ◌∷◌, ◌++◌, Bytes,
  Bool-cases, Option-cases, nat_eq, string_eq, bytes_eq_instance,
}
use pgfault.Base.Result.{ok, err}
use pgfault.Events.{StartupMetadata}
use pgfault.Proxy.Effects.{
  Effect, ProxyError, to_upstream, connected, no_upstream_reply, upstream_without_tls,
}
use pgfault.Proxy.Metadata.{metadata}
use pgfault.Proxy.Connect.{World, tls_request, upgrade, connect, begin, startup_metadata}

upgrade-declined :
    (e : World) (w : List Effect)
    → e.reply ≢ some b'S'
    → (x : ProxyError) × (upgrade e w ≡ (w, err x))
unfolding upgrade
upgrade-declined e w declined = elim (Option-cases e.reply) [
  | inl silent ↦ (no_upstream_reply, rw silent refl)
  | inr (b, e1) ↦ elim (Bool-cases (b == b'S')) [
    | inl same ↦ absurd (declined (e1 ∙ ap some ((==_iff b b'S').0 same)))
    | inr other ↦ (upstream_without_tls, rw (e1, other) refl)
  ]
]

connect-upgrade :
    (e : World) (w : List Effect)
    → e.reachable ≡ true
    → e.upstream_tls ≡ true
    → connect e w ≡ upgrade e (w ++ connected ∷ [] ++ to_upstream tls_request ∷ [])
unfolding connect
connect-upgrade e w reachable wanted = rw (reachable, wanted) refl

-- Where TLS to the server is wanted and the server, which is reached, answers the request for it
-- with anything but `S`, or not at all, the start of the connection fails, and all that it sent
-- to the server is that request: the startup packet was not sent.
pub begin-declined :
    (id : ℕ) (e : World) (packet : Bytes) (m : StartupMetadata) (w : List Effect)
    → metadata packet ≡ some (ok m)
    → e.reachable ≡ true
    → e.upstream_tls ≡ true
    → e.reply ≢ some b'S'
    → (x : ProxyError) × (begin id e packet w
        ≡ (w ++ connected ∷ [] ++ to_upstream tls_request ∷ [], err x))
unfolding begin
begin-declined id e packet m w known reachable wanted declined =
    let (x, ends) =
      upgrade-declined e (w ++ connected ∷ [] ++ to_upstream tls_request ∷ []) declined in
    (x, rw (known, startup_metadata, connect-upgrade e w reachable wanted, ends) refl)
