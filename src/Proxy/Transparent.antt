-- ===== src/Proxy/Transparent.antt =====
-- The relay without scenarios, `on_input` and `run`: what crosses the proxy.
use pgfault.Base.{
  ℕ, ◌≡◌, refl, sym, ◌∙◌, String, Option, none, some, List, [], ◌∷◌, ◌++◌, append-nil, append_assoc,
  Bytes, All, nat_eq, string_eq, bytes_eq_instance,
}
use pgfault.Base.Result.{Result, ok}
use pgfault.State.{ConnectionState}
use pgfault.Proxy.Effects.{Effect, ProxyError, pure, continue}
use pgfault.Proxy.Sent.{IsFrame, of_client, of_server, upstream, downstream, calm}
use pgfault.Proxy.Relay.{
  Connection, Input, client, server, client_closed, server_closed, client_broken, server_broken,
  on_client, on_server, on_input, run,
}
use pgfault.Proxy.Crossing.{Crosses, client-Crosses, server-Crosses}

module _ (parse_duration : String → Option ℕ) where
  module _ (digest : Bytes → String) (id : ℕ) where
    then_run :
        (is : List Input) (w : List Effect) (us ds us' ds' : List Bytes)
        (p : List Effect × Result ProxyError (Option Connection))
        → Crosses parse_duration w none us ds p
        → ((s : ConnectionState)
            → Crosses parse_duration p.0 none us' ds'
                (run digest parse_duration id is (calm s none) p.0))
        → Crosses parse_duration w none (us ++ us') (ds ++ ds') (
            continue p
              (λ next. elim next [ none ↦ pure none | some c ↦ run digest parse_duration id is c ]))
    then_run is w us ds us' ds' p k rest =
        let r = rest k.after in
        rw k.goes_on (record {
          after = r.after;
          goes_on = r.goes_on;
          up_lem = r.up_lem ∙ rw (k.up_lem, append_assoc (upstream w) us us') refl;
          down_lem = r.down_lem ∙ rw (k.down_lem, append_assoc (downstream w) ds ds') refl;
        })

    -- Without scenarios, with nothing held and no truncation pending, for any interleaving of
    -- frames of both sides that has no `X`, the relay goes on, and it wrote to the server the
    -- frames of the client and to the client those of the server, each in their order and
    -- unchanged.
    pub run-Crosses :
        (is : List Input) (s : ConnectionState) (w : List Effect)
        → All IsFrame is
        → Crosses parse_duration w none
            (of_client is)
            (of_server is)
            (run digest parse_duration id is (calm s none) w)
    unfolding run on_input
    run-Crosses [] s w frames = record {
      after = s;
      goes_on = refl;
      up_lem = sym (append-nil _);
      down_lem = sym (append-nil _);
    }
    run-Crosses (client f ∷ is) s w frames =
        then_run is w (f.bytes ∷ []) [] (of_client is) (of_server is)
          (on_client digest parse_duration id f (calm s none) w)
          (client-Crosses parse_duration digest id f s none w frames.0)
          (λ s'. run-Crosses is s' _ frames.1)
    run-Crosses (server f ∷ is) s w frames =
        then_run is w [] (f.bytes ∷ []) (of_client is) (of_server is)
          (on_server digest parse_duration id f (calm s none) w)
          (server-Crosses parse_duration digest id f s w) (λ s'. run-Crosses is s' _ frames.1)
    run-Crosses (client_closed ∷ is) s w frames = elim frames.0 [ ]
    run-Crosses (server_closed ∷ is) s w frames = elim frames.0 [ ]
    run-Crosses (client_broken e ∷ is) s w frames = elim frames.0 [ ]
    run-Crosses (server_broken e ∷ is) s w frames = elim frames.0 [ ]

    abbrev pub rest_of :
        List Input
        → Option Connection
        → List Effect
        → List Effect × Result ProxyError (Option Connection)
    rest_of is next = elim next [ none ↦ pure none | some c ↦ run digest parse_duration id is c ]

    pub run-ended :
        (is : List Input) (p : List Effect × Result ProxyError (Option Connection))
        → p.1 ≡ ok none
        → continue p (rest_of is) ≡ (p.0, ok none)
    run-ended is p ends = rw ends refl

    pub run-goes_on :
        (is : List Input) (p : List Effect × Result ProxyError (Option Connection)) (c : Connection)
        → p.1 ≡ ok (some c)
        → continue p (rest_of is) ≡ run digest parse_duration id is c p.0
    run-goes_on is p c goes = rw goes refl
