-- ===== src/Proxy/Crossing.antt =====
-- The relay without scenarios: what crosses with one frame.
use pgfault.Base.{
  ℕ, ◌==◌, ◌≡◌, inl, inr, refl, false, ◌||◌, String, Option, none, some, List, [], ◌∷◌, ◌++◌,
  append-nil, Bytes, Bool-cases, nat_eq, string_eq, bytes_eq_instance,
}
use pgfault.Base.Result.{Result, ok}
use pgfault.Wire.{Frame, tag}
use pgfault.State.{ConnectionState, forwarded}
use pgfault.State.Frontend.{frontend}
use pgfault.State.Backend.{backend, completion_boundary}
use pgfault.Proxy.Effects.{Effect, ProxyError, to_client, to_upstream}
use pgfault.Proxy.Sent.{
  upstream, downstream, upstream-append, downstream-append, calm, records, upstream-records,
  downstream-records, gates-nil, apply-nil,
}
use pgfault.Proxy.Relay.{
  Connection, on_client, on_server, deliver, pass_on, hold, release, forward, after_forward, faults,
}

module _ (parse_duration : String → Option ℕ) where
  -- A step of a connection without scenarios: it goes on, and these bytes cross.
  pub record Crosses (w : List Effect) (t : Option ℕ) (ups downs : List Bytes)
      (p : List Effect × Result ProxyError (Option Connection)) : Type 0 where
    pub after : ConnectionState
    pub goes_on : p.1 ≡ ok (some (calm after t))
    pub up_lem : upstream p.0 ≡ upstream w ++ ups
    pub down_lem : downstream p.0 ≡ downstream w ++ downs

  module _ (digest : Bytes → String) (id : ℕ) where
    pub client-Crosses :
        (f : Frame) (s : ConnectionState) (t : Option ℕ) (w : List Effect)
        → (tag f == b'X') ≡ false
        → Crosses w t (f.bytes ∷ []) [] (on_client digest parse_duration id f (calm s t) w)
    unfolding on_client forward after_forward
    client-Crosses f s t w live =
        rw (apply-nil parse_duration (frontend digest f s).1 (faults (calm s t)) w)
          (elim (Bool-cases (tag f == b'Q' || tag f == b'E')) [
            | inl queried ↦
                rw
                  (
                    queried,
                    live,
                    apply-nil parse_duration ((forwarded (frontend digest f s).0).1 ∷ [])
                        (faults (calm (frontend digest f s).0 t))
                        (w ++ records (frontend digest f s).1 ++ to_upstream f.bytes ∷ []),
                  )
                  (record {
                    after = (forwarded (frontend digest f s).0).0;
                    goes_on = refl;
                    up_lem = simp (upstream-append, upstream-records, append-nil);
                    down_lem = simp (downstream-append, downstream-records, append-nil);
                  })
            | inr other ↦
                rw (other, live)
                  (record {
                    after = (frontend digest f s).0;
                    goes_on = refl;
                    up_lem = simp (upstream-append, upstream-records, append-nil);
                    down_lem = simp (downstream-append, downstream-records, append-nil);
                  })
          ])

    passed :
        (f : Frame) (s : ConnectionState) (w : List Effect)
        → Crosses w none [] (f.bytes ∷ []) (
          w ++ records (backend f s).1 ++ to_client f.bytes ∷ [],
          ok (some (calm (backend f s).0 none)),
        )
    passed f s w = record {
      after = (backend f s).0;
      goes_on = refl;
      up_lem = simp (upstream-append, upstream-records, append-nil);
      down_lem = simp (downstream-append, downstream-records, append-nil);
    }

    pub server-Crosses :
        (f : Frame) (s : ConnectionState) (w : List Effect)
        → Crosses w none [] (f.bytes ∷ []) (on_server digest parse_duration id f (calm s none) w)
    unfolding on_server deliver pass_on hold release
    server-Crosses f s w =
        rw
          (
            apply-nil parse_duration (backend f s).1 (faults (calm s none)) w,
            gates-nil (completion_boundary f s),
          )
          (elim (Bool-cases (tag f == b'D')) [
            | inl row ↦ elim (Bool-cases (tag f == b'Z')) [
              | inl ready ↦ rw (row, ready) (passed f s w)
              | inr other ↦ rw (row, other) (passed f s w)
            ]
            | inr no_row ↦ elim (Bool-cases (tag f == b'Z')) [
              | inl ready ↦ rw (no_row, ready) (passed f s w)
              | inr other ↦ rw (no_row, other) (passed f s w)
            ]
          ])
