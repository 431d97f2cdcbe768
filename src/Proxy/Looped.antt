-- ===== src/Proxy/Looped.antt =====
-- Every execution of the loop over bytes is a run over inputs.
use pgfault.Base.{
  ℕ, ◌≡◌, refl, sym, ap, ◌∙◌, String, Option, some, List, [], ◌∷◌, ◌++◌, append-nil, append_assoc,
  Bytes, nat_eq, string_eq, bytes_eq_instance,
}
use pgfault.Base.Result.{ok}
use pgfault.Wire.{Frame, eof_inside_frame, decode}
use pgfault.Wire.Decode.{decode_splits}
use pgfault.Wire.Reader.{join}
use pgfault.Proxy.Relay.{
  Connection, Input, client, server, client_closed, server_closed, client_broken, server_broken,
  on_input, run,
}
use pgfault.Proxy.Sent.{of_client, of_server}
use pgfault.Proxy.Pump.{
  Pump, Step, client_frame, client_read, server_frame, server_read, Reach, here, next, crossed,
}
use pgfault.Proxy.Runs.{
  starting, Outcome, IsRun, of_client-append, of_server-append, Comes, goes_on, at_client,
  at_server, client_eof, server_eof, client_cut, server_cut, client_refused, server_refused,
  run-append, run-last,
}

module _ (digest : Bytes → String) (parse_duration : String → Option ℕ) (id : ℕ) where
  -- A run to where the pump is, with its buffers left.
  record IsAt (c : Connection) (r : Pump) : Type 0 where
    inputs : List Input
    runs : run digest parse_duration id inputs c [] ≡ (r.log, ok (some r.connection))
    client_bytes : join (of_client inputs) ++ r.client_buffer ≡ r.client_sent
    server_bytes : join (of_server inputs) ++ r.server_buffer ≡ r.server_sent

  one_more :
      (c : Connection) (r : Pump) (k : IsAt c r) (i : Input) (p : Outcome)
      → on_input digest parse_duration id i r.connection r.log ≡ p
      → run digest parse_duration id (k.inputs ++ i ∷ []) c [] ≡ p
  one_more c r k i p h =
      run-append digest parse_duration id k.inputs (i ∷ []) c r.connection [] r.log k.runs
      ∙ run-last digest parse_duration id i r.connection r.log
      ∙ h

  client_more :
      (c : Connection) (r : Pump) (k : IsAt c r) (f : Frame) (rest : Bytes)
      → decode r.client_buffer ≡ ok (some (f, rest))
      → (join (of_client (k.inputs ++ client f ∷ [])) ++ rest ≡ r.client_sent)
        × (join (of_server (k.inputs ++ client f ∷ [])) ++ r.server_buffer ≡ r.server_sent)
  client_more c r k f rest d = (
    crossed (of_client k.inputs) (of_client (k.inputs ++ client f ∷ [])) r.client_buffer f.bytes
        rest r.client_sent (decode_splits r.client_buffer d).0
        (of_client-append k.inputs (client f ∷ [])) k.client_bytes,
    rw (of_server-append k.inputs (client f ∷ []), append-nil (of_server k.inputs)) k.server_bytes,
  )

  server_more :
      (c : Connection) (r : Pump) (k : IsAt c r) (f : Frame) (rest : Bytes)
      → decode r.server_buffer ≡ ok (some (f, rest))
      → (join (of_client (k.inputs ++ server f ∷ [])) ++ r.client_buffer ≡ r.client_sent)
        × (join (of_server (k.inputs ++ server f ∷ [])) ++ rest ≡ r.server_sent)
  server_more c r k f rest d = (
    rw (of_client-append k.inputs (server f ∷ []), append-nil (of_client k.inputs)) k.client_bytes,
    crossed (of_server k.inputs) (of_server (k.inputs ++ server f ∷ [])) r.server_buffer f.bytes
        rest r.server_sent (decode_splits r.server_buffer d).0
        (of_server-append k.inputs (server f ∷ [])) k.server_bytes,
  )

  Step-IsAt :
      (c : Connection) {r t : Pump} → Step digest parse_duration id r t → IsAt c r → IsAt c t
  unfolding on_input
  Step-IsAt c {r} (client_frame f rest c1 w d o) k =
      let (cb, sb) = client_more c r k f rest d in
      record {
        inputs = k.inputs ++ client f ∷ [];
        runs = one_more c r k (client f) (w, ok (some c1)) o;
        client_bytes = cb;
        server_bytes = sb;
      }
  Step-IsAt c {r} (client_read chunk d live) k = record {
    inputs = k.inputs;
    runs = k.runs;
    client_bytes =
        sym (append_assoc (join (of_client k.inputs)) r.client_buffer chunk)
        ∙ ap (λ b. b ++ chunk) k.client_bytes;
    server_bytes = k.server_bytes;
  }
  Step-IsAt c {r} (server_frame f rest c1 w d o) k =
      let (cb, sb) = server_more c r k f rest d in
      record {
        inputs = k.inputs ++ server f ∷ [];
        runs = one_more c r k (server f) (w, ok (some c1)) o;
        client_bytes = cb;
        server_bytes = sb;
      }
  Step-IsAt c {r} (server_read chunk d live) k = record {
    inputs = k.inputs;
    runs = k.runs;
    client_bytes = k.client_bytes;
    server_bytes =
        sym (append_assoc (join (of_server k.inputs)) r.server_buffer chunk)
        ∙ ap (λ b. b ++ chunk) k.server_bytes;
  }

  Reach-IsAt :
      (c : Connection) {r t : Pump} → Reach digest parse_duration id r t → IsAt c r → IsAt c t
  Reach-IsAt c here k = k
  Reach-IsAt c (next before step) k = Step-IsAt c step (Reach-IsAt c before k)

  -- An end that takes no frame.
  frameless :
      (c : Connection) (r : Pump) (k : IsAt c r) (i : Input)
      → of_client (i ∷ []) ≡ []
      → of_server (i ∷ []) ≡ []
      → IsRun digest parse_duration id c r (on_input digest parse_duration id i r.connection r.log)
  frameless c r k i no_client no_server = record {
    inputs = k.inputs ++ i ∷ [];
    runs = one_more c r k i (on_input digest parse_duration id i r.connection r.log) refl;
    from_client = (
      r.client_buffer,
      rw (of_client-append k.inputs (i ∷ []), no_client, append-nil (of_client k.inputs))
          k.client_bytes,
    );
    from_server = (
      r.server_buffer,
      rw (of_server-append k.inputs (i ∷ []), no_server, append-nil (of_server k.inputs))
          k.server_bytes,
    );
  }

  Comes-IsRun :
      (c : Connection) (r : Pump) (p : Outcome)
      → IsAt c r
      → Comes digest parse_duration id r p
      → IsRun digest parse_duration id c r p
  unfolding on_input
  Comes-IsRun c r p k goes_on = record {
    inputs = k.inputs;
    runs = k.runs;
    from_client = (r.client_buffer, k.client_bytes);
    from_server = (r.server_buffer, k.server_bytes);
  }
  Comes-IsRun c r p k (at_client f rest _ d o) =
      let (cb, sb) = client_more c r k f rest d in
      record {
        inputs = k.inputs ++ client f ∷ [];
        runs = one_more c r k (client f) p o;
        from_client = (rest, cb);
        from_server = (r.server_buffer, sb);
      }
  Comes-IsRun c r p k (at_server f rest _ d o) =
      let (cb, sb) = server_more c r k f rest d in
      record {
        inputs = k.inputs ++ server f ∷ [];
        runs = one_more c r k (server f) p o;
        from_client = (r.client_buffer, cb);
        from_server = (rest, sb);
      }
  Comes-IsRun c r p k (client_eof h) = frameless c r k client_closed refl refl
  Comes-IsRun c r p k (server_eof h) = frameless c r k server_closed refl refl
  Comes-IsRun c r p k (client_cut d h) = frameless c r k (client_broken eof_inside_frame) refl refl
  Comes-IsRun c r p k (server_cut d h) = frameless c r k (server_broken eof_inside_frame) refl refl
  Comes-IsRun c r p k (client_refused e d) = frameless c r k (client_broken e) refl refl
  Comes-IsRun c r p k (server_refused e d) = frameless c r k (server_broken e) refl refl

  -- Under any scenarios, and in any order of the steps of the two readers, however the loop over
  -- bytes stands, that it goes on, or comes to an end at a frame, at the end of a stream, or at
  -- bytes that are no frame, the relay comes to the same effects and result on a list of inputs,
  -- in which the frames of each side are, in their order, the beginning of the bytes that the
  -- socket of that side gave.
  pub Reach-IsRun :
      (c : Connection) (r : Pump) (p : Outcome)
      → Reach digest parse_duration id (starting c) r
      → Comes digest parse_duration id r p
      → IsRun digest parse_duration id c r p
  unfolding run
  Reach-IsRun c r p reached comes =
      Comes-IsRun c r p
        (Reach-IsAt c reached
          (record { inputs = []; runs = refl; client_bytes = refl; server_bytes = refl }))
        comes
