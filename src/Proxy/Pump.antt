-- ===== src/Proxy/Pump.antt =====
-- The loop of `connection` with its two `FrameReader`s, over bytes: a step relation, since `select!`
-- may take either side, and a read may bring any bytes.
use pgfault.Base.{
  ℕ, ◌==◌, ==_iff, subst, ◌≡◌, inl, inr, refl, sym, ap, ◌∙◌, true, false, ◌||◌, String, Option,
  none, some, List, [], ◌∷◌, ◌++◌, append-nil, append_assoc, arith, Bytes, is_empty, Bool-cases,
  nat_eq, string_eq, bytes_eq_instance,
}
use pgfault.Base.Result.{ok}
use pgfault.Wire.{Frame, tag, decode}
use pgfault.Wire.Decode.{decode_splits}
use pgfault.Wire.Reader.{join}
use pgfault.State.{ConnectionState}
use pgfault.State.Frontend.{frontend}
use pgfault.Proxy.Effects.{Effect}
use pgfault.Proxy.Relay.{Connection, on_client, on_server, forward, after_forward, faults}
use pgfault.Proxy.Sent.{upstream, downstream, calm, apply-nil}
use pgfault.Proxy.Crossing.{Crosses, client-Crosses, server-Crosses}

-- The connection, the buffers of its readers, the bytes that the sockets have given so far, and the
-- effects.
pub record Pump : Type 0 where
  pub connection : Connection
  pub client_buffer : Bytes
  pub server_buffer : Bytes
  pub client_sent : Bytes
  pub server_sent : Bytes
  pub log : List Effect

-- The pump that a connection without scenarios starts with.
abbrev pub opened : ConnectionState → Pump
opened s = record {
  connection = calm s none;
  client_buffer = [];
  server_buffer = [];
  client_sent = [];
  server_sent = [];
  log = [];
}

module _ (digest : Bytes → String) (parse_duration : String → Option ℕ) (id : ℕ) where
  -- A reader that has a whole frame gives it. One that has none reads some bytes more. The loop goes
  -- on behind these steps.
  pub data Step (r : Pump) : Pump → Type 0 where
    client_frame :
        (f : Frame) (rest : Bytes) (c : Connection) (w : List Effect)
        → decode r.client_buffer ≡ ok (some (f, rest))
        → on_client digest parse_duration id f r.connection r.log ≡ (w, ok (some c))
        → Step r (record r { connection = c; client_buffer = rest; log = w })
    client_read :
        (chunk : Bytes)
        → decode r.client_buffer ≡ ok none
        → is_empty chunk ≡ false
        → Step r (record r {
          client_buffer = r.client_buffer ++ chunk;
          client_sent = r.client_sent ++ chunk;
        })
    server_frame :
        (f : Frame) (rest : Bytes) (c : Connection) (w : List Effect)
        → decode r.server_buffer ≡ ok (some (f, rest))
        → on_server digest parse_duration id f r.connection r.log ≡ (w, ok (some c))
        → Step r (record r { connection = c; server_buffer = rest; log = w })
    server_read :
        (chunk : Bytes)
        → decode r.server_buffer ≡ ok none
        → is_empty chunk ≡ false
        → Step r (record r {
          server_buffer = r.server_buffer ++ chunk;
          server_sent = r.server_sent ++ chunk;
        })

  pub data Reach (r : Pump) : Pump → Type 0 where
    here : Reach r r
    next : {s t : Pump} → Reach r s → Step s t → Reach r t

-- What has crossed, and what waits in the buffers, is what the sockets have given.
pub record IsTransparent (r : Pump) : Type 0 where
  pub state : ConnectionState
  pub is_calm : r.connection ≡ calm state none
  pub to_server : join (upstream r.log) ++ r.client_buffer ≡ r.client_sent
  pub to_clients : join (downstream r.log) ++ r.server_buffer ≡ r.server_sent

pub join-concat : (xs : List Bytes) (b : Bytes) → join (xs ++ b ∷ []) ≡ join xs ++ b
join-concat [] b = append-nil b
join-concat (x ∷ xs) b = rw (join-concat xs b, append_assoc x (join xs) b) refl

-- One more frame has crossed, and it was the beginning of the buffer.
pub crossed :
    (xs ys : List Bytes) (buf f rest sent : Bytes)
    → buf ≡ f ++ rest
    → ys ≡ xs ++ f ∷ []
    → join xs ++ buf ≡ sent
    → join ys ++ rest ≡ sent
crossed xs ys buf f rest sent e g h = rw (g, join-concat xs f, append_assoc (join xs) f rest, ← e) h

module _ (digest : Bytes → String) (parse_duration : String → Option ℕ) (id : ℕ) where
  -- A frame with the tag `X` ends a connection without scenarios.
  client-ends :
      (f : Frame) (s : ConnectionState) (w : List Effect)
      → (tag f == b'X') ≡ true
      → (on_client digest parse_duration id f (calm s none) w).1 ≡ ok none
  unfolding on_client forward after_forward
  client-ends f s w ends =
      let no_query : (tag f == b'Q' || tag f == b'E') ≡ false =
        ground (arith, ==_iff (tag f) b'X') in
      rw (apply-nil parse_duration (frontend digest f s).1 (faults (calm s none)) w, no_query, ends)
        refl

  client_frame-IsTransparent :
      (r : Pump) (f : Frame) (rest : Bytes) (c : Connection) (w : List Effect)
      → IsTransparent r
      → decode r.client_buffer ≡ ok (some (f, rest))
      → Crosses parse_duration r.log none (f.bytes ∷ []) [] (w, ok (some c))
      → IsTransparent (record r { connection = c; client_buffer = rest; log = w })
  client_frame-IsTransparent r f rest c w k d x = record {
    state = x.after;
    is_calm = let again = x.goes_on in cc;
    to_server = crossed _ _ _ _ _ _ (decode_splits r.client_buffer d).0 x.up_lem k.to_server;
    to_clients = rw (x.down_lem, append-nil (downstream r.log)) k.to_clients;
  }

  server_frame-IsTransparent :
      (r : Pump) (f : Frame) (rest : Bytes) (c : Connection) (w : List Effect)
      → IsTransparent r
      → decode r.server_buffer ≡ ok (some (f, rest))
      → Crosses parse_duration r.log none [] (f.bytes ∷ []) (w, ok (some c))
      → IsTransparent (record r { connection = c; server_buffer = rest; log = w })
  server_frame-IsTransparent r f rest c w k d x = record {
    state = x.after;
    is_calm = let again = x.goes_on in cc;
    to_server = rw (x.up_lem, append-nil (upstream r.log)) k.to_server;
    to_clients = crossed _ _ _ _ _ _ (decode_splits r.server_buffer d).0 x.down_lem k.to_clients;
  }

  -- A frame that the loop goes on behind has crossed.
  client_step-Crosses :
      (f : Frame) (c c' : Connection) (s : ConnectionState) (w w' : List Effect)
      → c ≡ calm s none
      → on_client digest parse_duration id f c w ≡ (w', ok (some c'))
      → Crosses parse_duration w none (f.bytes ∷ []) [] (w', ok (some c'))
  client_step-Crosses f c c' s w w' quiet e =
      let same : on_client digest parse_duration id f (calm s none) w ≡ (w', ok (some c')) =
        ap (λ x. on_client digest parse_duration id f x w) (sym quiet) ∙ e in
      elim (Bool-cases (tag f == b'X')) [
        | inl ends ↦
            let over = sym (client-ends f s w ends) ∙ ap (λ p. p.1) same in
            let bad : ⊥ = cc in elim bad [ ]
        | inr live ↦
            subst (Crosses parse_duration w none (f.bytes ∷ []) []) same
              (client-Crosses parse_duration digest id f s none w live)
      ]

  server_step-Crosses :
      (f : Frame) (c c' : Connection) (s : ConnectionState) (w w' : List Effect)
      → c ≡ calm s none
      → on_server digest parse_duration id f c w ≡ (w', ok (some c'))
      → Crosses parse_duration w none [] (f.bytes ∷ []) (w', ok (some c'))
  server_step-Crosses f c c' s w w' quiet e =
      subst (Crosses parse_duration w none [] (f.bytes ∷ []))
        (ap (λ x. on_server digest parse_duration id f x w) (sym quiet) ∙ e)
        (server-Crosses parse_duration digest id f s w)

  Step-IsTransparent :
      {r t : Pump} → Step digest parse_duration id r t → IsTransparent r → IsTransparent t
  Step-IsTransparent {r} (client_frame f rest c w d o) k =
      client_frame-IsTransparent r f rest c w k d
        (client_step-Crosses f r.connection c k.state r.log w k.is_calm o)
  Step-IsTransparent {r} (client_read chunk d live) k = record {
    state = k.state;
    is_calm = k.is_calm;
    to_server =
        sym (append_assoc (join (upstream r.log)) r.client_buffer chunk)
        ∙ ap (λ b. b ++ chunk) k.to_server;
    to_clients = k.to_clients;
  }
  Step-IsTransparent {r} (server_frame f rest c w d o) k =
      server_frame-IsTransparent r f rest c w k d
        (server_step-Crosses f r.connection c k.state r.log w k.is_calm o)
  Step-IsTransparent {r} (server_read chunk d live) k = record {
    state = k.state;
    is_calm = k.is_calm;
    to_server = k.to_server;
    to_clients =
        sym (append_assoc (join (downstream r.log)) r.server_buffer chunk)
        ∙ ap (λ b. b ++ chunk) k.to_clients;
  }

  Reach-IsTransparent :
      {r t : Pump} → Reach digest parse_duration id r t → IsTransparent r → IsTransparent t
  Reach-IsTransparent here k = k
  Reach-IsTransparent (next before step) k = Step-IsTransparent step (Reach-IsTransparent before k)

  -- Without scenarios, in any order of the steps of the two readers, as long as the loop goes
  -- on, the bytes that the proxy wrote to the server, and then those in the buffer of the
  -- client's reader, are the bytes that the client sent, and likewise from the server to the
  -- client.
  pub Reach-transparent :
      (s : ConnectionState) (r : Pump)
      → Reach digest parse_duration id (opened s) r
      → (join (upstream r.log) ++ r.client_buffer ≡ r.client_sent)
        × (join (downstream r.log) ++ r.server_buffer ≡ r.server_sent)
  Reach-transparent s r reached =
      let k =
        Reach-IsTransparent reached
          (record { state = s; is_calm = refl; to_server = refl; to_clients = refl }) in
      (k.to_server, k.to_clients)
