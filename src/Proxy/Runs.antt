-- ===== src/Proxy/Runs.antt =====
-- The loop over bytes as a run over inputs, under any scenarios, to its end.
use pgfault.Base.{
  ℕ, ◌≡◌, refl, ap, false, String, Option, none, some, List, [], ◌∷◌, ◌++◌, Bytes, is_empty, nat_eq,
  string_eq, bytes_eq_instance,
}
use pgfault.Base.Result.{Result, ok, err, ok-injective}
use pgfault.Wire.{Frame, WireError, eof_inside_frame, decode}
use pgfault.Wire.Reader.{join}
use pgfault.Proxy.Effects.{Effect, ProxyError, continue}
use pgfault.Proxy.Relay.{
  Connection, Input, client, server, client_closed, server_closed, client_broken, server_broken,
  on_client, on_server, on_input, run,
}
use pgfault.Proxy.Sent.{of_client, of_server}
use pgfault.Proxy.Transparent.{rest_of}
use pgfault.Proxy.Pump.{Pump}

-- The pump that a connection starts with.
abbrev pub starting : Connection → Pump
starting c = record {
  connection = c;
  client_buffer = [];
  server_buffer = [];
  client_sent = [];
  server_sent = [];
  log = [];
}

abbrev pub Outcome : Type 0
Outcome = List Effect × Result ProxyError (Option Connection)

-- The frames of a side, and what is left behind them, are what the socket gave.
abbrev pub Reads : List Bytes → Bytes → Type 0
Reads frames sent = (left : Bytes) × (join frames ++ left ≡ sent)

-- A run over inputs that comes to the same, and whose frames are the beginnings of what the sockets
-- gave.
pub record IsRun (digest : Bytes → String) (parse_duration : String → Option ℕ) (id : ℕ)
    (c : Connection) (r : Pump) (p : Outcome) : Type 0 where
  pub inputs : List Input
  pub runs : run digest parse_duration id inputs c [] ≡ p
  pub from_client : Reads (of_client inputs) r.client_sent
  pub from_server : Reads (of_server inputs) r.server_sent

pub of_client-append : (is js : List Input) → of_client (is ++ js) ≡ of_client is ++ of_client js
of_client-append [] js = refl
of_client-append (client f ∷ is) js = ap (◌∷◌ f.bytes) (of_client-append is js)
of_client-append (server f ∷ is) js = of_client-append is js
of_client-append (client_closed ∷ is) js = of_client-append is js
of_client-append (server_closed ∷ is) js = of_client-append is js
of_client-append (client_broken e ∷ is) js = of_client-append is js
of_client-append (server_broken e ∷ is) js = of_client-append is js

pub of_server-append : (is js : List Input) → of_server (is ++ js) ≡ of_server is ++ of_server js
of_server-append [] js = refl
of_server-append (server f ∷ is) js = ap (◌∷◌ f.bytes) (of_server-append is js)
of_server-append (client f ∷ is) js = of_server-append is js
of_server-append (client_closed ∷ is) js = of_server-append is js
of_server-append (server_closed ∷ is) js = of_server-append is js
of_server-append (client_broken e ∷ is) js = of_server-append is js
of_server-append (server_broken e ∷ is) js = of_server-append is js

module _ (digest : Bytes → String) (parse_duration : String → Option ℕ) (id : ℕ) where
  -- How the loop stands: it goes on, or it comes to an end at a frame, at the end of a stream, or at
  -- bytes that are no frame.
  pub data Comes (r : Pump) : Outcome → Type 0 where
    goes_on : Comes r (r.log, ok (some r.connection))
    at_client :
        (f : Frame) (rest : Bytes) (p : Outcome)
        → decode r.client_buffer ≡ ok (some (f, rest))
        → on_client digest parse_duration id f r.connection r.log ≡ p
        → Comes r p
    at_server :
        (f : Frame) (rest : Bytes) (p : Outcome)
        → decode r.server_buffer ≡ ok (some (f, rest))
        → on_server digest parse_duration id f r.connection r.log ≡ p
        → Comes r p
    client_eof :
        r.client_buffer ≡ []
        → Comes r (on_input digest parse_duration id client_closed r.connection r.log)
    server_eof :
        r.server_buffer ≡ []
        → Comes r (on_input digest parse_duration id server_closed r.connection r.log)
    client_cut :
        decode r.client_buffer ≡ ok none
        → is_empty r.client_buffer ≡ false
        → Comes r
            (on_input digest parse_duration id (client_broken eof_inside_frame) r.connection r.log)
    server_cut :
        decode r.server_buffer ≡ ok none
        → is_empty r.server_buffer ≡ false
        → Comes r
            (on_input digest parse_duration id (server_broken eof_inside_frame) r.connection r.log)
    client_refused :
        (e : WireError)
        → decode r.client_buffer ≡ err e
        → Comes r (on_input digest parse_duration id (client_broken e) r.connection r.log)
    server_refused :
        (e : WireError)
        → decode r.server_buffer ≡ err e
        → Comes r (on_input digest parse_duration id (server_broken e) r.connection r.log)

  resume-append :
      (is js : List Input) (q : Outcome) (c1 : Connection) (v : List Effect)
      → ((c : Connection) (w : List Effect)
          → run digest parse_duration id is c w ≡ (v, ok (some c1))
          → run digest parse_duration id (is ++ js) c w ≡ run digest parse_duration id js c1 v)
      → continue q (rest_of parse_duration digest id is) ≡ (v, ok (some c1))
      → continue q (rest_of parse_duration digest id (is ++ js))
        ≡ run digest parse_duration id js c1 v
  resume-append is js (w, ok (some c)) c1 v k h = k c w h
  resume-append is js (w, ok none) c1 v k h =
      let same = ap (λ (p : Outcome). p.1) h in let bad : ⊥ = cc in elim bad [ ]
  resume-append is js (w, err e) c1 v k h =
      let same = ap (λ (p : Outcome). p.1) h in let bad : ⊥ = cc in elim bad [ ]

  pub run-append :
      (is js : List Input) (c c1 : Connection) (w v : List Effect)
      → run digest parse_duration id is c w ≡ (v, ok (some c1))
      → run digest parse_duration id (is ++ js) c w ≡ run digest parse_duration id js c1 v
  unfolding run
  run-append [] js c c1 w v h =
      let same : some c ≡ some c1 = ok-injective (ap (λ (p : Outcome). p.1) h) in
      let there : c ≡ c1 = cc in rw (ap (λ (p : Outcome). p.0) h, there) refl
  run-append (i ∷ is) js c c1 w v h =
      resume-append is js (on_input digest parse_duration id i c w) c1 v
        (λ c2 w2 k. run-append is js c2 c1 w2 v k) h

  pub run-last :
      (i : Input) (c : Connection) (w : List Effect)
      → run digest parse_duration id (i ∷ []) c w ≡ on_input digest parse_duration id i c w
  unfolding run
  run-last i c w = last (on_input digest parse_duration id i c w)
    where
      last : (q : Outcome) → continue q (rest_of parse_duration digest id []) ≡ q
      last (v, ok none) = refl
      last (v, ok (some c1)) = refl
      last (v, err e) = refl
