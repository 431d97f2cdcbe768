-- ===== src/Proxy/Sent.antt =====
-- What a list of effects writes to the sockets, and `apply` without matchers.
use pgfault.Base.{
  ◌==◌, is_empty, map, ◌∷◌, ap, ℕ, ◌==◌, ◌≡◌, refl, ap, false, String, Option, none, some, List, [],
  ◌∷◌, ◌++◌, map, append-nil, append_assoc, Bytes, is_empty, nat_eq, string_eq, bytes_eq_instance,
}
use pgfault.Base.Result.{ok}
use pgfault.Events.{Event}
use pgfault.State.{ConnectionState}
use pgfault.Trace.{semantic}
use pgfault.Proxy.Effects.{Effect, to_client, to_upstream, recorded, write_all}
use pgfault.Proxy.Apply.{Faults, apply}
use pgfault.Wire.{tag}
use pgfault.Proxy.Relay.{Connection, gates, Input, client, server}

-- The writes to the server, and those to the client.
abbrev pub up : Effect → List Bytes
up (to_upstream b) = b ∷ []
up _ = []

abbrev pub upstream : List Effect → List Bytes
upstream [] = []
upstream (e ∷ es) = up e ++ upstream es

abbrev pub down : Effect → List Bytes
down (to_client b) = b ∷ []
down _ = []

abbrev pub downstream : List Effect → List Bytes
downstream [] = []
downstream (e ∷ es) = down e ++ downstream es

pub upstream-append : (v w : List Effect) → upstream (v ++ w) ≡ upstream v ++ upstream w
upstream-append [] w = refl
upstream-append (e ∷ v) w =
    rw (upstream-append v w, append_assoc (up e) (upstream v) (upstream w)) refl

pub downstream-append : (v w : List Effect) → downstream (v ++ w) ≡ downstream v ++ downstream w
downstream-append [] w = refl
downstream-append (e ∷ v) w =
    rw (downstream-append v w, append_assoc (down e) (downstream v) (downstream w)) refl

-- A connection without scenarios.
abbrev pub calm : ConnectionState → Option ℕ → Connection
calm s t = record { state = s; matchers = []; held = []; held_size = 0; truncate = t }

-- The records of events.
abbrev pub records : List Event → List Effect
records [] = []
records (e ∷ es) = recorded (semantic e) ∷ records es

pub upstream-records : (es : List Event) → upstream (records es) ≡ []
upstream-records [] = refl
upstream-records (e ∷ es) = upstream-records es

pub downstream-records : (es : List Event) → downstream (records es) ≡ []
downstream-records [] = refl
downstream-records (e ∷ es) = downstream-records es

pub gates-nil : (boundary : Option String) → gates [] boundary ≡ false
gates-nil none = refl
gates-nil (some boundary) = refl

module _ (parse_duration : String → Option ℕ) where
  -- Without matchers, `apply` only writes to the trace.
  pub apply-nil :
      (es : List Event) (x : Faults) (w : List Effect)
      → apply parse_duration es [] x w ≡ (w ++ records es, ok ([], x))
  unfolding apply
  apply-nil [] x w = rw (append-nil w) refl
  apply-nil (e ∷ es) x w =
      rw
        (
          apply-nil es x (w ++ recorded (semantic e) ∷ []),
          append_assoc w (recorded (semantic e) ∷ []) (records es),
        )
        refl

pub write_all-eq :
    (bs : List Bytes) (w : List Effect) → write_all bs w ≡ (w ++ map to_client bs, ok tt)
unfolding write_all
write_all-eq [] w = rw (append-nil w) refl
write_all-eq (b ∷ bs) w =
    rw
      (
        write_all-eq bs (w ++ to_client b ∷ []),
        append_assoc w (to_client b ∷ []) (map to_client bs),
      )
      refl

pub downstream-map : (bs : List Bytes) → downstream (map to_client bs) ≡ bs
downstream-map [] = refl
downstream-map (b ∷ bs) = ap (◌∷◌ b) (downstream-map bs)

pub is_empty-concat : (bs : List Bytes) (b : Bytes) → is_empty (bs ++ b ∷ []) ≡ false
is_empty-concat [] b = refl
is_empty-concat (x ∷ bs) b = refl

pub upstream-map : (bs : List Bytes) → upstream (map to_client bs) ≡ []
upstream-map [] = refl
upstream-map (b ∷ bs) = upstream-map bs

-- The frames of a run of a session: any but the one that ends it.
abbrev pub IsFrame : Input → Type 0
IsFrame (client f) = (tag f == b'X') ≡ false
IsFrame (server f) = Unit {0}
IsFrame _ = ⊥

abbrev pub of_client : List Input → List Bytes
of_client [] = []
of_client (client f ∷ is) = f.bytes ∷ of_client is
of_client (_ ∷ is) = of_client is

abbrev pub of_server : List Input → List Bytes
of_server [] = []
of_server (server f ∷ is) = f.bytes ∷ of_server is
of_server (_ ∷ is) = of_server is
