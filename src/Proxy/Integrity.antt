-- ===== src/Proxy/Integrity.antt =====
-- The relay under any scenarios, `on_input` and `run`: what a socket gets is a sublist of what the
-- other side sent.
use mathlib.Core.List.{Sublist, sublist-append_left}
use mathlib.Core.List.Sublist
use pgfault.Base.{
  ℕ, ◌==◌, if◌then◌else◌, ◌≡◌, refl, Bool, true, false, ◌||◌, String, Option, none, some, List, [],
  ◌∷◌, ◌++◌, append-nil, append_assoc, Bytes, nat_eq, string_eq, bytes_eq_instance,
}
use pgfault.Base.Result.{Result, ok, err}
use pgfault.Wire.{Frame, tag}
use pgfault.State.{forwarded}
use pgfault.State.Frontend.{frontend}
use pgfault.State.Backend.{backend}
use pgfault.Scenario.{Side}
use pgfault.Scenario.Matcher.{Matcher}
use pgfault.Proxy.Effects.{Effect, ProxyError, M, continue, pure, to_upstream, shut_down}
use pgfault.Proxy.Apply.{Faults, Disposition, apply}
use pgfault.Proxy.Relay.{
  Connection, Input, client, server, client_closed, server_closed, client_broken, server_broken,
  on_client, on_server, on_input, run, forward, after_forward, faults,
}
use pgfault.Proxy.Sent.{
  of_client, of_server, upstream, downstream, upstream-append, downstream-append,
}
use pgfault.Proxy.Outcome.{Leaves}
use pgfault.Proxy.Silent.{Silent, Silent-concat, apply-IsSilent}
use pgfault.Proxy.Transparent.{rest_of}
use pgfault.Proxy.Within.{
  IsSound, IsSound-if, Within, Within-Silent, deliver-IsSound, drop_held, held_of, unchanged,
}

-- Whether the connection ends here or goes on.
ended-or :
    (b : Bool) (o : Option Connection) (ups downs : List Bytes) (w : List Effect)
    → Within ups downs (held_of o) w
    → Within ups downs (held_of (if b then none else o)) w
ended-or true none ups downs w h = h
ended-or true (some c) ups downs w h = drop_held ups downs c.held w h
ended-or false o ups downs w h = h

-- One more frame of the client, that is not written or is.
kept_back :
    (ups downs held : List Bytes) (b : Bytes) (w : List Effect)
    → Within ups downs held w
    → Within (ups ++ b ∷ []) downs held w
kept_back ups downs held b w (u, d) = (Sublist.trans u (sublist-append_left ups (b ∷ [])), d)

sent :
    (ups downs held : List Bytes) (b : Bytes) (w : List Effect)
    → Within ups downs held w
    → Within (ups ++ b ∷ []) downs held (w ++ to_upstream b ∷ [])
sent ups downs held b w (u, d) =
    let same : downstream (w ++ to_upstream b ∷ []) ≡ downstream w =
      simp (downstream-append, append-nil) in
    let more : upstream (w ++ to_upstream b ∷ []) ≡ upstream w ++ b ∷ [] = simp upstream-append in
    (rw more (Sublist.append u (Sublist.refl (b ∷ []))), rw same d)

-- Where the events of a frame are applied, what follows starts from the same writes.
applied :
    (ups downs held ups1 downs1 : List Bytes) (w : List Effect)
    (k : List Matcher × Faults → M (Option Connection))
    → Within ups downs held w
    → ((v : List Effect) → Within ups downs held v → Within ups1 downs1 held v)
    → ((p : List Matcher × Faults) (v : List Effect)
        → Within ups downs held v
        → IsSound ups1 downs1 (k p v))
    → (q : List Effect × Result ProxyError (List Matcher × Faults))
    → Leaves (λ v a. Silent w v) (λ v. Silent w v) q
    → IsSound ups1 downs1 (continue q k)
applied ups downs held ups1 downs1 w k h wider sound (v, ok p) s =
    sound p v (Within-Silent ups downs held w v s h)
applied ups downs held ups1 downs1 w k h wider sound (v, err e) s =
    drop_held ups1 downs1 held v (wider v (Within-Silent ups downs held w v s h))

-- More frames, none of which is written.
wider :
    (ups downs held us ds : List Bytes) (w : List Effect)
    → Within ups downs held w
    → Within (ups ++ us) (downs ++ ds) held w
wider ups downs held us ds w (u, d) =
    (Sublist.trans u (sublist-append_left ups us), Sublist.trans d (sublist-append_left downs ds))

-- The end of a side.
closed :
    (ups downs held us ds : List Bytes) (side : Side) (w : List Effect)
    → Within ups downs held w
    → Within (ups ++ us) (downs ++ ds) [] (w ++ shut_down side ∷ [])
closed ups downs held us ds side w h =
    let w1 = w ++ shut_down side ∷ [] in
    drop_held (ups ++ us) (downs ++ ds) held w1 (
      wider ups downs held us ds w1
        (Within-Silent ups downs held w w1 (Silent-concat w (shut_down side) (refl, refl)) h))

-- What was held does not count.
sound-Sublist :
    (ups downs : List Bytes) (q : List Effect × Result ProxyError (Option Connection))
    → IsSound ups downs q
    → Sublist (upstream q.0) ups × Sublist (downstream q.0) downs
sound-Sublist ups downs (w, ok o) (u, d) =
    (u, Sublist.trans (sublist-append_left (downstream w) (held_of o)) d)
sound-Sublist ups downs (w, err e) (u, d) =
    (u, Sublist.trans (sublist-append_left (downstream w) []) d)

module _ (digest : Bytes → String) (parse_duration : String → Option ℕ) (id : ℕ) where
  after_forward-IsSound :
      (f : Frame) (c : Connection) (ups downs : List Bytes) (w : List Effect)
      → Within ups downs c.held w
      → IsSound ups downs (after_forward digest parse_duration id f c w)
  unfolding after_forward
  after_forward-IsSound f c ups downs w h =
      let es = (forwarded c.state).1 ∷ [] in
      IsSound-if ups downs (tag f == b'Q' || tag f == b'E') _ _ w
        (λ query.
          applied ups downs c.held ups downs w _ h (λ v k. k)
            (λ p v k. ended-or p.1.disposition.disconnect _ ups downs v k)
            (apply parse_duration es c.matchers (faults c) w)
            (apply-IsSilent parse_duration es c.matchers (faults c) w))
        (λ other. h)

  after_forward-ends :
      (f : Frame) (ups downs : List Bytes) (q : List Effect × Result ProxyError (Option Connection))
      → IsSound ups downs q
      → IsSound ups downs (continue q (λ o. pure (if tag f == b'X' then none else o)))
  after_forward-ends f ups downs (w, ok o) h = ended-or (tag f == b'X') o ups downs w h
  after_forward-ends f ups downs (w, err e) h = h

  forward-IsSound :
      (f : Frame) (d : Disposition) (c : Connection) (ups downs : List Bytes) (w : List Effect)
      → Within ups downs c.held w
      → IsSound (ups ++ f.bytes ∷ []) downs (forward digest parse_duration id f d c w)
  unfolding forward
  forward-IsSound f d c ups downs w h =
      let ups1 = ups ++ f.bytes ∷ [] in
      let wider = kept_back ups downs c.held f.bytes w h in
      IsSound-if ups1 downs d.disconnect _ _ w (λ ended. drop_held ups1 downs c.held w wider)
        (λ more.
          IsSound-if ups1 downs d.suppress _ _ w
            (λ gone. ended-or (tag f == b'X') (some c) ups1 downs w wider)
            (λ passes.
              after_forward-ends f ups1 downs
                (after_forward digest parse_duration id f c (w ++ to_upstream f.bytes ∷ []))
                (after_forward-IsSound f c ups1 downs (w ++ to_upstream f.bytes ∷ [])
                  (sent ups downs c.held f.bytes w h))))

  on_client-IsSound :
      (f : Frame) (c : Connection) (ups downs : List Bytes) (w : List Effect)
      → Within ups downs c.held w
      → IsSound (ups ++ f.bytes ∷ []) downs (on_client digest parse_duration id f c w)
  unfolding on_client
  on_client-IsSound f c ups downs w h =
      let es = (frontend digest f c.state).1 in
      applied ups downs c.held (ups ++ f.bytes ∷ []) downs w _ h
        (λ v k. kept_back ups downs c.held f.bytes v k)
        (λ p v k. forward-IsSound f p.1.disposition _ ups downs v k)
        (apply parse_duration es c.matchers (faults c) w)
        (apply-IsSilent parse_duration es c.matchers (faults c) w)

  on_server-IsSound :
      (f : Frame) (c : Connection) (ups downs : List Bytes) (w : List Effect)
      → Within ups downs c.held w
      → IsSound ups (downs ++ f.bytes ∷ []) (on_server digest parse_duration id f c w)
  unfolding on_server
  on_server-IsSound f c ups downs w h =
      let downs1 = downs ++ f.bytes ∷ [] in
      let es = (backend f c.state).1 in
      applied ups downs c.held ups downs1 w _ h (λ v k. unchanged ups downs c.held f.bytes v k)
        (λ p v k.
          IsSound-if ups downs1 p.1.disposition.disconnect _ _ v
            (λ ended. drop_held ups downs1 c.held v (unchanged ups downs c.held f.bytes v k))
            (λ more. deliver-IsSound id f _ p.1.disposition.suppress _ ups downs v k))
        (apply parse_duration es c.matchers (faults c) w)
        (apply-IsSilent parse_duration es c.matchers (faults c) w)

  resumed :
      (is : List Input) (ups downs us ds : List Bytes)
      (q : List Effect × Result ProxyError (Option Connection))
      → IsSound ups downs q
      → ((c : Connection) (w : List Effect)
          → Within ups downs c.held w
          → IsSound (ups ++ us) (downs ++ ds) (run digest parse_duration id is c w))
      → IsSound (ups ++ us) (downs ++ ds) (continue q (rest_of parse_duration digest id is))
  resumed is ups downs us ds (w, ok (some c)) h k = k c w h
  resumed is ups downs us ds (w, ok none) h k = wider ups downs [] us ds w h
  resumed is ups downs us ds (w, err e) h k = wider ups downs [] us ds w h

  run-IsSound :
      (is : List Input) (c : Connection) (ups downs : List Bytes) (w : List Effect)
      → Within ups downs c.held w
      → IsSound (ups ++ of_client is) (downs ++ of_server is) (run digest parse_duration id is c w)
  unfolding run on_input
  run-IsSound [] c ups downs w h = wider ups downs c.held [] [] w h
  run-IsSound (client f ∷ is) c ups downs w h =
      let ups1 = ups ++ f.bytes ∷ [] in
      rw (← append_assoc ups (f.bytes ∷ []) (of_client is)) (
        resumed is ups1 downs (of_client is) (of_server is)
          (on_client digest parse_duration id f c w) (on_client-IsSound f c ups downs w h)
          (λ c1 w1 k. run-IsSound is c1 ups1 downs w1 k))
  run-IsSound (server f ∷ is) c ups downs w h =
      let downs1 = downs ++ f.bytes ∷ [] in
      rw (← append_assoc downs (f.bytes ∷ []) (of_server is)) (
        resumed is ups downs1 (of_client is) (of_server is)
          (on_server digest parse_duration id f c w) (on_server-IsSound f c ups downs w h)
          (λ c1 w1 k. run-IsSound is c1 ups downs1 w1 k))
  run-IsSound (client_closed ∷ is) c ups downs w h =
      closed ups downs c.held (of_client is) (of_server is) Side.upstream w h
  run-IsSound (server_closed ∷ is) c ups downs w h =
      closed ups downs c.held (of_client is) (of_server is) Side.frontend w h
  run-IsSound (client_broken e ∷ is) c ups downs w h =
      drop_held (ups ++ of_client is) (downs ++ of_server is) c.held w
        (wider ups downs c.held (of_client is) (of_server is) w h)
  run-IsSound (server_broken e ∷ is) c ups downs w h =
      drop_held (ups ++ of_client is) (downs ++ of_server is) c.held w
        (wider ups downs c.held (of_client is) (of_server is) w h)

  -- Whatever the scenarios and the inputs are, from a connection that holds nothing, the writes
  -- to the server are frames of the client, unchanged and in their order, and the writes to the
  -- client are frames of the server, unchanged and in their order: frames may be missing, and
  -- none is added, changed or moved.
  pub run-Sublist :
      (is : List Input) (c : Connection)
      → c.held ≡ []
      → let w = (run digest parse_duration id is c []).0 in
        Sublist (upstream w) (of_client is) × Sublist (downstream w) (of_server is)
  run-Sublist is c none_held =
      sound-Sublist (of_client is) (of_server is) (run digest parse_duration id is c [])
        (run-IsSound is c [] [] [] (Sublist.refl [], rw none_held (Sublist.refl [])))
