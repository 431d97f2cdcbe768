-- ===== src/Proxy/Held.antt =====
-- What is held behind a gate: its size is known, and bounded.
use pgfault.Base.{
  ℕ, ◌+◌, ◌≤◌, ltb, ◌==◌, if◌then◌else◌, ◌≡◌, refl, Bool, true, false, not, ◌||◌, String, Option,
  none, some, List, [], ◌∷◌, ◌++◌, arith, Bytes, length, is_empty, nat_eq, string_eq,
  bytes_eq_instance,
}
use pgfault.Wire.{Frame, tag}
use pgfault.Events.{Event}
use pgfault.State.{forwarded}
use pgfault.Scenario.Matcher.{Matcher}
use pgfault.State.Frontend.{frontend}
use pgfault.State.Backend.{backend}
use pgfault.Proxy.Effects.{Effect, M, continue, to_upstream, write_all}
use pgfault.Proxy.Apply.{Faults, Disposition, apply}
use pgfault.Proxy.Relay.{
  Connection, Input, client, server, client_closed, server_closed, client_broken, server_broken,
  on_client, on_server, on_input, deliver, pass_on, hold, release, forward, after_forward, cuts,
  one_less, gate_limit, faults,
}
use pgfault.Proxy.Outcome.{Keeps, Keeps-continue, Keeps-any, Keeps-if}

abbrev pub total : List Bytes → ℕ
total [] = 0
total (b ∷ bs) = length b + total bs

total-append : (bs cs : List Bytes) → total (bs ++ cs) ≡ total bs + total cs
total-append [] cs = omega arith
total-append (b ∷ bs) cs = omega (arith, total-append bs cs)

-- `held_size` is the size of what is held, and it is within the limit.
pub record IsHeld (c : Connection) : Type 0 where
  pub sized : c.held_size ≡ total c.held
  pub bounded : c.held_size ≤ gate_limit

abbrev pub Alive : Option Connection → Type 0
Alive none = Unit {0}
Alive (some c) = IsHeld c

emptied : (c : Connection) → IsHeld (record c { held = []; held_size = 0; truncate = none })
emptied c = record { sized = refl; bounded = omega arith }

release-IsHeld :
    (f : Frame) (suppress : Bool) (c : Connection) (w : List Effect)
    → Keeps IsHeld (release f suppress c w)
unfolding release
release-IsHeld f true c w = emptied c
release-IsHeld f false c w =
    Keeps-continue (λ u. Unit {0}) IsHeld (write_all c.held w) _ (Keeps-any (write_all c.held w))
      (λ u w1 v. emptied c)

hold-IsHeld :
    (f : Frame) (gate : Bool) (c : Connection) (w : List Effect)
    → IsHeld c
    → Keeps IsHeld (hold f gate c w)
unfolding hold
hold-IsHeld f gate c w k =
    Keeps-if IsHeld (gate || not (is_empty c.held)) _ _ w
      (λ held.
        Keeps-if IsHeld (ltb gate_limit (c.held_size + length f.bytes)) _ _ w (λ big. tt)
          (λ fits. record {
            sized = omega (arith, k.sized, total-append c.held (f.bytes ∷ []));
            bounded = ground (arith);
          }))
      (λ free. k)

pass_on-IsHeld :
    (f : Frame) (gate suppress : Bool) (c : Connection) (w : List Effect)
    → IsHeld c
    → Keeps IsHeld (pass_on f gate suppress c w)
unfolding pass_on
pass_on-IsHeld f gate suppress c w k =
    Keeps-if IsHeld (tag f == b'Z') _ _ w (λ ready. release-IsHeld f suppress c w)
      (λ other. Keeps-if IsHeld suppress _ _ w (λ drop. k) (λ send. hold-IsHeld f gate c w k))

deliver-Alive :
    (id : ℕ) (f : Frame) (gate suppress : Bool) (c : Connection) (w : List Effect)
    → IsHeld c
    → Keeps Alive (deliver id f gate suppress c w)
unfolding deliver
deliver-Alive id f gate suppress c w k =
    Keeps-if Alive (tag f == b'D') _ _ w
      (λ row.
        Keeps-if Alive (cuts c.truncate) _ _ w (λ out. tt)
          (λ left.
            Keeps-continue IsHeld Alive _ _
              (pass_on-IsHeld f gate suppress (record c { truncate = one_less c.truncate }) w
                (record { sized = k.sized; bounded = k.bounded }))
              (λ c1 w1 k1. Keeps-if Alive (cuts c1.truncate) _ _ w1 (λ out. tt) (λ more. k1))))
      (λ other.
        Keeps-continue IsHeld Alive _ _ (pass_on-IsHeld f gate suppress c w k) (λ c1 w1 k1. k1))

-- Whether the connection ends here or goes on, what goes on is unchanged.
Alive-if : (b : Bool) (o : Option Connection) → Alive o → Alive (if b then none else o)
Alive-if true o k = tt
Alive-if false o k = k

module _ (digest : Bytes → String) (parse_duration : String → Option ℕ) (id : ℕ) where
  -- The events of a frame are applied, and then the connection goes on with what is returned.
  apply-Alive :
      (es : List Event) (ms : List Matcher) (x : Faults)
      (k : List Matcher × Faults → M (Option Connection)) (w : List Effect)
      → ((a : List Matcher × Faults) (w1 : List Effect) → Keeps Alive (k a w1))
      → Keeps Alive (continue (apply parse_duration es ms x w) k)
  apply-Alive es ms x k w alive =
      Keeps-continue (λ a. Unit {0}) Alive (apply parse_duration es ms x w) k
        (Keeps-any (apply parse_duration es ms x w)) (λ a w1 u. alive a w1)

  after_forward-Alive :
      (f : Frame) (c : Connection) (w : List Effect)
      → IsHeld c
      → Keeps Alive (after_forward digest parse_duration id f c w)
  unfolding after_forward
  after_forward-Alive f c w k =
      Keeps-if Alive (tag f == b'Q' || tag f == b'E') _ _ w
        (λ query. apply-Alive ((forwarded c.state).1 ∷ []) c.matchers (faults c) _ w (λ a w1.
          Alive-if a.1.disposition.disconnect _ (record { sized = k.sized; bounded = k.bounded })))
        (λ other. k)

  forward-Alive :
      (f : Frame) (d : Disposition) (c : Connection) (w : List Effect)
      → IsHeld c
      → Keeps Alive (forward digest parse_duration id f d c w)
  unfolding forward
  forward-Alive f d c w k =
      Keeps-if Alive d.disconnect _ _ w (λ ended. tt)
        (λ more.
          Keeps-if Alive d.suppress _ _ w (λ drop. Alive-if (tag f == b'X') (some c) k)
            (λ send.
              Keeps-continue Alive Alive
                (after_forward digest parse_duration id f c (w ++ to_upstream f.bytes ∷ [])) _
                (after_forward-Alive f c (w ++ to_upstream f.bytes ∷ []) k)
                (λ o w1 alive. Alive-if (tag f == b'X') o alive)))

  pub on_input-Alive :
      (i : Input) (c : Connection) (w : List Effect)
      → IsHeld c
      → Keeps Alive (on_input digest parse_duration id i c w)
  unfolding on_input on_client on_server
  on_input-Alive (client f) c w k =
      apply-Alive (frontend digest f c.state).1 c.matchers (faults c) _ w (λ a w1.
        forward-Alive f a.1.disposition _ w1 (record { sized = k.sized; bounded = k.bounded }))
  on_input-Alive (server f) c w k =
      apply-Alive (backend f c.state).1 c.matchers (faults c) _ w (λ a w1.
        Keeps-if Alive a.1.disposition.disconnect _ _ w1 (λ ended. tt)
          (λ more.
            deliver-Alive id f _ a.1.disposition.suppress _ w1
              (record { sized = k.sized; bounded = k.bounded })))
  on_input-Alive client_closed c w k = tt
  on_input-Alive server_closed c w k = tt
  on_input-Alive (client_broken e) c w k = tt
  on_input-Alive (server_broken e) c w k = tt
